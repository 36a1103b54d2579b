-- ===== src/Queue/Window.antt =====
-- The occupied cells of a circular buffer, read from an offset on and round its end.
use hf_qcorral.Prelude.{
  subst, ℕ, zero, suc, ◌+◌, ◌-◌, ◌≤◌, ◌<◌, ◌≡◌, refl, sym, ap, ◌∙◌, ◌≢◌, List, [], ◌∷◌, ◌++◌, map,
  Option, some, arith, length, get_elem?, set, take, drop, drop-get, get_elem?-set_self,
  get_elem?-set_ne, length-set, ltb, if◌then◌else◌,
}
use hf_qcorral.Queue.{next, write_cells}

-- The cell `k` steps after `h`, for `h` and `k` up to `n`.
abbrev pub offset : ℕ → ℕ → ℕ → ℕ
offset n h k = if ltb (h + k) n then h + k else h + k - n

pub next-lt : (n h : ℕ) → h < n → next n h < n
next-lt n h p = ground arith

pub offset-zero : (n h : ℕ) → h < n → offset n h 0 ≡ h
offset-zero n h p = ground arith

pub offset-next : (n h k : ℕ) → h < n → suc k < n → offset n (next n h) k ≡ offset n h (suc k)
offset-next n h k p q = ground arith

offset-ne : (n h k : ℕ) → h < n → suc k < n → offset n h (suc k) ≢ h
offset-ne n h k p q = ground arith

pub offset-lt : (n h k : ℕ) → h < n → k ≤ n → offset n h k < n
offset-lt n h k p q = ground arith

next-below : (n h k : ℕ) → h + suc (suc k) ≤ n → next n h ≡ suc h
next-below n h k p = ground arith

next-end : (n h : ℕ) → h + 1 ≡ n → next n h ≡ 0
next-end n h p = ground arith

module _ {ℓ} {A : Type ℓ} where
  -- From `h` on stand the objects `xs`.
  abbrev pub Window : List (Option A) → ℕ → ℕ → List A → Type ℓ
  Window cells n h [] = Unit
  Window cells n h (x ∷ xs) = (get_elem? cells h ≡ some (some x)) × Window cells n (next n h) xs

  -- A write outside the window leaves it as it was.
  pub Window-set :
      (cells : List (Option A)) (n h : ℕ) (xs : List A) (j d : ℕ) (v : Option A)
      → h < n
      → length xs ≤ d
      → d < n
      → j ≡ offset n h d
      → Window cells n h xs
      → Window (set cells j v) n h xs
  Window-set cells n h [] j d v hh hd hc e w = tt
  Window-set cells n h (x ∷ xs) j zero v hh hd hc e w = absurd (omega arith)
  Window-set cells n h (x ∷ xs) j (suc d) v hh hd hc e w = (
    get_elem?-set_ne cells j h v (λ p. offset-ne n h d hh hc (sym e ∙ p)) ∙ w.0,
    Window-set cells n (next n h) xs j d v (next-lt n h hh) (omega arith) (omega arith)
        (e ∙ sym (offset-next n h d hh hc)) w.1,
  )

  -- One more object after the last.
  pub Window-snoc :
      (cells : List (Option A)) (n h : ℕ) (xs : List A) (x : A)
      → h < n
      → length xs < n
      → get_elem? cells (offset n h (length xs)) ≡ some (some x)
      → Window cells n h xs
      → Window cells n h (xs ++ x ∷ [])
  Window-snoc cells n h [] x hh hl e w = (rw (offset-zero n h hh) at e, tt)
  Window-snoc cells n h (y ∷ ys) x hh hl e w = (
    w.0,
    Window-snoc cells n (next n h) ys x (next-lt n h hh) (omega arith)
        (rw (offset-next n h (length ys) hh (omega arith)) e) w.1,
  )

  -- A window that does not go round is a slice.
  pub Window-slice :
      (cells : List (Option A)) (n h : ℕ) (xs : List A)
      → h + length xs ≤ n
      → Window cells n h xs
      → take (length xs) (drop h cells) ≡ map some xs
  Window-slice cells n h [] hl w = refl
  Window-slice cells n h (x ∷ []) hl w = rw (drop-get cells h w.0)
  Window-slice cells n h (x ∷ y ∷ ys) hl w = rw (drop-get cells h w.0) (
      ap (◌∷◌ (some x)) (
        Window-slice cells n (suc h) (y ∷ ys) (omega arith)
          (rw (next-below n h (length ys) (omega arith)) at w.1)))

  -- A window that reaches the end of the buffer goes on at its start.
  pub Window-drop :
      (cells : List (Option A)) (n h k : ℕ) (xs : List A)
      → h + suc k ≡ n
      → suc k ≤ length xs
      → Window cells n h xs
      → Window cells n 0 (drop (suc k) xs)
  Window-drop cells n h k [] e hk w = absurd (omega arith)
  Window-drop cells n h zero (x ∷ xs) e hk w = rw (next-end n h (omega arith)) at w.1
  Window-drop cells n h (suc k) (x ∷ xs) e hk w =
      Window-drop cells n (suc h) k xs (omega arith) (omega arith)
        (rw (next-below n h k (omega arith)) at w.1)

  pub Window-take :
      (cells : List (Option A)) (n h k : ℕ) (xs : List A)
      → Window cells n h xs
      → Window cells n h (take k xs)
  Window-take cells n h zero xs w = tt
  Window-take cells n h (suc k) [] w = tt
  Window-take cells n h (suc k) (x ∷ xs) w = (w.0, Window-take cells n (next n h) k xs w.1)

  pub write_cells-append :
      (cells ds bs : List (Option A)) (at : ℕ)
      → write_cells (write_cells cells at ds) (at + length ds) bs ≡ write_cells cells at (ds ++ bs)
  unfolding write_cells
  write_cells-append cells [] bs at = ap (λ k. write_cells cells k bs) (omega arith)
  write_cells-append cells (c ∷ ds) bs at =
      ap (λ k. write_cells (write_cells (set cells at c) (at + 1) ds) k bs)
        (let e : at + suc (length ds) ≡ at + 1 + length ds = omega arith in e)
      ∙ write_cells-append (set cells at c) ds bs (at + 1)

  pub length-write_cells :
      (cells cs : List (Option A)) (at : ℕ) → length (write_cells cells at cs) ≡ length cells
  unfolding write_cells
  length-write_cells cells [] at = refl
  length-write_cells cells (c ∷ cs) at =
      length-write_cells (set cells at c) cs (at + 1) ∙ length-set cells at c

  get-write_cells :
      (cells cs : List (Option A)) (at j : ℕ)
      → j < at
      → get_elem? (write_cells cells at cs) j ≡ get_elem? cells j
  unfolding write_cells
  get-write_cells cells [] at j h = refl
  get-write_cells cells (c ∷ cs) at j h =
      get-write_cells (set cells at c) cs (at + 1) j (omega arith)
      ∙ get_elem?-set_ne cells at j c (λ e. omega arith)

  -- What is written in a row can be read back.
  pub write_cells-Window :
      (cells : List (Option A)) (n at : ℕ) (xs : List A)
      → at + length xs ≤ n
      → n ≤ length cells
      → Window (write_cells cells at (map some xs)) n at xs
  unfolding write_cells
  write_cells-Window cells n at [] h l = tt
  write_cells-Window cells n at (x ∷ []) h l =
      (get_elem?-set_self cells at (some x) (omega arith), tt)
  write_cells-Window cells n at (x ∷ y ∷ ys) h l = (
    get-write_cells (set cells at (some x)) (map some (y ∷ ys)) (at + 1) at (omega arith)
        ∙ get_elem?-set_self cells at (some x) (omega arith),
    subst
        (λ k.
          Window (write_cells (set cells at (some x)) (at + 1) (map some (y ∷ ys))) n k (y ∷ ys))
        (let e : at + 1 ≡ next n at = omega (arith, next-below n at (length ys) (omega arith)) in e)
        (write_cells-Window (set cells at (some x)) n (at + 1) (y ∷ ys) (omega arith)
          (rw (length-set cells at (some x)) l)),
  )
