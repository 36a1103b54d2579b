-- ===== src/Queue/Refine.antt =====
-- The queue of detail/Queue.h holds a sequence of objects: what each operation does to it.
use hf_qcorral.Prelude.{
  ℕ, suc, ◌+◌, ◌-◌, ◌^◌, ◌≤◌, ◌<◌, ◌≡◌, refl, sym, ap, ◌∙◌, inl, inr, List, [], ◌∷◌, ◌++◌, map,
  map-append, true, false, Bool-cases, Option, none, some, arith, length, take, drop, length-append,
  length-set, length-map, length-replicate, length-take_le, length-drop, take-append-drop,
  get_elem?-set_self, ltb, ◌==◌, ap₂, append-nil, subst, replicate, ==_iff, suc-eqb-zero,
}
use hf_qcorral.Queue.{
  Queue, next, make, is_empty, span, front, pop_front, first_range, second_range, write_cells,
  move_range, grow, grown_capacity, append_cell, push_back,
}
use hf_qcorral.Queue.Window.{
  offset, offset-lt, next-lt, Window, Window-set, Window-snoc, Window-slice, Window-drop,
  Window-take, write_cells-append, length-write_cells, write_cells-Window,
}

-- `q` holds `xs`, oldest first. Half of the address space bounds the capacity.
pub record Holds {ℓ} {A : Type ℓ} (q : Queue A) (xs : List A) : Type ℓ where
  pub storage : length q.buffer ≡ q.capacity
  pub small : q.capacity < 2 ^ 62
  pub counted : q.size ≡ length xs
  pub fits : length xs ≤ q.capacity
  pub home : q.head ≤ q.capacity - 1
  pub ends : q.tail ≡ offset q.capacity q.head (length xs)
  pub window : Window q.buffer q.capacity q.head xs

-- What the pointers tell of the shape: the occupied cells are in one piece, or go round the end.
linear_shape :
    (n h t k : ℕ)
    → h ≤ n - 1
    → k ≤ n
    → t ≡ offset n h k
    → ltb h t ≡ true
    → (t - h ≡ k) × (h + k ≤ n)
linear_shape n h t k p q e l = ground arith

wrapped_shape :
    (n h t k : ℕ)
    → h ≤ n - 1
    → suc k ≤ n
    → t ≡ offset n h (suc k)
    → ltb h t ≡ false
    → (h + suc (n - h - 1) ≡ n)
      × (suc (n - h - 1) ≡ n - h)
      × (n - h ≤ suc k)
      × (t ≡ suc k - (n - h))
wrapped_shape n h t k p q e l = ground arith

sub_zero : (n : ℕ) → n - 0 ≡ n
sub_zero n = omega arith

next-offset : (n h k : ℕ) → h < n → k < n → next n (offset n h k) ≡ offset n h (k + 1)
next-offset n h k p q = ground arith

room_left : (size n k : ℕ) → size ≡ k → k ≤ n → (size == n) ≡ false → k < n
room_left size n k e h room = ground arith

popped_home : (n h k : ℕ) → h ≤ n - 1 → suc k ≤ n → next n h ≤ n - 1
popped_home n h k p q = ground arith

popped_ends : (n h k : ℕ) → h ≤ n - 1 → suc k ≤ n → offset n h (suc k) ≡ offset n (next n h) k
popped_ends n h k p q = ground arith

before_head : (n h : ℕ) → h < n → h ≡ offset n (next n h) (n - 1)
before_head n h p = ground arith

offset_from_start : (n k : ℕ) → k < n → offset n 0 k ≡ k
offset_from_start n k h = ground arith

module _ {ℓ} {A : Type ℓ} where
  pub make-Holds : (n : ℕ) → n < 2 ^ 62 → Holds {A = A} (make n) []
  unfolding make
  make-Holds n h = record {
    storage = length-replicate n none;
    small = h;
    counted = refl;
    fits = omega arith;
    home = omega arith;
    ends = ends_at n;
    window = tt;
  }
    where
      ends_at : (k : ℕ) → 0 ≡ offset k 0 0
      ends_at k = ground arith

  first-slice :
      (q : Queue A) (ys : List A) (k : ℕ)
      → Holds q ys
      → q.head + suc k ≡ q.capacity
      → suc k ≤ length ys
      → take (suc k) (drop q.head q.buffer) ≡ map some (take (suc k) ys)
  first-slice q ys k v e le = rw (length-take_le (suc k) ys le) at (
      Window-slice q.buffer q.capacity q.head (take (suc k) ys)
        (omega (arith, length-take_le (suc k) ys le))
        (Window-take q.buffer q.capacity q.head (suc k) ys v.window))

  second-slice :
      (q : Queue A) (ys : List A) (k : ℕ)
      → Holds q ys
      → q.head + suc k ≡ q.capacity
      → suc k ≤ length ys
      → span q.buffer 0 (length ys - suc k) ≡ map some (drop (suc k) ys)
  second-slice q ys k v e le =
      rw (length-drop (suc k) ys, ← sub_zero (length ys - suc k)) at
        (Window-slice q.buffer q.capacity 0 (drop (suc k) ys)
          (omega (arith, length-drop (suc k) ys, v.fits))
          (Window-drop q.buffer q.capacity q.head k ys e le v.window))

  -- The two ranges are the contents in order.
  pub ranges-Holds :
      (q : Queue A) (xs : List A) → Holds q xs → first_range q ++ second_range q ≡ map some xs
  unfolding first_range second_range
  ranges-Holds q [] v = rw (v.counted)
  ranges-Holds q (x ∷ xs) v = elim (Bool-cases (ltb q.head q.tail)) [
    | inl l ↦
        let s = linear_shape q.capacity q.head q.tail (suc (length xs)) v.home v.fits v.ends l in
        rw (v.counted, l, suc-eqb-zero (length xs), append-nil, s.0)
          (Window-slice q.buffer q.capacity q.head (x ∷ xs) s.1 v.window)
    | inr l ↦
        let s = wrapped_shape q.capacity q.head q.tail (length xs) v.home v.fits v.ends l in
        rw (v.counted, l, suc-eqb-zero (length xs)) (wrapped q (x ∷ xs) _ v s.0 s.1 s.2 s.3)
  ]
    where
      wrapped :
          (q : Queue A) (ys : List A) (k : ℕ)
          → Holds q ys
          → q.head + suc k ≡ q.capacity
          → suc k ≡ q.capacity - q.head
          → q.capacity - q.head ≤ length ys
          → q.tail ≡ length ys - (q.capacity - q.head)
          → span q.buffer q.head q.capacity ++ span q.buffer 0 q.tail ≡ map some ys
      wrapped q ys k v e₁ e₂ le e₃ =
          rw (e₃, ← e₂)
            (ap₂ ◌++◌ (first-slice q ys k v e₁ (omega arith))
                (second-slice q ys k v e₁ (omega arith))
              ∙ sym (map-append some (take (suc k) ys) (drop (suc k) ys))
              ∙ ap (map some) (take-append-drop (suc k) ys))

  pub append_cell-Holds :
      (u : A) (q : Queue A) (xs : List A)
      → Holds q xs
      → length xs < q.capacity
      → Holds (append_cell u q) (xs ++ u ∷ [])
  unfolding append_cell
  append_cell-Holds u q xs v h = record {
    storage = length-set q.buffer q.tail (some u) ∙ v.storage;
    small = v.small;
    counted = omega (arith, v.counted, length-append xs (u ∷ []), v.small);
    fits = omega (arith, length-append xs (u ∷ []));
    home = v.home;
    ends =
        ap (next q.capacity) v.ends
        ∙ next-offset q.capacity q.head (length xs) (omega (arith, v.home)) h
        ∙ ap (offset q.capacity q.head) (omega (arith, length-append xs (u ∷ [])));
    window =
        Window-snoc _ q.capacity q.head xs u (omega (arith, v.home)) h
          (rw (← v.ends) (
            get_elem?-set_self q.buffer q.tail (some u) (
              rw (v.ends, v.storage)
                (offset-lt q.capacity q.head (length xs) (omega (arith, v.home)) (omega arith)))))
          (Window-set q.buffer q.capacity q.head xs q.tail (length xs) (some u)
            (omega (arith, v.home)) (omega arith) h v.ends v.window);
  }

  -- `grow` keeps the contents and leaves room behind them.
  pub grow-Holds :
      (q : Queue A) (xs : List A)
      → Holds q xs
      → q.capacity < 2 ^ 61
      → q.size ≡ q.capacity
      → Holds (grow q) xs × (length xs < (grow q).capacity)
  unfolding grow move_range make
  grow-Holds q xs v small full = (
    record {
      storage =
          length-write_cells _ (second_range q) _
          ∙ length-write_cells _ (first_range q) 0
          ∙ length-replicate _ none;
      small = omega arith;
      counted = moved;
      fits = omega (arith, v.counted);
      home = omega arith;
      ends = moved ∙ sym (offset_from_start _ (length xs) (omega (arith, v.counted)));
      window = subst (λ cells. Window cells (grown_capacity q) 0 xs) (sym written) fresh_window;
    },
    omega (arith, v.counted),
  )
    where
      moved : 0 + length (first_range q) + length (second_range q) ≡ length xs
      moved = omega (
        arith,
        length-append (first_range q) (second_range q),
        ap length (ranges-Holds q xs v),
        length-map {B = Option A} xs some,
      )

      written : (grow q).buffer ≡ write_cells (replicate (grown_capacity q) none) 0 (map some xs)
      written =
          write_cells-append _ (first_range q) (second_range q) 0
          ∙ ap (write_cells _ 0) (ranges-Holds q xs v)

      fresh_window :
          Window
            (write_cells (replicate (grown_capacity q) none) 0 (map some xs))
            (grown_capacity q)
            0
            xs
      fresh_window =
          write_cells-Window _ _ 0 xs (omega (arith, v.counted))
            (omega (arith, length-replicate {A = Option A} (grown_capacity q) none))

  -- A new object goes to the end, whether or not the buffer has to grow.
  pub push_back-Holds :
      (u : A) (q : Queue A) (xs : List A)
      → Holds q xs
      → q.capacity < 2 ^ 61
      → Holds (push_back u q) (xs ++ u ∷ [])
  unfolding push_back
  push_back-Holds u q xs v small = elim (Bool-cases (q.size == q.capacity)) [
    | inl full ↦
        let g = grow-Holds q xs v small ((==_iff q.size q.capacity).0 full) in
        rw full (append_cell-Holds u (grow q) xs g.0 g.1)
    | inr room ↦
        rw room (
          append_cell-Holds u q xs v
            (room_left q.size q.capacity (length xs) v.counted v.fits room))
  ]

  -- The buffer doubles only when it is full.
  pub capacity-push_back :
      (u : A) (q : Queue A) (xs : List A)
      → Holds q xs
      → q.capacity < 2 ^ 61
      → length xs < 2 ^ 60
      → (push_back u q).capacity < 2 ^ 61
  unfolding push_back append_cell grow move_range make
  capacity-push_back u q xs v small few = elim (Bool-cases (q.size == q.capacity)) [
    | inl full ↦ rw full (omega (arith, (==_iff q.size q.capacity).0 full, v.counted))
    | inr room ↦ rw room small
  ]

  -- While there is room the buffer stays.
  pub capacity-push_back_room :
      (u : A) (q : Queue A) → (q.size == q.capacity) ≡ false → (push_back u q).capacity ≡ q.capacity
  unfolding push_back append_cell
  capacity-push_back_room u q room = rw room

  pub capacity-pop_front : (q : Queue A) → (pop_front q).capacity ≡ q.capacity
  unfolding pop_front
  capacity-pop_front q = refl

  -- The oldest object leaves.
  pub pop_front-Holds :
      (q : Queue A) (x : A) (xs : List A) → Holds q (x ∷ xs) → Holds (pop_front q) xs
  unfolding pop_front
  pop_front-Holds q x xs v = record {
    storage = length-set q.buffer q.head none ∙ v.storage;
    small = v.small;
    counted = omega (arith, v.counted, v.small);
    fits = omega (arith, v.fits);
    home = popped_home q.capacity q.head (length xs) v.home v.fits;
    ends = v.ends ∙ popped_ends q.capacity q.head (length xs) v.home v.fits;
    window =
        Window-set q.buffer q.capacity (next q.capacity q.head) xs q.head (q.capacity - 1) none
          (next-lt q.capacity q.head (omega (arith, v.home, v.fits))) (omega (arith, v.fits))
          (omega (arith, v.fits)) (before_head q.capacity q.head (omega (arith, v.home, v.fits)))
          v.window.1;
  }

  pub front-Holds : (q : Queue A) (x : A) (xs : List A) → Holds q (x ∷ xs) → front q ≡ some x
  unfolding front
  front-Holds q x xs v = rw (v.window.0, front)

  pub is_empty-Holds : (q : Queue A) (xs : List A) → Holds q xs → is_empty q ≡ (length xs == 0)
  is_empty-Holds q xs v = ap (λ n. n == 0) v.counted
