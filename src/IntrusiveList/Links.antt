-- ===== src/IntrusiveList/Links.antt =====
-- The list that the pointers stand for, and what unlinking and appending do to it (IntrusiveList.h).
use hf_qcorral.Prelude.{
  ℕ, ◌≤◌, ◌≡◌, refl, sym, ap, subst, ◌∙◌, inl, inr, false, Bool-cases, List, [], ◌∷◌, ◌++◌, arith,
  ◌==◌, occurrences,
}
use hf_qcorral.Nursery.{erase}
use hf_qcorral.IntrusiveList.{Heap, update, set_next, set_prev}

-- From `a` by `next_` over the items to `b`, and back by `prev_`.
abbrev pub Links : Heap → ℕ → List ℕ → ℕ → Type 0
Links h a [] b = (h.next a ≡ b) × (h.prev b ≡ a)
Links h a (x ∷ xs) b = (h.next a ≡ x) × (h.prev x ≡ a) × Links h x xs b

abbrev pub Distinct : List ℕ → Type 0
Distinct xs = (v : ℕ) → occurrences v xs ≤ 1

pub update_ne : (f : ℕ → ℕ) (a v x : ℕ) → (x == a) ≡ false → update f a v x ≡ f x
update_ne f a v x e = rw e refl

pub update_eq : (f : ℕ → ℕ) (a v : ℕ) → update f a v a ≡ v
update_eq f a v = ground arith

pub apart :
    (y x : ℕ) (xs : List ℕ)
    → occurrences y (x ∷ xs) ≡ 0
    → ((x == y) ≡ false) × (occurrences y xs ≡ 0)
apart y x xs h = elim (Bool-cases (x == y)) [
  | inl e ↦ absurd (ground (arith, e, h))
  | inr e ↦ (e, ground (arith, e, h))
]

-- Writes outside of a segment.
pub set_next-Links :
    (h : Heap) (a : ℕ) (xs : List ℕ) (b y v : ℕ)
    → occurrences y (a ∷ xs) ≡ 0
    → Links h a xs b
    → Links (set_next y v h) a xs b
set_next-Links h a [] b y v o (n, p) = (update_ne h.next y v a (apart y a [] o).0 ∙ n, p)
set_next-Links h a (x ∷ xs) b y v o (n, p, ls) =
    let (e, rest) = apart y a (x ∷ xs) o in
    (update_ne h.next y v a e ∙ n, p, set_next-Links h x xs b y v rest ls)

pub set_prev-Links :
    (h : Heap) (a : ℕ) (xs : List ℕ) (b y v : ℕ)
    → occurrences y (b ∷ xs) ≡ 0
    → Links h a xs b
    → Links (set_prev y v h) a xs b
set_prev-Links h a [] b y v o (n, p) = (n, update_ne h.prev y v b (apart y b [] o).0 ∙ p)
set_prev-Links h a (x ∷ xs) b y v o (n, p, ls) =
    let (e, rest) = apart y b (x ∷ xs) o in
    let (e', rest') = apart y x xs rest in
    (n, update_ne h.prev y v x e' ∙ p, set_prev-Links h x xs b y v (ground (arith, e, rest')) ls)

tail_zero : (y b x : ℕ) (xs : List ℕ) → y ≡ x → Distinct (b ∷ x ∷ xs) → occurrences y (b ∷ xs) ≡ 0
tail_zero y b x xs e d = ground (arith, e, d x)

-- A segment that begins one item later.
bridge :
    (h : Heap) (a z : ℕ) (ys : List ℕ) (b : ℕ)
    → Links h z ys b
    → occurrences a ys ≡ 0
    → Distinct (b ∷ ys)
    → Links (set_next a (h.next z) (set_prev (h.next z) a h)) a ys b
bridge h a z [] b (n, p) o d = (update_eq h.next a (h.next z) ∙ n, rw n (update_eq h.prev b a))
bridge h a z (y ∷ zs) b (n, p, ls) o d = (
  update_eq h.next a (h.next z) ∙ n,
  rw n (update_eq h.prev y a),
  set_next-Links (set_prev (h.next z) a h) y zs b a (h.next z) o
      (set_prev-Links h y zs b (h.next z) a (tail_zero (h.next z) b y zs n d) ls),
)

pub next_in :
    (h : Heap) (z : ℕ) (ys : List ℕ) (b : ℕ) → Links h z ys b → 1 ≤ occurrences (h.next z) (b ∷ ys)
next_in h z [] b ls = ground (arith, ls.0)
next_in h z (y ∷ ys) b ls = ground (arith, ls.0)

occurrences-more :
    (v a b : ℕ) (xs : List ℕ) → 1 ≤ occurrences v (a ∷ xs) → 1 ≤ occurrences v (a ∷ b ∷ xs)
occurrences-more v a b xs h = omega (arith, h)

-- The neighbours of an item.
pub neighbours :
    (h : Heap) (a : ℕ) (xs : List ℕ) (b x : ℕ)
    → Links h a xs b
    → 1 ≤ occurrences x xs
    → (1 ≤ occurrences (h.prev x) (a ∷ xs)) × (1 ≤ occurrences (h.next x) (b ∷ xs))
neighbours h a [] b x ls o = absurd (ground (arith, o))
neighbours h a (z ∷ ys) b x (n, p, ls) o = elim (Bool-cases (z == x)) [
  | inl e ↦
      let same : x ≡ z = ground (arith, e) in
      (
        ground (arith, ap h.prev same, p),
        occurrences-more (h.next x) b z ys
            (subst (λ v. 1 ≤ occurrences (h.next v) (b ∷ ys)) (sym same) (next_in h z ys b ls)),
      )
  | inr e ↦
      let (q, r) = neighbours h z ys b x ls (ground (arith, e, o)) in
      (omega (arith, q), occurrences-more (h.next x) b z ys r)
]

pub ne_of : (v w : ℕ) (xs : List ℕ) → 1 ≤ occurrences v xs → occurrences w xs ≡ 0 → (w == v) ≡ false
ne_of v w xs o z = elim (Bool-cases (w == v)) [
  | inl e ↦
      let same : w ≡ v = ground (arith, e) in
      absurd (omega (arith, o, ap (λ u. occurrences u xs) (sym same), z))
  | inr e ↦ e
]

pub zero_head : (a : ℕ) (xs : List ℕ) → Distinct (a ∷ xs) → occurrences a xs ≡ 0
zero_head a xs d = ground (arith, d a)

zero_in : (a z : ℕ) (ys : List ℕ) → Distinct (a ∷ z ∷ ys) → occurrences a ys ≡ 0
zero_in a z ys d = ground (arith, d a)

pub Distinct-skip : (b z : ℕ) (ys : List ℕ) → Distinct (b ∷ z ∷ ys) → Distinct (b ∷ ys)
Distinct-skip b z ys d v = omega (arith, d v)

pub Distinct-rest : (a z : ℕ) (ys : List ℕ) → Distinct (a ∷ z ∷ ys) → Distinct (z ∷ ys)
Distinct-rest a z ys d v = omega (arith, d v)

zero_swap : (b z : ℕ) (ys : List ℕ) → Distinct (b ∷ z ∷ ys) → occurrences z (b ∷ ys) ≡ 0
zero_swap b z ys d = ground (arith, d z)

-- Unlinking an item of a segment.
pub unlinked-Links :
    (h : Heap) (a : ℕ) (xs : List ℕ) (b x : ℕ)
    → Links h a xs b
    → Distinct (a ∷ xs)
    → Distinct (b ∷ xs)
    → 1 ≤ occurrences x xs
    → Links (set_next (h.prev x) (h.next x) (set_prev (h.next x) (h.prev x) h)) a (erase x xs) b
unfolding erase
unlinked-Links h a [] b x ls da db o = absurd (ground (arith, o))
unlinked-Links h a (z ∷ ys) b x (n, p, ls) da db o = elim (Bool-cases (z == x)) [
  | inl e ↦
      let same : x ≡ z = ground (arith, e) in
      rw (e, same, p) (bridge h a z ys b ls (zero_in a z ys da) (Distinct-skip b z ys db))
  | inr e ↦
      let inside : 1 ≤ occurrences x ys = ground (arith, e, o) in
      let (q, r) = neighbours h z ys b x ls inside in
      let rest : Links (set_next (h.prev x) (h.next x) (set_prev (h.next x) (h.prev x) h)) z
          (erase x ys) b =
        unlinked-Links h z ys b x ls (Distinct-rest a z ys da) (Distinct-skip b z ys db) inside in
      rw e (
        update_ne h.next (h.prev x) (h.next x) a
              (ne_of (h.prev x) a (z ∷ ys) q (zero_head a (z ∷ ys) da))
            ∙ n,
        update_ne h.prev (h.next x) (h.prev x) z
              (ne_of (h.next x) z (b ∷ ys) r (zero_swap b z ys db))
            ∙ p,
        rest,
      )
]

pub last_in :
    (h : Heap) (z : ℕ) (ys : List ℕ) (b : ℕ) → Links h z ys b → 1 ≤ occurrences (h.prev b) (z ∷ ys)
last_in h z [] b ls = ground (arith, ls.1)
last_in h z (y ∷ ys) b (n, p, ls) = occurrences-later (h.prev b) z y ys (last_in h y ys b ls)
  where
    occurrences-later :
        (v a c : ℕ) (us : List ℕ) → 1 ≤ occurrences v (c ∷ us) → 1 ≤ occurrences v (a ∷ c ∷ us)
    occurrences-later v a c us o = omega (arith, o)

skipped : (x b z : ℕ) (ys : List ℕ) → occurrences x (b ∷ z ∷ ys) ≡ 0 → occurrences x (b ∷ ys) ≡ 0
skipped x b z ys o = omega (arith, o)

-- Appending an item that is not linked.
pub appended-Links :
    (h : Heap) (a : ℕ) (xs : List ℕ) (b x : ℕ)
    → Links h a xs b
    → Distinct (a ∷ xs)
    → Distinct (b ∷ xs)
    → occurrences x (a ∷ xs) ≡ 0
    → occurrences x (b ∷ xs) ≡ 0
    → Links
        (set_prev b x (set_next (h.prev b) x (set_prev x (h.prev b) (set_next x b h))))
        a
        (xs ++ x ∷ [])
        b
appended-Links h a [] b x (n, p) da db oa ob = (
  rw p (update_eq (update h.next x b) a x),
  update_ne (update h.prev x (h.prev b)) b x x (ground (arith, ob))
      ∙ update_eq h.prev x (h.prev b)
      ∙ p,
  (
    update_ne (update h.next x b) (h.prev b) x x (ground (arith, p, oa)) ∙ update_eq h.next x b,
    update_eq (update h.prev x (h.prev b)) b x,
  ),
)
appended-Links h a (z ∷ ys) b x (n, p, ls) da db oa ob = (
  update_ne (update h.next x b) (h.prev b) x a
        (ne_of (h.prev b) a (z ∷ ys) (last_in h z ys b ls) (zero_head a (z ∷ ys) da))
      ∙ update_ne h.next x b a (apart x a (z ∷ ys) oa).0
      ∙ n,
  update_ne (update h.prev x (h.prev b)) b x z (ground (arith, db b))
      ∙ update_ne h.prev x (h.prev b) z (apart x z ys (apart x b (z ∷ ys) ob).1).0
      ∙ p,
  appended-Links h z ys b x ls (Distinct-rest a z ys da) (Distinct-skip b z ys db)
      (apart x a (z ∷ ys) oa).1 (skipped x b z ys ob),
)
