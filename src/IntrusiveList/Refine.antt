-- ===== src/IntrusiveList/Refine.antt =====
-- The pointers stand for a list without duplicates, as the clients of IntrusiveList.h see it.
use hf_qcorral.Prelude.{
  ℕ, ◌≤◌, ◌≡◌, refl, sym, ap, subst, ◌∙◌, inl, inr, Bool, true, false, Bool-cases, List, [], ◌∷◌,
  ◌++◌, arith, ◌==◌, ltb, occurrences, occurrences-append,
}
use hf_qcorral.Nursery.{erase}
use hf_qcorral.Nursery.Fate.{occurrences-erase}
use hf_qcorral.IntrusiveList.{Heap, update, set_next, set_prev, unlink, link_last, push_back}
use hf_qcorral.IntrusiveList.Links.{
  Links, Distinct, update_ne, apart, ne_of, last_in, set_next-Links, set_prev-Links, neighbours,
  unlinked-Links, appended-Links,
}

-- The list at `l` holds `xs`; what is not in it is not linked.
pub record IsList (h : Heap) (l : ℕ) (xs : List ℕ) : Type 0 where
  pub links : Links h l xs l
  pub distinct : Distinct (l ∷ xs)
  pub no_null : occurrences 0 (l ∷ xs) ≡ 0
  pub others : (v : ℕ) → occurrences v (l ∷ xs) ≡ 0 → h.next v ≡ 0

abbrev is_null : ℕ → Bool
is_null a = a == 0

not_null : (v : ℕ) (xs : List ℕ) → 1 ≤ occurrences v xs → occurrences 0 xs ≡ 0 → (v == 0) ≡ false
not_null v xs o z = elim (Bool-cases (v == 0)) [
  | inl e ↦
      let same : v ≡ 0 = ground (arith, e) in
      absurd (omega (arith, o, ap (λ u. occurrences u xs) same, z))
  | inr e ↦ e
]

is_member : (x : ℕ) (xs : List ℕ) → 1 ≤ occurrences x xs → ltb 0 (occurrences x xs) ≡ true
is_member x xs o = ground (arith, o)

-- What unlinking does to an item of the list, and to another.
unlink_member :
    (h : Heap) (l : ℕ) (xs : List ℕ) (x : ℕ)
    → IsList h l xs
    → 1 ≤ occurrences x xs
    → IsList
        (set_next x 0
          (set_prev x 0 (set_next (h.prev x) (h.next x) (set_prev (h.next x) (h.prev x) h))))
        l
        (erase x xs)
unlink_member h l xs x s o =
    let split = λ (v : ℕ). occurrences-erase v x xs (is_member x xs o) in
    let (q, r) = neighbours h l xs l x s.links o in
    let linked : Links (set_next (h.prev x) (h.next x) (set_prev (h.next x) (h.prev x) h)) l
        (erase x xs) l =
      unlinked-Links h l xs l x s.links s.distinct s.distinct o in
    let out : occurrences x (l ∷ erase x xs) ≡ 0 = ground (arith, split x, s.distinct x, o) in
    let apart_from : (v : ℕ)
        → occurrences v (l ∷ erase x xs) ≡ 0
        → (v == x) ≡ false
        → occurrences v (l ∷ xs) ≡ 0 =
      λ v z e. ground (arith, split v, z, e) in
    let free = set_next (h.prev x) (h.next x) (set_prev (h.next x) (h.prev x) h) in
    record {
      links =
          set_next-Links (set_prev x 0 free) l (erase x xs) l x 0 out
            (set_prev-Links free l (erase x xs) l x 0 out linked);
      distinct = λ v. omega (arith, split v, s.distinct v);
      no_null = omega (arith, split 0, s.no_null);
      others = λ v z. elim (Bool-cases (v == x)) [
        | inl e ↦ rw e refl
        | inr e ↦
            let gone = apart_from v z e in
            update_ne (update h.next (h.prev x) (h.next x)) x 0 v e
            ∙ update_ne h.next (h.prev x) (h.next x) v (ne_of (h.prev x) v (l ∷ xs) q gone)
            ∙ s.others v gone
      ];
    }

erase_none : (x : ℕ) (xs : List ℕ) → occurrences x xs ≡ 0 → erase x xs ≡ xs
unfolding erase
erase_none x [] z = refl
erase_none x (y ∷ ys) z = let (e, rest) = apart x y ys z in rw e (ap (◌∷◌ y) (erase_none x ys rest))

unlink_other :
    (h : Heap) (l : ℕ) (xs : List ℕ) (x : ℕ)
    → IsList h l xs
    → occurrences x (l ∷ xs) ≡ 0
    → IsList (set_next x 0 (set_prev x 0 h)) l xs
unlink_other h l xs x s o = record {
  links = set_next-Links (set_prev x 0 h) l xs l x 0 o (set_prev-Links h l xs l x 0 o s.links);
  distinct = s.distinct;
  no_null = s.no_null;
  others = λ v z. elim (Bool-cases (v == x)) [
    | inl e ↦ rw e refl
    | inr e ↦ update_ne h.next x 0 v e ∙ s.others v z
  ];
}

pub unlink-IsList :
    (h : Heap) (l : ℕ) (xs : List ℕ) (x : ℕ)
    → IsList h l xs
    → (l == x) ≡ false
    → IsList (unlink x h) l (erase x xs)
unfolding unlink
unlink-IsList h l xs x s e = elim (Bool-cases (ltb 0 (occurrences x xs))) [
  | inl v ↦
      let o : 1 ≤ occurrences x xs = ground (arith, v) in
      let (q, r) = neighbours h l xs l x s.links o in
      rw (not_null (h.next x) (l ∷ xs) r s.no_null, not_null (h.prev x) (l ∷ xs) q s.no_null)
        (unlink_member h l xs x s o)
  | inr v ↦
      let o : occurrences x (l ∷ xs) ≡ 0 = ground (arith, v, e) in
      let none_here : occurrences x xs ≡ 0 = ground (arith, v) in
      rw (erase_none x xs none_here, s.others x o) (unlink_other h l xs x s o)
]

link_last-IsList :
    (h : Heap) (l : ℕ) (xs : List ℕ) (x : ℕ)
    → IsList h l xs
    → occurrences x (l ∷ xs) ≡ 0
    → (x == 0) ≡ false
    → IsList (link_last l x h) l (xs ++ x ∷ [])
unfolding link_last
link_last-IsList h l xs x s o n =
    let h' = set_prev x (h.prev l) (set_next x l h) in
    let away : (l == x) ≡ false = (apart x l xs o).0 in
    let same : h'.prev l ≡ h.prev l = update_ne h.prev x (h.prev l) l away in
    let all = λ (v : ℕ). occurrences-append v (x ∷ []) xs in
    record {
      links =
          subst (λ p. Links (set_prev l x (set_next p x h')) l (xs ++ x ∷ []) l) (sym same)
            (appended-Links h l xs l x s.links s.distinct s.distinct o o);
      distinct = λ v. elim (Bool-cases (x == v)) [
        | inl e ↦
            let one : x ≡ v = ground (arith, e) in
            let absent : occurrences v (l ∷ xs) ≡ 0 =
              ap (λ u. occurrences u (l ∷ xs)) (sym one) ∙ o in
            ground (arith, all v, absent, e)
        | inr e ↦ ground (arith, all v, s.distinct v, e)
      ];
      no_null = ground (arith, all 0, s.no_null, n);
      others = λ v z.
          let gone : occurrences v (l ∷ xs) ≡ 0 = ground (arith, all v, z) in
          let other : (v == x) ≡ false = ground (arith, all v, z) in
          let near_last = ne_of (h.prev l) v (l ∷ xs) (last_in h l xs l s.links) gone in
          subst (λ p. update (update h.next x l) p x v ≡ 0) (sym same)
            (update_ne (update h.next x l) (h.prev l) x v near_last
              ∙ update_ne h.next x l v other
              ∙ s.others v gone);
    }

erased :
    (l : ℕ) (xs : List ℕ) (x : ℕ)
    → Distinct (l ∷ xs)
    → (l == x) ≡ false
    → occurrences x (l ∷ erase x xs) ≡ 0
erased l xs x d e = elim (Bool-cases (ltb 0 (occurrences x xs))) [
  | inl v ↦ ground (arith, occurrences-erase x x xs v, d x, e)
  | inr v ↦
      let z : occurrences x xs ≡ 0 = ground (arith, v) in
      rw (erase_none x xs z) (ground (arith, z, e))
]

pub push_back-IsList :
    (h : Heap) (l : ℕ) (xs : List ℕ) (x : ℕ)
    → IsList h l xs
    → (l == x) ≡ false
    → (x == 0) ≡ false
    → IsList (push_back l x h) l (erase x xs ++ x ∷ [])
unfolding push_back
push_back-IsList h l xs x s e n =
    link_last-IsList (unlink x h) l (erase x xs) x (unlink-IsList h l xs x s e)
      (erased l xs x s.distinct e) n

pub erase_head : (x : ℕ) (xs : List ℕ) → erase x (x ∷ xs) ≡ xs
unfolding erase
erase_head x xs = ground arith
