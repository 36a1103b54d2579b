-- ===== src/IntrusiveList/Calls.antt =====
-- Histories of a list and its items, on the pointers and on the list of items (IntrusiveList.h).
use hf_qcorral.Prelude.{
  ℕ, zero, suc, ◌≤◌, ◌≡◌, refl, sym, subst, inl, inr, Bool, true, false, not, ◌&&◌, Bool-cases,
  List, [], ◌∷◌, ◌++◌, arith, length, ◌==◌, if◌then◌else◌, occurrences,
}
use hf_qcorral.Nursery.{erase}
use hf_qcorral.IntrusiveList.{
  Heap, unlink, make, is_empty, contains_one_item, pop_front, push_back, clear, items, items_from,
}
use hf_qcorral.IntrusiveList.Links.{Links, apart, zero_head}
use hf_qcorral.IntrusiveList.Refine.{IsList, unlink-IsList, push_back-IsList, erase_head}

-- A heap in which nothing is linked.
abbrev pub unlinked : Heap
unlinked = record { next = λ x. 0; prev = λ x. 0 }

-- A call on the list, or of `unlink` of an item.
pub data Call : Type 0 where
  push unlink_item : ℕ → Call
  pop : Call

-- The list of items, and the same calls on it.
abbrev pub tail : List ℕ → List ℕ
tail [] = []
tail (x ∷ xs) = xs

abbrev pub is_nil : List ℕ → Bool
is_nil [] = true
is_nil (x ∷ xs) = false

-- An item is not the list itself and not null. `pop_front` asks for an item.
abbrev pub is_item : ℕ → ℕ → Bool
is_item l x = not (l == x) && not (x == 0)

unfoldable pub call_list : ℕ → List ℕ → Call → List ℕ
call_list l xs (push x) = if is_item l x then erase x xs ++ x ∷ [] else xs
call_list l xs (unlink_item x) = if is_item l x then erase x xs else xs
call_list l xs pop = tail xs

unfoldable pub call_heap : ℕ → Heap → Call → Heap
call_heap l h (push x) = if is_item l x then push_back l x h else h
call_heap l h (unlink_item x) = if is_item l x then unlink x h else h
call_heap l h pop = if is_empty l h then h else pop_front l h

unfoldable pub run_list : ℕ → List ℕ → List Call → List ℕ
unfolding call_list
run_list l xs [] = xs
run_list l xs (c ∷ cs) = run_list l (call_list l xs c) cs

unfoldable pub run_heap : ℕ → Heap → List Call → Heap
unfolding call_heap
run_heap l h [] = h
run_heap l h (c ∷ cs) = run_heap l (call_heap l h c) cs

pub is_empty-IsList : (h : Heap) (l : ℕ) (xs : List ℕ) → IsList h l xs → is_empty l h ≡ is_nil xs
unfolding is_empty
is_empty-IsList h l [] s = ground (arith, s.links.0)
is_empty-IsList h l (x ∷ xs) s = ground (arith, s.links.0, s.distinct x)

pop_front-IsList :
    (h : Heap) (l x : ℕ) (xs : List ℕ) → IsList h l (x ∷ xs) → IsList (pop_front l h) l xs
unfolding pop_front
pop_front-IsList h l x xs s =
    subst (λ ys. IsList (unlink (h.next l) h) l ys) (erase_head x xs)
      (subst (λ y. IsList (unlink y h) l (erase x (x ∷ xs))) (sym s.links.0)
        (unlink-IsList h l (x ∷ xs) x s (ground (arith, s.distinct x))))

pop-IsList :
    (h : Heap) (l : ℕ) (xs : List ℕ) → IsList h l xs → IsList (call_heap l h pop) l (tail xs)
unfolding call_heap
pop-IsList h l [] s = rw (is_empty-IsList h l [] s) s
pop-IsList h l (x ∷ xs) s = rw (is_empty-IsList h l (x ∷ xs) s) (pop_front-IsList h l x xs s)

call-IsList :
    (h : Heap) (l : ℕ) (xs : List ℕ) (c : Call)
    → IsList h l xs
    → IsList (call_heap l h c) l (call_list l xs c)
unfolding call_heap call_list
call-IsList h l xs (push x) s = elim (Bool-cases (is_item l x)) [
  | inl e ↦ rw e (push_back-IsList h l xs x s (ground (arith, e)) (ground (arith, e)))
  | inr e ↦ rw e s
]
call-IsList h l xs (unlink_item x) s = elim (Bool-cases (is_item l x)) [
  | inl e ↦ rw e (unlink-IsList h l xs x s (ground (arith, e)))
  | inr e ↦ rw e s
]
call-IsList h l xs pop s = pop-IsList h l xs s

pub run-IsList :
    (h : Heap) (l : ℕ) (xs : List ℕ) (cs : List Call)
    → IsList h l xs
    → IsList (run_heap l h cs) l (run_list l xs cs)
unfolding run_heap run_list
run-IsList h l xs [] s = s
run-IsList h l xs (c ∷ cs) s =
    run-IsList (call_heap l h c) l (call_list l xs c) cs (call-IsList h l xs c s)

items_from-Links :
    (h : Heap) (a : ℕ) (xs : List ℕ) (l : ℕ)
    → Links h a xs l
    → occurrences l xs ≡ 0
    → items_from (length xs) (h.next a) l h ≡ (xs, true)
unfolding items_from
items_from-Links h a [] l (n, p) o = rw n (ground arith)
items_from-Links h a (x ∷ xs) l (n, p, ls) o =
    let (e, rest) = apart l x xs o in rw (n, e, items_from-Links h x xs l ls rest) refl

contains_one-IsList :
    (h : Heap) (l : ℕ) (xs : List ℕ) → IsList h l xs → contains_one_item l h ≡ (length xs == 1)
unfolding contains_one_item
contains_one-IsList h l [] s = rw (is_empty-IsList h l [] s) refl
contains_one-IsList h l (x ∷ []) s =
    rw (is_empty-IsList h l (x ∷ []) s, s.links.0, s.links.2.0) (ground arith)
contains_one-IsList h l (x ∷ y ∷ ys) s =
    rw (is_empty-IsList h l (x ∷ y ∷ ys) s, s.links.0, s.links.2.0) (ground (arith, s.distinct l))

clear-IsList :
    (n : ℕ) (h : Heap) (l : ℕ) (xs : List ℕ)
    → length xs ≤ n
    → IsList h l xs
    → IsList (clear n l h) l []
unfolding clear pop_front
clear-IsList zero h l [] e s = s
clear-IsList zero h l (x ∷ xs) e s = absurd (omega (arith, e))
clear-IsList (suc n) h l [] e s = rw (is_empty-IsList h l [] s) s
clear-IsList (suc n) h l (x ∷ xs) e s =
    rw (is_empty-IsList h l (x ∷ xs) s)
      (clear-IsList n (pop_front l h) l xs (omega (arith, e)) (pop_front-IsList h l x xs s))

make-IsList : (l : ℕ) → (l == 0) ≡ false → IsList (make l unlinked) l []
unfolding make
make-IsList l e = record {
  links = (ground arith, ground arith);
  distinct = λ v. ground arith;
  no_null = ground (arith, e);
  others = λ v z. ground (arith, z);
}

-- The pointers of a list do what the clients rely on: after any calls of `push_back`, `pop_front`
-- and `unlink` on a new list, going from `begin` to `end` meets exactly the items that the calls
-- leave (an item that is pushed goes to the end, and leaves its former place; an unlinked one is
-- taken out, wherever it stands; any other keeps its place), once each and in this order, and ends;
-- and `empty` and `contains_one_item` tell what they say.
pub run-items :
    (l : ℕ) (cs : List Call)
    → (l == 0) ≡ false
    → let h = run_heap l (make l unlinked) cs in
      let xs = run_list l [] cs in
      (items (length xs) l h ≡ (xs, true))
      × (is_empty l h ≡ is_nil xs)
      × (contains_one_item l h ≡ (length xs == 1))
unfolding items
run-items l cs e =
    let h = run_heap l (make l unlinked) cs in
    let xs = run_list l [] cs in
    let s = run-IsList (make l unlinked) l [] cs (make-IsList l e) in
    (
      items_from-Links h l xs l s.links (zero_head l xs s.distinct),
      is_empty-IsList h l xs s,
      contains_one-IsList h l xs s,
    )

-- The loop of `clear` ends, whatever calls were made before: with as many rounds as there are items,
-- or more, the list is empty and no other address is linked.
pub run-clear :
    (l : ℕ) (cs : List Call) (n v : ℕ)
    → (l == 0) ≡ false
    → length (run_list l [] cs) ≤ n
    → (l == v) ≡ false
    → let h = clear n l (run_heap l (make l unlinked) cs) in (is_empty l h ≡ true) × (h.next v ≡ 0)
run-clear l cs n v e m o =
    let h = run_heap l (make l unlinked) cs in
    let xs = run_list l [] cs in
    let s = clear-IsList n h l xs m (run-IsList (make l unlinked) l [] cs (make-IsList l e)) in
    (is_empty-IsList (clear n l h) l [] s, s.others v (ground (arith, o)))
