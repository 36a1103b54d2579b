-- ===== src/IntrusiveList.antt =====
-- corral/corral/detail/IntrusiveList.h: doubly linked lists through their items. An item or a list
-- is its address, 0 is nullptr, and the heap is what every address holds in `next_` and `prev_`.
pub mod Links
pub mod Refine
pub mod Calls
mod Tests
use hf_qcorral.Prelude.{
  ℕ, zero, suc, Bool, true, false, not, ◌&&◌, Option, none, some, List, [], ◌∷◌, ◌==◌,
  if◌then◌else◌,
}

pub record Heap : Type 0 where
  pub next : ℕ → ℕ
  pub prev : ℕ → ℕ

abbrev pub update : (ℕ → ℕ) → ℕ → ℕ → ℕ → ℕ
update f a v x = if x == a then v else f x

abbrev pub set_next : ℕ → ℕ → Heap → Heap
set_next a v h = record h { next = update h.next a v }

abbrev pub set_prev : ℕ → ℕ → Heap → Heap
set_prev a v h = record h { prev = update h.prev a v }

-- `IntrusiveListItem::unlink`.
unfoldable pub unlink : ℕ → Heap → Heap
unlink i h =
    let h' =
      if not (h.next i == 0) && not (h.prev i == 0)
      then set_next (h.prev i) (h.next i) (set_prev (h.next i) (h.prev i) h)
      else h in
    set_next i 0 (set_prev i 0 h')

-- The constructor of an empty list.
unfoldable pub make : ℕ → Heap → Heap
make l h = set_next l l (set_prev l l h)

unfoldable pub is_empty : ℕ → Heap → Bool
is_empty l h = h.next l == l

unfoldable pub contains_one_item : ℕ → Heap → Bool
unfolding is_empty
contains_one_item l h = not (is_empty l h) && (h.next (h.next l) == l)

unfoldable pub front : ℕ → Heap → ℕ
front l h = h.next l

unfoldable pub pop_front : ℕ → Heap → Heap
unfolding unlink
pop_front l h = unlink (h.next l) h

-- `push_back` after its `unlink`.
unfoldable pub link_last : ℕ → ℕ → Heap → Heap
link_last l i h =
    let h' = set_prev i (h.prev l) (set_next i l h) in set_prev l i (set_next (h'.prev l) i h')

unfoldable pub push_back : ℕ → ℕ → Heap → Heap
unfolding unlink link_last
push_back l i h = link_last l i (unlink i h)

-- `clear`, for so many rounds of its loop.
unfoldable pub clear : ℕ → ℕ → Heap → Heap
unfolding is_empty unlink
clear zero l h = h
clear (suc fuel) l h =
    let rest = clear fuel l (unlink (h.next l) h) in if is_empty l h then h else rest

-- From `begin` to `end`, for so many steps of the iterator: the items, and whether it got to the end.
unfoldable pub items_from : ℕ → ℕ → ℕ → Heap → List ℕ × Bool
items_from zero i l h = ([], i == l)
items_from (suc fuel) i l h =
    let (is, ended) = items_from fuel (h.next i) l h in
    if i == l then ([], true) else (i ∷ is, ended)

unfoldable pub items : ℕ → ℕ → Heap → List ℕ × Bool
unfolding items_from
items fuel l h = items_from fuel (h.next l) l h
