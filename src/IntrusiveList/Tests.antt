-- ===== src/IntrusiveList/Tests.antt =====
-- A list at the address 1, and items at other addresses.
use hf_qcorral.Prelude.{◌≡◌, refl, true, List, [], ◌∷◌, length, ◌==◌}
use hf_qcorral.Nursery.{erase}
use hf_qcorral.IntrusiveList.{make, is_empty, contains_one_item, items}
use hf_qcorral.IntrusiveList.Calls.{
  Call, push, pop, unlink_item, run_list, run_heap, unlinked, is_nil, run-items,
}

abbrev calls : List Call
calls = push 5 ∷ push 6 ∷ push 7 ∷ push 5 ∷ unlink_item 7 ∷ unlink_item 9 ∷ pop ∷ push 8 ∷ []

items_left : run_list 1 [] calls ≡ 5 ∷ 8 ∷ []
unfolding run_list erase
items_left = refl

run-items_example :
    let h = run_heap 1 (make 1 unlinked) calls in
    let xs = run_list 1 [] calls in
    (items (length xs) 1 h ≡ (xs, true))
    × (is_empty 1 h ≡ is_nil xs)
    × (contains_one_item 1 h ≡ (length xs == 1))
run-items_example = run-items 1 calls refl
