-- ===== src/Value/Tests.antt =====
-- A value with a waiter for 3 and one for any change.
use hf_qcorral.Prelude.{ℕ, ◌≡◌, inl, inr, [], ◌∷◌, ◌==◌}
use hf_qcorral.Value.{Waiter, Value, until_equals, until_any_change, set}
use hf_qcorral.Value.Transitions.{Distinct, refusing, accepting, set_lem}

abbrev for_three : Waiter ℕ
for_three = record { item = 1; handle = 10; awaited = until_equals (λ a b. a == b) 3 }

abbrev for_any : Waiter ℕ
for_any = record { item = 2; handle = 20; awaited = until_any_change (λ a b. a == b) }

abbrev zero_awaited : Value ℕ
zero_awaited = record { value = 0; parked = for_three ∷ for_any ∷ [] }

zero_awaited-Distinct : Distinct zero_awaited.parked
zero_awaited-Distinct = ((λ l. elim l [ inl e ↦ cc | inr m ↦ m ]), ((λ l. l), tt))

set_lem_example : set 3 zero_awaited ≡ (
  record { value = 3; parked = refusing 0 3 zero_awaited.parked },
  accepting 0 3 zero_awaited.parked,
)
set_lem_example = set_lem 3 zero_awaited zero_awaited-Distinct
