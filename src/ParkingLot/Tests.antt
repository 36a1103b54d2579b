-- ===== src/ParkingLot/Tests.antt =====
-- A parking lot with three tasks.
use hf_qcorral.Prelude.{inl, inr, List, [], ◌∷◌}
use hf_qcorral.ParkingLot.Order.{
  Log, Call, suspend, cancel, wake_one, run, nil, InOrder, run-InOrder,
}
use hf_qcorral.ParkingLot.Linked.{Distinct}

abbrev fresh : Log
fresh = record { parked = []; suspended = []; resumed = [] }

abbrev calls : List Call
calls = suspend 1 10 ∷ suspend 2 20 ∷ suspend 3 30 ∷ cancel 2 ∷ wake_one ∷ []

run-InOrder_example : InOrder (run fresh calls)
run-InOrder_example = run-InOrder fresh calls nil

abbrev two_parked : Log
two_parked = record {
  parked = record { item = 1; handle = 10 } ∷ record { item = 2; handle = 20 } ∷ [];
  suspended = 10 ∷ 20 ∷ [];
  resumed = [];
}

two_parked-Distinct : Distinct two_parked.parked
two_parked-Distinct = ((λ l. elim l [ inl e ↦ cc | inr m ↦ m ]), ((λ l. l), tt))
