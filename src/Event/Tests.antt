-- ===== src/Event/Tests.antt =====
-- An event with two tasks that await it before it happens and one after.
use hf_qcorral.Prelude.{◌≡◌, refl, false, inr, List, [], ◌∷◌}
use hf_qcorral.ParkingLot.Order.{handles}
use hf_qcorral.Event.{Event, make, trigger, await_event}
use hf_qcorral.Event.Level.{Call, await, abandon, fire, run, IsSettled, trigger_wakes}

abbrev calls : List Call
calls = await 1 10 ∷ await 2 20 ∷ abandon 1 ∷ fire ∷ await 3 30 ∷ []

make-IsSettled : IsSettled make
unfolding make
make-IsSettled = inr refl

abbrev awaited : Event
awaited = record { is_triggered = false; parked = record { item = 1; handle = 10 } ∷ [] }

trigger_wakes_example :
    let (e', hs) = trigger awaited in
    let later = (run e' calls).0 in
    (hs ≡ handles awaited.parked)
    × (await_event 4 40 later ≡ (later, 40 ∷ []))
    × (later.parked ≡ [])
trigger_wakes_example = trigger_wakes awaited calls 4 40
