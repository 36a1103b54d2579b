-- ===== src/Event/Level.antt =====
-- Who waits for an event, before and after it happens (Event.h).
use hf_qcorral.Prelude.{
  ℕ, ◌≡◌, refl, ap, true, false, Bool-cases, ◌⊎◌, inl, inr, List, [], ◌∷◌, ◌++◌, arith,
}
use hf_qcorral.ParkingLot.{unlink, await_cancel}
use hf_qcorral.ParkingLot.{unpark_all}
use hf_qcorral.ParkingLot.Order.{handles, unpark_all-handles}
use hf_qcorral.Event.{Event, trigger, triggered, await_event, cancel}

pub data Call : Type 0 where
  await : ℕ → ℕ → Call
  abandon : ℕ → Call
  fire : Call

-- The event after a call, and the handles that go on.
pub step : Event → Call → Event × List ℕ
step e (await i h) = await_event i h e
step e (abandon i) = (cancel i e, [])
step e fire = trigger e

pub run : Event → List Call → Event × List ℕ
run e [] = (e, [])
run e (c ∷ cs) = let (e', hs) = step e c in let (e'', hs') = run e' cs in (e'', hs ++ hs')

abbrev pub IsSettled : Event → Type 0
IsSettled e = (e.is_triggered ≡ false) ⊎ (e.parked ≡ [])

settled : (e : Event) → e.is_triggered ≡ true → IsSettled e → e.parked ≡ []
settled e t (inl n) = cc
settled e t (inr p) = p

step-IsSettled : (e : Event) (c : Call) → IsSettled e → IsSettled (step e c).0
unfolding step await_event trigger cancel unpark_all await_cancel unlink
step-IsSettled e (await i h) s = elim (Bool-cases e.is_triggered) [
  | inl t ↦ rw t (inr (settled e t s))
  | inr t ↦ rw t (inl refl)
]
step-IsSettled e (abandon i) (inl t) = inl t
step-IsSettled e (abandon i) (inr t) = inr (rw t refl)
step-IsSettled e fire s = inr refl

-- After any history, nobody is parked on an event that has been triggered.
pub run-IsSettled : (e : Event) (cs : List Call) → IsSettled e → IsSettled (run e cs).0
unfolding run
run-IsSettled e [] s = s
run-IsSettled e (c ∷ cs) s = run-IsSettled (step e c).0 cs (step-IsSettled e c s)

step-triggered : (e : Event) (c : Call) → triggered e ≡ true → triggered (step e c).0 ≡ true
unfolding step await_event trigger cancel
step-triggered e (await i h) t = ground arith
step-triggered e (abandon i) t = t
step-triggered e fire t = refl

run-triggered : (e : Event) (cs : List Call) → triggered e ≡ true → triggered (run e cs).0 ≡ true
unfolding run
run-triggered e [] t = t
run-triggered e (c ∷ cs) t = run-triggered (step e c).0 cs (step-triggered e c t)

trigger-triggered : (e : Event) → triggered (trigger e).0 ≡ true
unfolding trigger
trigger-triggered e = refl

trigger-handles : (e : Event) → (trigger e).1 ≡ handles e.parked
unfolding trigger
trigger-handles e = ap (λ r. r.1) (unpark_all-handles e.parked)

trigger-IsSettled : (e : Event) → IsSettled (trigger e).0
unfolding trigger unpark_all
trigger-IsSettled e = inr refl

-- `trigger()` wakes every parked task, in the order in which they parked; and whatever comes after
-- it, a task that awaits the event goes on at once and is not parked.
pub trigger_wakes :
    (e : Event) (cs : List Call) (i h : ℕ)
    → let (e', hs) = trigger e in
      let later = (run e' cs).0 in
      (hs ≡ handles e.parked) × (await_event i h later ≡ (later, h ∷ [])) × (later.parked ≡ [])
unfolding await_event
trigger_wakes e cs i h =
    let fired = run-triggered (trigger e).0 cs (trigger-triggered e) in
    (
      trigger-handles e,
      rw fired,
      settled (run (trigger e).0 cs).0 fired (run-IsSettled (trigger e).0 cs (trigger-IsSettled e)),
    )
