-- ===== src/CbPortal/Tests.antt =====
-- Runs of portals (CBPortal.h).
use hf_qcorral.Prelude.{◌≡◌, refl, true, false, ◌&&◌, ◌||◌, List, [], ◌∷◌, ◌++◌}
use hf_qcorral.CbPortal.{Action, calls, requests, awaits, listed, make, acts, initiate}
use hf_qcorral.CbPortal.Delivery.{called, has_fault}
use hf_qcorral.CbPortal.Pace.{waiting, keeps_up, portal_delivers}
use hf_qcorral.CbPortal.Held.{first_call, is_asked}
use hf_qcorral.CbPortal.Cancel.{begun, AfterInitiate, initiate_outcome}

-- The example of the documentation: two calls in the initiate function.
abbrev example : List Action
example = calls 1 ∷ calls 3 ∷ []

abbrev afterwards : List Action
afterwards = awaits ∷ awaits ∷ calls 4 ∷ []

example_received : (acts afterwards (initiate example (make true false))).received ≡ 1 ∷ 3 ∷ 4 ∷ []
unfolding acts initiate make
example_received = refl

-- A request that comes while the task is at work cancels its next await.
asked_received :
    (acts (requests ∷ calls 1 ∷ awaits ∷ calls 2 ∷ []) (initiate [] (make false false))).received
    ≡ 1 ∷ []
unfolding acts initiate make
asked_received = refl

portal_delivers_example :
    let s = acts afterwards (initiate example (make true false)) in
    (has_fault s ≡ false → s.received ++ listed s.portal.value ≡ called (example ++ afterwards))
    × (keeps_up waiting (example ++ afterwards) ≡ true → has_fault s ≡ false)
portal_delivers_example = portal_delivers true false example afterwards

initiate_outcome_example :
    AfterInitiate false true
      ((false && false) || is_asked (requests ∷ []))
      (first_call (requests ∷ []))
      (initiate (requests ∷ []) (begun false true false))
initiate_outcome_example = initiate_outcome false true false (requests ∷ [])
