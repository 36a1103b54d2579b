-- ===== src/Shared/Outcome.antt =====
-- What a shared operation yields, and how it is cancelled (Shared.h).
use hf_qcorral.Prelude.{ℕ, ◌≡◌, refl, ap, ◌∙◌, Bool, true, false, if_cases, List, [], ◌∷◌, arith}
use hf_qcorral.ParkingLot.{Lot, unlink}
use hf_qcorral.Shared.{
  Result, cancelled, value, exception, State, ready, early_cancel, invoke, wake, delivered, result,
  drop_parent, cancel,
}
use hf_qcorral.Shared.History.{
  Call, join, skip, complete, wake_next, leave, Log, step, run, parents-invoke,
}

-- A state that will not change: nobody waits, and the result is there or will never be.
abbrev pub is_settled : Result → Bool
is_settled r = elim r [ value v ↦ true | exception ex ↦ true | cancelled ↦ true | _ ↦ false ]

abbrev pub IsOver : Result → State → Type 0
IsOver r s = (s.result ≡ r) × (s.parents ≡ [])

settled_ready : (s : State) → is_settled s.result ≡ true → ready s ≡ true
unfolding ready
settled_ready s e = ground arith

settled_result :
    (s : State)
    → is_settled s.result ≡ true
    → ((result s).0.result ≡ s.result)
      × ((result s).0.parents ≡ s.parents)
      × ((result s).1 ≡ delivered s.result)
unfolding result
settled_result s e = (ground arith, ground arith, ground arith)

settled_early : (s : State) → is_settled s.result ≡ true → (early_cancel s).0 ≡ s
unfolding early_cancel
settled_early s e = ground arith

settled_invoke : (s : State) → is_settled s.result ≡ true → (invoke s).result ≡ s.result
unfolding invoke
settled_invoke s e = ground arith

settled_cancel : (i : ℕ) (s : State) → s.parents ≡ [] → (cancel i s).0 ≡ drop_parent i s
unfolding cancel
settled_cancel i s n = simp (n, cancel) refl

settled_wake :
    (s : State) (ps : Lot)
    → s.waking ≡ ps
    → ((wake s).0.result ≡ s.result) × ((wake s).0.parents ≡ s.parents)
unfolding wake
settled_wake s [] e = simp (e, wake) (refl, refl)
settled_wake s (p ∷ ps) e = simp (e, wake) (refl, refl)

unlink_none : (i : ℕ) (ps : Lot) → ps ≡ [] → unlink i ps ≡ []
unfolding unlink
unlink_none i ps e = rw e refl

step-IsOver :
    (r : Result) (l : Log) (c : Call)
    → is_settled r ≡ true
    → IsOver r l.state
    → IsOver r (step l c).state
unfolding step
step-IsOver r l (join i h) e v =
    let settled : is_settled l.state.result ≡ true = rw v.0 e in
    let (same, kept, _) = settled_result l.state settled in
    if_cases (λ (k : Log). IsOver r k.state) (ready l.state) _ _ (λ _. (same ∙ v.0, kept ∙ v.1))
      (λ n. cc (settled_ready l.state settled, n))
step-IsOver r l skip e v = simp (settled_early l.state (rw v.0 e)) v
step-IsOver r l complete e v = (settled_invoke l.state (rw v.0 e) ∙ v.0, parents-invoke l.state)
step-IsOver r l wake_next e v =
    let (same, kept) = settled_wake l.state l.state.waking refl in (same ∙ v.0, kept ∙ v.1)
step-IsOver r l (leave i) e v =
    simp (settled_cancel i l.state v.1) (v.0, unlink_none i l.state.parents v.1)

run-IsOver :
    (r : Result) (l : Log) (cs : List Call)
    → is_settled r ≡ true
    → IsOver r l.state
    → IsOver r (run l cs).state
unfolding run
run-IsOver r l [] e v = v
run-IsOver r l (c ∷ cs) e v = run-IsOver r (step l c) cs e (step-IsOver r l c e v)

-- Once there is a result, or the operation was cancelled, and nobody waits, no history changes
-- that: whoever arrives later gets the same value, exception or error, without waiting.
pub run-delivered :
    (l : Log) (cs : List Call)
    → is_settled l.state.result ≡ true
    → l.state.parents ≡ []
    → let later = (run l cs).state in
      (ready later ≡ true) × ((result later).1 ≡ delivered l.state.result) × (later.parents ≡ [])
run-delivered l cs e n =
    let later = (run l cs).state in
    let (same, none_left) = run-IsOver l.state.result l cs e (refl, n) in
    let settled : is_settled later.result ≡ true = rw same e in
    (settled_ready later settled, (settled_result later settled).2 ∙ ap delivered same, none_left)
