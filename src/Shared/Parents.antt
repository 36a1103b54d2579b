-- ===== src/Shared/Parents.antt =====
-- What becomes of the parents of a shared operation (Shared.h).
use hf_qcorral.Prelude.{
  ℕ, ◌+◌, ◌≤◌, ◌≡◌, refl, ap, ◌∙◌, not, ◌||◌, ◌⊎◌, inl, inr, if_cases, List, [], ◌∷◌, ◌++◌,
  append-nil, append_assoc, arith, length, replicate, ◌==◌, if◌then◌else◌, occurrences,
  occurrences-append,
}
use hf_qcorral.Awaitable.{OnSuspend, keeps, resumes, throws, OnCancel, confirms, defers, completes}
use hf_qcorral.ParkingLot.{Parked, Lot, unlink}
use hf_qcorral.ParkingLot.Order.{handles}
use hf_qcorral.Shared.{
  cancelling, exception, State, ready, is_none, early_cancel, invoke, wake, start, suspend, result,
  forward_cancel, drop_parent, cancel,
}
use hf_qcorral.Shared.History.{
  Call, join, skip, complete, wake_next, leave, Log, step, run, parents-invoke,
}

-- How many of the waiting parents have the handle `h`.
abbrev pub waiting : ℕ → State → ℕ
waiting h s = occurrences h (handles s.parents) + occurrences h (handles s.waking)

occurrences-unlink-le :
    (h i : ℕ) (ps : Lot) → occurrences h (handles (unlink i ps)) ≤ occurrences h (handles ps)
unfolding unlink
occurrences-unlink-le h i [] = omega arith
occurrences-unlink-le h i (p ∷ ps) = ground (arith, occurrences-unlink-le h i ps)

occurrences-handles-append :
    (h : ℕ) (ps qs : Lot)
    → occurrences h (handles (ps ++ qs)) ≡ occurrences h (handles ps) + occurrences h (handles qs)
occurrences-handles-append h [] qs = omega arith
occurrences-handles-append h (p ∷ ps) qs = omega (arith, occurrences-handles-append h ps qs)

waking-invoke : (s : State) → (invoke s).waking ≡ s.parents ++ s.waking
unfolding invoke
waking-invoke s = ground arith

waiting-invoke : (h : ℕ) (s : State) → waiting h (invoke s) ≡ waiting h s
waiting-invoke h s =
    rw (parents-invoke s, waking-invoke s)
      (omega (arith, occurrences-handles-append h s.parents s.waking))

waiting-start : (h : ℕ) (r : OnSuspend) (s : State) → waiting h (start r s) ≡ waiting h s
unfolding start
waiting-start h keeps s = refl
waiting-start h resumes s = waiting-invoke h s
waiting-start h (throws ex) s = waiting-invoke h (record s { result = exception ex })

waiting-suspend :
    (h i g : ℕ) (s : State) → waiting h (suspend i g s) ≤ waiting h s + (if g == h then 1 else 0)
unfolding suspend
waiting-suspend h i g s =
    let fewer = occurrences-unlink-le h i s.parents in
    let fewer' = occurrences-unlink-le h i s.waking in
    let more =
      occurrences-handles-append h (unlink i s.parents) (record { item = i; handle = g } ∷ []) in
    if_cases (λ s'. waiting h s' ≤ waiting h s + (if g == h then 1 else 0)) (is_none s.parents) _ _
      (λ _. rw (waiting-start h s.object.on_suspend _) (omega (arith, fewer, fewer', more)))
      (λ _. omega (arith, fewer, fewer', more))

waiting-result : (h : ℕ) (s : State) → waiting h (result s).0 ≡ waiting h s
unfolding result
waiting-result h s = ground arith

waiting-early_cancel : (h : ℕ) (s : State) → waiting h (early_cancel s).0 ≡ waiting h s
unfolding early_cancel
waiting-early_cancel h s = ground arith

waiting-forward_cancel :
    (h : ℕ) (r : OnCancel) (i : ℕ) (s : State) → waiting h (forward_cancel r i s).0 ≤ waiting h s
unfolding forward_cancel
waiting-forward_cancel h confirms i s =
    omega (arith, occurrences-unlink-le h i s.parents, occurrences-unlink-le h i s.waking)
waiting-forward_cancel h defers i s = omega arith
waiting-forward_cancel h completes i s = omega (arith, waiting-invoke h s)

-- The state in which `cancel` forwards the request of the parent `i`, where `p` is linked.
abbrev forwarding : ℕ → Parked → State → State
forwarding i p s = record s { result = cancelling; fault = s.fault || not (p.item == i) }

cancel_cases :
    (i : ℕ) (s : State) (ps : Lot)
    → s.parents ≡ ps
    → ((cancel i s).0 ≡ drop_parent i s)
      ⊎ ((p : Parked) × ((cancel i s).0
            ≡ (forward_cancel s.object.on_cancel i (forwarding i p s)).0))
unfolding cancel
cancel_cases i s [] e = inl (simp (e, cancel) refl)
cancel_cases i s (p ∷ []) e = inr (p, simp (e, cancel) refl)
cancel_cases i s (p ∷ q ∷ ps) e = inl (simp (e, cancel) refl)

waiting-cancel : (h i : ℕ) (s : State) → waiting h (cancel i s).0 ≤ waiting h s
waiting-cancel h i s = elim (cancel_cases i s s.parents refl) [
  | inl e ↦
      rw e (omega (arith, occurrences-unlink-le h i s.parents, occurrences-unlink-le h i s.waking))
  | inr (p, e) ↦ rw e (waiting-forward_cancel h s.object.on_cancel i (forwarding i p s))
]

waiting-wake :
    (h : ℕ) (s : State) (ps : Lot)
    → s.waking ≡ ps
    → waiting h (wake s).0 + occurrences h (wake s).1 ≡ waiting h s
unfolding wake
waiting-wake h s [] e =
    let none_left : occurrences h (handles s.waking) ≡ 0 = rw e refl in
    rw (e, wake) (omega (arith, none_left))
waiting-wake h s (p ∷ ps) e =
    let one_left : occurrences h (handles s.waking)
        ≡ (if p.handle == h then 1 else 0) + occurrences h (handles ps) =
      rw e refl in
    rw (e, wake) (omega (arith, one_left))

-- No more handles are resumed or wait than were suspended.
abbrev pub IsCovered : ℕ → Log → Type 0
IsCovered h l = occurrences h l.resumed + waiting h l.state ≤ occurrences h l.joined

step-IsCovered : (h : ℕ) (l : Log) (c : Call) → IsCovered h l → IsCovered h (step l c)
unfolding step
step-IsCovered h l (join i g) v =
    if_cases (IsCovered h) (ready l.state) _ _ (λ _. omega (arith, waiting-result h l.state))
      (λ _. omega (arith, waiting-suspend h i g l.state, occurrences-append h (g ∷ []) l.joined))
step-IsCovered h l skip v = omega (arith, waiting-early_cancel h l.state)
step-IsCovered h l complete v = omega (arith, waiting-invoke h l.state)
step-IsCovered h l wake_next v = omega (
  arith,
  waiting-wake h l.state l.state.waking refl,
  occurrences-append h (wake l.state).1 l.resumed,
)
step-IsCovered h l (leave i) v = omega (arith, waiting-cancel h i l.state)

-- In any history, a handle is resumed at most as often as it was suspended on the operation, and
-- those that still wait are counted too: no parent is resumed twice for one `co_await`.
pub run-IsCovered : (h : ℕ) (l : Log) (cs : List Call) → IsCovered h l → IsCovered h (run l cs)
unfolding run
run-IsCovered h l [] v = v
run-IsCovered h l (c ∷ cs) v = run-IsCovered h (step l c) cs (step-IsCovered h l c v)

wake_each :
    (ps : Lot) (l : Log)
    → l.state.waking ≡ ps
    → let l' = run l (replicate (length ps) wake_next) in
      (l'.state.waking ≡ [])
      × (l'.state.parents ≡ l.state.parents)
      × (l'.resumed ≡ l.resumed ++ handles ps)
unfolding run step wake
wake_each [] l e = (e, refl, simp append-nil refl)
wake_each (p ∷ ps) l e =
    let l' = step l wake_next in
    let woken : l'.resumed ≡ l.resumed ++ p.handle ∷ [] = simp (e, step, wake) refl in
    let (none_left, same, all) = wake_each ps l' (simp (e, step, wake) refl) in
    (
      none_left,
      same ∙ simp (e, step, wake) refl,
      all ∙ ap (λ hs. hs ++ handles ps) woken ∙ append_assoc l.resumed (p.handle ∷ []) (handles ps),
    )

-- When the operation completes and the parents run one after another with nothing in between (none
-- that is resumed cancels one that still waits), every parent that waits is resumed, in the order in
-- which they arrived (before any that an earlier completion has still to resume), in as many rounds
-- as there are, and nobody waits any more.
pub complete_wakes :
    (l : Log)
    → let ps = l.state.parents ++ l.state.waking in
      let l' = run l (complete ∷ replicate (length ps) wake_next) in
      (l'.resumed ≡ l.resumed ++ handles ps) × (l'.state.parents ≡ []) × (l'.state.waking ≡ [])
unfolding run step
complete_wakes l =
    let (none_left, same, all) =
      wake_each (l.state.parents ++ l.state.waking) (step l complete) (waking-invoke l.state) in
    (all, same ∙ parents-invoke l.state, none_left)
