-- ===== src/Mux/Cancel.antt =====
-- What becomes of a running mux when its own parent cancels it.
use hf_qcorral.Prelude.{
  ◌+◌, ◌≡◌, refl, ap, ◌∙◌, ◌⊎◌, inl, inr, Bool, true, false, ◌&&◌, if◌then◌else◌, if_cases, arith,
  ◌==◌, ==_iff,
}
use hf_qcorral.Mux.State.{Mux, size}
use hf_qcorral.Mux.Combiner.{invoke, depth, mux_is_abortable, internal_cancel, await_cancel}
use hf_qcorral.Mux.Abort.{AllConfirm, internal_cancel-all}
use hf_qcorral.Mux.Done.{count_done-le}
use hf_qcorral.Mux.Inv.{done, Inv, Keeps, as_count, below}
use hf_qcorral.Mux.Works.{cancel_from-Inv}
use hf_qcorral.Mux.Count.{IsRunning, IsFinished, invoke-Works}

abbrev muted : Mux → Mux
muted m = record m { parent_live = false }

muted-Inv : (m : Mux) → IsRunning m → Inv 0 (muted m)
muted-Inv m r = record {
  started = r.started;
  counted = omega (arith, r.counted);
  no_fault = r.no_fault;
  parent = r.not_resumed;
}

internal_cancel-Inv :
    (m : Mux) → Inv 0 m → Inv 0 (internal_cancel m).0 × Keeps m (internal_cancel m).0
unfolding internal_cancel
internal_cancel-Inv m v =
    cancel_from-Inv (depth m) (invoke (depth m)) (invoke-Works (depth m)) (size m) 0 0 m v
      (omega arith)

muted_parent : (m : Mux) → Inv 0 m → m.parent_live ≡ false → m.parent_resumed ≡ 0
muted_parent m v dead = v.parent ∙ as_count (ap (λ b. b && ((0 == 0) && (done m == size m))) dead)

-- What `await_cancel` leaves: if it returns true, it has not resumed the parent; if it returns
-- false, the mux goes on running, or all awaitables have ended and the parent was resumed once.
abbrev pub CancelOutcome : Mux × Bool → Type 0
CancelOutcome r =
    ((r.1 ≡ true) × (r.0.parent_resumed ≡ 0) × (r.0.fault ≡ false))
    ⊎ ((r.1 ≡ false) × (IsRunning r.0 ⊎ IsFinished r.0))

-- The end of `await_cancel`, where nothing is asserted.
abbrev late : Mux × Bool → Mux × Bool
late r =
    if r.1
    then (r.0, true)
    else (if r.0.count == size r.0
        then (record r.0 { parent_resumed = r.0.parent_resumed + 1 }, false)
        else (r.0, false))

late-outcome :
    (m : Mux)
    → IsRunning m
    → let (n, all) = internal_cancel (muted m) in
      CancelOutcome (late (record n { parent_live = m.parent_live }, all))
late-outcome m r =
    let (w, kept) = internal_cancel-Inv (muted m) (muted-Inv m r) in
    let n : Mux = (internal_cancel (muted m)).0 in
    let idle : n.parent_resumed ≡ 0 = muted_parent n w kept.live in
    let n' : Mux = record n { parent_live = m.parent_live } in
    if_cases CancelOutcome (internal_cancel (muted m)).1 (n', true) _
      (λ _. inl (refl, idle, w.no_fault))
      (λ _.
        if_cases CancelOutcome (n'.count == size n')
          (record n' { parent_resumed = n'.parent_resumed + 1 }, false) (n', false)
          (λ full. inr (
            refl,
            inr (record {
              counted = (==_iff n.count (size n)).0 full;
              ended = omega (arith, w.counted, (==_iff n.count (size n)).0 full);
              no_fault = w.no_fault;
              resumed_once = ap (λ k. k + 1) idle;
            }),
          ))
          (λ less. inr (
            refl,
            inl (record {
              started = w.started;
              counted = omega (arith, w.counted);
              waiting = omega (
                arith,
                w.counted,
                below n.count (size n) (omega (arith, w.counted, count_done-le n.helpers)) less,
              );
              no_fault = w.no_fault;
              live = r.live;
              not_resumed = idle;
            }),
          )))

-- Cancelling a running mux never fails an assertion and never resumes the parent twice, if the
-- awaitables of a mux that is abortable (it is done with the first, and the cancellation of each
-- always succeeds) still run and confirm their cancellation: either the cancellation is confirmed and
-- the parent is left alone, or it is not and the mux runs on, or it has come to its end and the
-- parent is resumed exactly once.
pub await_cancel-outcome :
    (m : Mux)
    → IsRunning m
    → (mux_is_abortable m ≡ true → AllConfirm m.helpers)
    → CancelOutcome (await_cancel m)
unfolding await_cancel
await_cancel-outcome m r confirm =
    let (w, kept) = internal_cancel-Inv (muted m) (muted-Inv m r) in
    let n : Mux = (internal_cancel (muted m)).0 in
    let idle : n.parent_resumed ≡ 0 = muted_parent n w kept.live in
    if_cases CancelOutcome (mux_is_abortable m) _ _
      (λ a. inl (refl, idle, rw (internal_cancel-all (muted m) (confirm a), w.no_fault) refl))
      (λ _. late-outcome m r)
