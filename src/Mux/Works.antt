-- ===== src/Mux/Works.antt =====
-- MuxHelper::cancel, MuxHelper::invoke and internalCancel (detail/wait.h), for any `invoke` of the mux
-- that works.
use hf_qcorral.Prelude.{
  ℕ, zero, suc, ◌+◌, ◌≤◌, ◌≡◌, refl, sym, ◌∙◌, inl, inr, true, false, Bool-cases, ◌⊎◌, Option, none,
  some, arith,
}
use hf_qcorral.Mux.State.{
  Exception, Status, not_started, cancellation_pending, running, cancelling, cancelled, ready,
  succeeded, failed, OnCancel, confirms, defers, completes, OnResume, yields, raises, Mux, size,
  set_status, status_of, script_of,
}
use hf_qcorral.Mux.Helper.{report_result, resumed, cancel_running, cancel}
use hf_qcorral.Mux.Combiner.{cancel_from}
use hf_qcorral.Mux.Done.{
  is_done, is_started, count_done-lt, count_done-end, count_done-keep, length-with_status,
  AreStarted-set, AreStarted-at, status-with_status,
}
use hf_qcorral.Mux.Inv.{done, Inv, Keeps, Keeps-refl, Keeps-trans, Works, undone_parent}

module _ (k : ℕ) (notify : Option Exception → Mux → Mux) (works : Works k notify) where
  -- An awaitable that had not ended ends with the status `st`, and tells the mux.
  end-Inv :
      (ex : Option Exception) (i : ℕ) (st : Status) (d : ℕ) (m : Mux)
      → is_done (status_of i m) ≡ false
      → is_done st ≡ true
      → is_started st ≡ true
      → Inv d m
      → size m ≤ done m + k
      → Inv d (notify ex (set_status i st m)) × Keeps m (notify ex (set_status i st m))
  unfolding set_status
  end-Inv ex i st d m undone ends starts v room =
      let one = count_done-end m.helpers i st undone ends in
      let same = length-with_status m.helpers i st in
      let (w, kept) =
        works ex (set_status i st m) d
          (record {
            started = AreStarted-set m.helpers i st starts v.started;
            counted = omega (arith, v.counted, one);
            no_fault = v.no_fault;
            parent = undone_parent d m v (count_done-lt m.helpers i undone);
          })
          (omega (arith, one, same)) in
      (
        w,
        record {
          sized = kept.sized ∙ same;
          live = kept.live;
          more = omega (arith, kept.more, one);
        },
      )

  -- A change of status that is no end.
  mark-Inv :
      (i : ℕ) (st : Status) (d : ℕ) (m : Mux)
      → is_done (status_of i m) ≡ false
      → is_done st ≡ false
      → is_started st ≡ true
      → Inv d m
      → Inv d (set_status i st m) × Keeps m (set_status i st m)
  unfolding set_status
  mark-Inv i st d m undone goes starts v =
      let same = count_done-keep m.helpers i st undone goes in
      let sized = length-with_status m.helpers i st in
      (
        record {
          started = AreStarted-set m.helpers i st starts v.started;
          counted = v.counted ∙ sym same;
          no_fault = v.no_fault;
          parent = rw (same, sized) v.parent;
        },
        record { sized = sized; live = refl; more = omega (arith, same) },
      )

  report-Inv :
      (i d : ℕ) (m : Mux)
      → is_done (status_of i m) ≡ false
      → Inv d m
      → size m ≤ done m + k
      → Inv d (report_result notify i m) × Keeps m (report_result notify i m)
  unfolding report_result
  report-Inv i d m undone v room = go (script_of i m).on_resume refl
    where
      go :
          (r : OnResume)
          → (script_of i m).on_resume ≡ r
          → Inv d (report_result notify i m) × Keeps m (report_result notify i m)
      go (yields x) e = rw (e, report_result) (end-Inv none i succeeded d m undone refl refl v room)
      go (raises ex) e =
          rw (e, report_result) (end-Inv (some ex) i failed d m undone refl refl v room)

  -- A running or cancelling awaitable resumes its handle.
  pub resumed-Inv :
      (i d : ℕ) (st : Status) (m : Mux)
      → status_of i m ≡ st
      → (st ≡ running) ⊎ (st ≡ cancelling)
      → Inv d m
      → size m ≤ done m + k
      → Inv d (resumed notify i m) × Keeps m (resumed notify i m)
  unfolding resumed
  resumed-Inv i d st m e (inl r) v room = rw (e ∙ r, resumed) (report-Inv i d m (rw (e ∙ r)) v room)
  resumed-Inv i d st m e (inr r) v room = elim (Bool-cases (script_of i m).must_resume) [
    | inl must ↦ rw (e ∙ r, must, resumed) (report-Inv i d m (rw (e ∙ r)) v room)
    | inr free ↦
        rw (e ∙ r, free, resumed) (end-Inv none i cancelled d m (rw (e ∙ r)) refl refl v room)
  ]

  cancel_running-Inv :
      (on_cancel : OnCancel) (i d : ℕ) (m : Mux)
      → status_of i m ≡ cancelling
      → Inv d m
      → size m ≤ done m + k
      → Inv d (cancel_running notify on_cancel i m).0
        × Keeps m (cancel_running notify on_cancel i m).0
  unfolding cancel_running
  cancel_running-Inv confirms i d m e v room = end-Inv none i cancelled d m (rw e) refl refl v room
  cancel_running-Inv defers i d m e v room = (v, Keeps-refl m)
  cancel_running-Inv completes i d m e v room = resumed-Inv i d cancelling m e (inr refl) v room

  cancel-Inv :
      (i d : ℕ) (st : Status) (m : Mux)
      → status_of i m ≡ st
      → Inv d m
      → size m ≤ done m + k
      → Inv d (cancel notify i m).0 × Keeps m (cancel notify i m).0
  unfolding cancel
  cancel-Inv i d running m e v room =
      let (w, kept) = mark-Inv i cancelling d m (rw e) refl refl v in
      let (w', kept') =
        cancel_running-Inv (script_of i m).on_cancel i d (set_status i cancelling m)
          (unfold set_status in status-with_status m.helpers i cancelling (rw e)) w
          (omega (arith, kept.sized, kept.more, room)) in
      rw (e, cancel) (w', Keeps-trans kept kept')
  cancel-Inv i d not_started m e v room = absurd (late (AreStarted-at m.helpers i v.started))
    where
      late : is_started (status_of i m) ≡ true → ⊥
      late s = ground (arith, e)
  cancel-Inv i d cancellation_pending m e v room = rw (e, cancel) (v, Keeps-refl m)
  cancel-Inv i d cancelling m e v room = rw (e, cancel) (v, Keeps-refl m)
  cancel-Inv i d cancelled m e v room = rw (e, cancel) (v, Keeps-refl m)
  cancel-Inv i d ready m e v room = rw (e, cancel) (v, Keeps-refl m)
  cancel-Inv i d succeeded m e v room = rw (e, cancel) (v, Keeps-refl m)
  cancel-Inv i d failed m e v room = rw (e, cancel) (v, Keeps-refl m)

  pub cancel_from-Inv :
      (left i d : ℕ) (m : Mux)
      → Inv d m
      → size m ≤ done m + k
      → Inv d (cancel_from notify left i m).0 × Keeps m (cancel_from notify left i m).0
  unfolding cancel_from
  cancel_from-Inv zero i d m v room = (v, Keeps-refl m)
  cancel_from-Inv (suc left) i d m v room =
      let (w, kept) = cancel-Inv i d (status_of i m) m refl v room in
      let (w', kept') =
        cancel_from-Inv left (i + 1) d (cancel notify i m).0 w
          (omega (arith, kept.sized, kept.more, room)) in
      (w', Keeps-trans kept kept')
