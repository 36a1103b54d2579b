-- ===== src/Sequence/Cancel.antt =====
-- A sequence that was cancelled before its first awaitable was through (detail/Sequence.h).
use hf_qcorral.Prelude.{
  ◌≡◌, refl, sym, subst, ◌⊎◌, inl, inr, Bool, true, false, not, ◌&&◌, if_cases, Bool-cases, some,
  none, arith, if◌then◌else◌,
}
use hf_qcorral.Awaitable.{Exception, OnResume, yields, raises, Script}
use hf_qcorral.Sequence.{
  first, second, neither, ThenFn, Sequence, resume_parent, build, suspend_second, start_second,
  kick_off_second, await_must_resume, await_resume,
}
use hf_qcorral.Sequence.Outcome.{compose, stage-suspend_second}

-- Whether a value or an exception survives the cancellation: the first awaitable has one, and the
-- second, if there is one, cannot be skipped and has one too.
abbrev pub second_survives : Exception ⊎ Script → Bool
second_survives (inl ex) = true
second_survives (inr aw) = if aw.early_cancel then false else aw.must_resume

abbrev pub survives : Script → ThenFn → Bool
survives s f = s.must_resume && second_survives (build s.on_resume f)

both_right : (a b : Bool) → (a && b) ≡ true → b ≡ true
both_right a b e = ground arith

skipped : (early must : Bool) → early ≡ true → (if early then false else must) ≡ false
skipped early must e = ground arith

kept :
    (a early must : Bool) → a ≡ true → (a && early) ≡ false → (if early then false else must) ≡ must
kept a early must c e = ground arith

dropped : (a must b : Bool) → (a && not must) ≡ true → (must && b) ≡ false
dropped a must b e = ground arith

goes_on : (a must b : Bool) → a ≡ true → (a && not must) ≡ false → (must && b) ≡ b
goes_on a must b c e = ground arith

-- What the parent is told, and what it then reads.
abbrev pub Reports : Bool → OnResume → Sequence → Type 0
Reports b r s =
    ((await_must_resume s).1 ≡ b)
    × ((if (await_must_resume s).1 then (await_resume (await_must_resume s).0).1 else none)
        ≡ (if b then some r else none))

Reports-second :
    (aw : Script) (s : Sequence) → s.stage ≡ second aw → Reports aw.must_resume aw.on_resume s
unfolding await_must_resume await_resume
Reports-second aw s e = elim (Bool-cases aw.must_resume) [
  | inl must ↦ rw (e, must, await_must_resume) (refl, rw (e, await_resume))
  | inr free ↦ rw (e, free, await_must_resume) (refl, refl)
]

start_second-Reports :
    (r : Exception ⊎ Script) (s : Sequence)
    → s.cancelling ≡ true
    → Reports
        (second_survives r)
        (elim r [ inl ex ↦ raises ex | inr aw ↦ aw.on_resume ])
        (start_second r s)
unfolding start_second resume_parent await_must_resume await_resume
start_second-Reports (inl ex) s c = (refl, refl)
start_second-Reports (inr aw) s c =
    if_cases (Reports (second_survives (inr aw)) aw.on_resume) (s.cancelling && aw.early_cancel)
      (resume_parent (record s { stage = neither })) _
      (λ e.
        subst (λ b. Reports b aw.on_resume (resume_parent (record s { stage = neither })))
          (sym (skipped aw.early_cancel aw.must_resume (both_right s.cancelling aw.early_cancel e)))
          (refl, refl))
      (λ e.
        subst
          (λ b. Reports b aw.on_resume (
            if aw.is_ready
            then resume_parent (record s { stage = second aw })
            else suspend_second aw.on_suspend (record s { stage = second aw })))
          (sym (kept s.cancelling aw.early_cancel aw.must_resume c e))
          (if_cases (Reports aw.must_resume aw.on_resume) aw.is_ready
            (resume_parent (record s { stage = second aw })) _
            (λ _. Reports-second aw (resume_parent (record s { stage = second aw })) refl)
            (λ _.
              Reports-second aw (suspend_second aw.on_suspend (record s { stage = second aw }))
                (stage-suspend_second aw.on_suspend (record s { stage = second aw })))))

composed :
    (r : OnResume) (f : ThenFn) (s : Sequence)
    → s.cancelling ≡ true
    → Reports (second_survives (build r f)) (compose r f) (start_second (build r f) s)
unfolding build
composed (yields v) f s c = start_second-Reports (f v) s c
composed (raises ex) f s c = start_second-Reports (inl ex) s c

-- A sequence that is being cancelled when its first awaitable is through (and its second, if one
-- was started) tells its parent to resume exactly if a result survives the cancellation; the
-- result that the parent then reads is that of the composition.
pub kick_off_second-survives :
    (s : Sequence)
    → s.stage ≡ first
    → s.cancelling ≡ true
    → Reports
        (survives s.first_aw s.then_fn)
        (compose s.first_aw.on_resume s.then_fn)
        (kick_off_second s)
unfolding kick_off_second resume_parent await_must_resume
kick_off_second-survives s e c =
    let r = compose s.first_aw.on_resume s.then_fn in
    let b = second_survives (build s.first_aw.on_resume s.then_fn) in
    if_cases (Reports (survives s.first_aw s.then_fn) r)
      (s.cancelling && not s.first_aw.must_resume) (resume_parent s) _
      (λ over.
        subst (λ t. Reports t r (resume_parent s))
          (sym (dropped s.cancelling s.first_aw.must_resume b over))
          (rw (e, await_must_resume) (refl, refl)))
      (λ on.
        subst
          (λ t.
            Reports t r
              (start_second (build s.first_aw.on_resume s.then_fn) (record s { stage = neither })))
          (sym (goes_on s.cancelling s.first_aw.must_resume b c on))
          (composed s.first_aw.on_resume s.then_fn (record s { stage = neither }) c))
