-- ===== src/Sequence/Outcome.antt =====
-- A sequence that nobody cancels, and the composition of its awaitables (detail/Sequence.h).
use hf_qcorral.Prelude.{
  ℕ, ◌+◌, ◌≡◌, refl, ap, ◌⊎◌, inl, inr, Bool, true, false, not, ◌&&◌, some, arith, if_cases,
}
use hf_qcorral.Awaitable.{
  Exception, OnSuspend, keeps, resumes, throws, OnResume, yields, raises, Script,
}
use hf_qcorral.Sequence.{
  second, neither, ThenFn, Sequence, resume_parent, build, suspend_second, start_second,
  kick_off_second, await_resume,
}

-- What the composition yields: the first failure, or the result of the second.
abbrev pub compose : OnResume → ThenFn → OnResume
compose (raises ex) f = raises ex
compose (yields v) f = elim (f v) [ inl ex ↦ raises ex | inr aw ↦ aw.on_resume ]

pub both_left : (a b : Bool) → (a && b) ≡ true → a ≡ true
both_left a b e = ground arith

-- The parent was resumed once, or it waits for a second awaitable that keeps its handle.
abbrev pub IsServed : Sequence → Type 0
IsServed s =
    ((s.parent_resumed ≡ 1) × (s.fault ≡ false))
    ⊎ ((s.parent_resumed ≡ 0)
        × (s.fault ≡ false)
        × ((aw : Script) × (s.stage ≡ second aw) × (aw.is_ready ≡ false) × (aw.on_suspend ≡ keeps)))

-- The second awaitable does not throw out of `await_suspend`.
abbrev pub SuspendsQuietly : ThenFn → Type 0
SuspendsQuietly f =
    (v : ℕ) (aw : Script) (ex : Exception) → f v ≡ inr aw → ¬ (aw.on_suspend ≡ throws ex)

suspend_second-IsServed :
    (on_suspend : OnSuspend) (aw : Script) (s : Sequence)
    → aw.on_suspend ≡ on_suspend
    → aw.is_ready ≡ false
    → ((ex : Exception) → ¬ (aw.on_suspend ≡ throws ex))
    → s.parent_resumed ≡ 0
    → s.fault ≡ false
    → IsServed (suspend_second on_suspend (record s { stage = second aw }))
unfolding suspend_second resume_parent
suspend_second-IsServed keeps aw s e r quiet p f = inr (p, f, (aw, refl, r, e))
suspend_second-IsServed resumes aw s e r quiet p f = inl (ap (λ n. n + 1) p, f)
suspend_second-IsServed (throws ex) aw s e r quiet p f = absurd (quiet ex e)

start_second-IsServed :
    (r : Exception ⊎ Script) (s : Sequence)
    → s.parent_resumed ≡ 0
    → s.fault ≡ false
    → ((aw : Script) (ex : Exception) → r ≡ inr aw → ¬ (aw.on_suspend ≡ throws ex))
    → IsServed (start_second r s)
unfolding start_second resume_parent
start_second-IsServed (inl ex) s p f quiet = inl (ap (λ n. n + 1) p, f)
start_second-IsServed (inr aw) s p f quiet =
    if_cases IsServed (s.cancelling && aw.early_cancel)
      (resume_parent (record s { stage = neither })) _ (λ _. inl (ap (λ n. n + 1) p, f))
      (λ _.
        if_cases IsServed aw.is_ready (resume_parent (record s { stage = second aw })) _
          (λ _. inl (ap (λ n. n + 1) p, f))
          (λ busy.
            suspend_second-IsServed aw.on_suspend aw s refl busy (λ ex. quiet aw ex refl) p f))

build-quiet :
    (r : OnResume) (f : ThenFn)
    → SuspendsQuietly f
    → (aw : Script) (ex : Exception) → build r f ≡ inr aw
    → ¬ (aw.on_suspend ≡ throws ex)
unfolding build
build-quiet (yields v) f quiet aw ex e = quiet v aw ex e
build-quiet (raises x) f quiet aw ex e = cc

-- When the first awaitable is through, cancelled or not, the sequence resumes its parent exactly
-- once, or hands it to a second awaitable that keeps it; it never does both and never neither,
-- given that no second awaitable throws while it is being suspended.
pub kick_off_second-IsServed :
    (s : Sequence)
    → s.parent_resumed ≡ 0
    → s.fault ≡ false
    → SuspendsQuietly s.then_fn
    → IsServed (kick_off_second s)
unfolding kick_off_second resume_parent
kick_off_second-IsServed s p f quiet =
    if_cases IsServed (s.cancelling && not s.first_aw.must_resume) (resume_parent s) _
      (λ _. inl (ap (λ n. n + 1) p, f))
      (λ _.
        start_second-IsServed (build s.first_aw.on_resume s.then_fn) (record s { stage = neither })
          p f (build-quiet s.first_aw.on_resume s.then_fn quiet))

pub stage-suspend_second : (r : OnSuspend) (s : Sequence) → (suspend_second r s).stage ≡ s.stage
unfolding suspend_second resume_parent
stage-suspend_second keeps s = refl
stage-suspend_second resumes s = refl
stage-suspend_second (throws ex) s = refl

abbrev pub Yields : OnResume → Sequence → Type 0
Yields r s = (await_resume s).1 ≡ some r

pub Yields-second : (aw : Script) (s : Sequence) → s.stage ≡ second aw → Yields aw.on_resume s
unfolding await_resume
Yields-second aw s e = rw (e, await_resume)

start_second-Yields :
    (r : Exception ⊎ Script) (s : Sequence)
    → s.cancelling ≡ false
    → Yields (elim r [ inl ex ↦ raises ex | inr aw ↦ aw.on_resume ]) (start_second r s)
unfolding start_second resume_parent await_resume
start_second-Yields (inl ex) s c = refl
start_second-Yields (inr aw) s c =
    if_cases (Yields aw.on_resume) (s.cancelling && aw.early_cancel) _ _
      (λ e. cc (c, both_left s.cancelling aw.early_cancel e))
      (λ _.
        if_cases (Yields aw.on_resume) aw.is_ready _ _
          (λ _. Yields-second aw (resume_parent (record s { stage = second aw })) refl)
          (λ _.
            Yields-second aw (suspend_second aw.on_suspend (record s { stage = second aw }))
              (stage-suspend_second aw.on_suspend (record s { stage = second aw }))))

composed :
    (r : OnResume) (f : ThenFn) (s : Sequence)
    → s.cancelling ≡ false
    → Yields (compose r f) (start_second (build r f) s)
unfolding build
composed (yields v) f s c = start_second-Yields (f v) s c
composed (raises ex) f s c = start_second-Yields (inl ex) s c

-- What `await_resume` of an uncancelled sequence yields is what the composition of its awaitables
-- yields: the exception of the first or of the function, or else the result of the second.
pub kick_off_second-compose :
    (s : Sequence)
    → s.cancelling ≡ false
    → (await_resume (kick_off_second s)).1 ≡ some (compose s.first_aw.on_resume s.then_fn)
unfolding kick_off_second
kick_off_second-compose s c =
    if_cases (Yields (compose s.first_aw.on_resume s.then_fn))
      (s.cancelling && not s.first_aw.must_resume) _ _
      (λ e. cc (c, both_left s.cancelling (not s.first_aw.must_resume) e))
      (λ _. composed s.first_aw.on_resume s.then_fn (record s { stage = neither }) c)
