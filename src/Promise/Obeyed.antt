-- ===== src/Promise/Obeyed.antt =====
-- A task keeps to the protocol of its awaitees, for all of its life (Promise.h, utility.h).
use hf_qcorral.Prelude.{
  ◌≡◌, refl, sym, subst, inl, inr, Bool, true, false, not, ◌&&◌, List, [], ◌∷◌, if◌then◌else◌,
  if_cases, arith,
}
use hf_qcorral.Awaitable.{Script}
use hf_qcorral.Promise.{
  Activity, ready, running, suspended, OnResumed, resume, resume_after_cancel, nothing, Parent,
  unset, present, gone, Promise, start, finish,
}
use hf_qcorral.Promise.Protocol.{
  TaskEvent, starts, runs, completed, is_cancelled, ends, co_awaits, is_possible, IsCreated,
  IsAlive, IsOver, Life, steps, is_running, step,
}
use hf_qcorral.Promise.Protocol
use hf_qcorral.Promise.Once.{step-Life, over_impossible}
use hf_qcorral.Checker.{AwaitableStateChecker, reset, may_reset}
use hf_qcorral.Promise.Checked.{
  Checked, make, await_checked, apply_checked, is_repeated, step_checked, run_all,
}
use hf_qcorral.Promise.Guarded.{Fits, IsGuarded}
use hf_qcorral.Promise.Asserted.{
  guarded_as, await-IsGuarded, cancel_at-IsGuarded, run_at, complete_at-IsGuarded, start_at,
}
use hf_qcorral.Promise.Erased.{promise-apply_checked}

created-IsGuarded :
    (e : TaskEvent) (s : Checked)
    → is_possible e s.promise ≡ true
    → is_repeated e s ≡ false
    → IsCreated s.promise
    → IsGuarded s
    → IsGuarded (apply_checked e s)
unfolding apply_checked
created-IsGuarded starts s t n v g =
    start_at s.promise.activity s refl (guarded_as s unset s.promise.activity v.parent refl g)
created-IsGuarded is_cancelled s t n v g =
    cancel_at-IsGuarded s.promise.activity s.promise.on_resume s.promise.parent s refl refl refl n t
      g
created-IsGuarded runs s t n v g = absurd (ground (arith, v.queued))
created-IsGuarded completed s t n v g = absurd (ground (arith, v.parent))
created-IsGuarded ends s t n v g = absurd (ground (arith, v.parent))
created-IsGuarded (co_awaits aw) s t n v g = absurd (ground (arith, v.parent))

finish_at :
    (a : Activity) (s : Checked)
    → is_running a ≡ true
    → Fits present a s.promise.on_resume s.in_await s.asked s.checker
    → IsGuarded (record s { promise = finish s.promise })
unfolding finish
finish_at (running r) s n (m, f, _, _) = (m, f)
finish_at (ready r) s n g = cc n
finish_at (suspended aw) s n g = cc n

await_at :
    (a : Activity) (aw : Script) (s : Checked)
    → s.promise.parent ≡ present
    → s.promise.activity ≡ a
    → is_running a ≡ true
    → IsGuarded s
    → IsGuarded (await_checked aw s)
await_at (running r) aw s p a n g = await-IsGuarded aw s r p a g
await_at (ready r) aw s p a n g = cc n
await_at (suspended other) aw s p a n g = cc n

alive-IsGuarded :
    (e : TaskEvent) (s : Checked)
    → is_possible e s.promise ≡ true
    → is_repeated e s ≡ false
    → IsAlive s.promise
    → IsGuarded s
    → IsGuarded (apply_checked e s)
unfolding apply_checked
alive-IsGuarded starts s t n v g = absurd (ground (arith, v.parent))
alive-IsGuarded is_cancelled s t n v g =
    cancel_at-IsGuarded s.promise.activity s.promise.on_resume s.promise.parent s refl refl refl n t
      g
alive-IsGuarded runs s t n v g =
    run_at s.promise.activity s.promise.on_resume s v.parent refl (ground (arith, v.queued, t))
      (guarded_as s present s.promise.activity v.parent refl g)
alive-IsGuarded completed s t n v g =
    complete_at-IsGuarded s.promise.activity s.promise.on_resume s v.parent refl refl
      (ground (arith, v.parent, t)) (guarded_as s present s.promise.activity v.parent refl g)
alive-IsGuarded ends s t n v g =
    finish_at s.promise.activity s (ground (arith, v.parent, t))
      (guarded_as s present s.promise.activity v.parent refl g)
alive-IsGuarded (co_awaits aw) s t n v g =
    await_at s.promise.activity aw s v.parent refl (ground (arith, v.parent, t)) g

-- What holds of a task and of its checker at any time.
pub record IsObeyed (s : Checked) : Type 0 where
  pub life : Life s.promise
  pub guarded : IsGuarded s

possible_guarded :
    (e : TaskEvent) (s : Checked)
    → is_possible e s.promise ≡ true
    → is_repeated e s ≡ false
    → Life s.promise
    → IsGuarded s
    → IsGuarded (apply_checked e s)
possible_guarded e s t n (inl v) g = created-IsGuarded e s t n v g
possible_guarded e s t n (inr (inl v)) g = alive-IsGuarded e s t n v g
possible_guarded e s t n (inr (inr o)) g = cc (over_impossible e s.promise o, t)

possible-Life :
    (e : TaskEvent) (s : Checked)
    → is_possible e s.promise ≡ true
    → Life s.promise
    → Life (apply_checked e s).promise
unfolding step
possible-Life e s t l =
    let j : Life (if is_possible e s.promise then Protocol.apply e s.promise else s.promise) =
      step-Life s.promise e l in
    subst Life (sym (promise-apply_checked e s)) (rw t at j)

step-IsObeyed : (s : Checked) (e : TaskEvent) → IsObeyed s → IsObeyed (step_checked s e)
unfolding step_checked
step-IsObeyed s e o =
    if_cases IsObeyed (is_possible e s.promise && not (is_repeated e s)) _ _
      (λ t. record {
        life = possible-Life e s (ground (arith, t)) o.life;
        guarded = possible_guarded e s (ground (arith, t)) (ground (arith, t)) o.life o.guarded;
      })
      (λ _. o)

run-IsObeyed : (s : Checked) (es : List TaskEvent) → IsObeyed s → IsObeyed (run_all s es)
unfolding run_all
run-IsObeyed s [] o = o
run-IsObeyed s (e ∷ es) o = run-IsObeyed (step_checked s e) es (step-IsObeyed s e o)

make-IsObeyed : IsObeyed make
unfolding make hf_qcorral.Promise.make hf_qcorral.Checker.make
make-IsObeyed = record {
  life = inl record {
    parent = refl;
    queued = refl;
    continued = refl;
    no_fault = refl;
    idle = (false, refl);
  };
  guarded = (record { state = refl; no_fault = refl }, refl, refl);
}

-- A task never breaks the protocol of awaitables: whatever its body awaits and however awaitees
-- answer, in every order of its steps, of their completions and of one request to cancel it, no
-- assertion of the checker fails that follows the calls to its awaitees, and once the task has told
-- its parent that it has ended, the checker may be destroyed.
pub run-obeys :
    (es : List TaskEvent)
    → let s = run_all make es in
      (s.checker.fault ≡ false) × (s.promise.parent ≡ gone → (reset s.checker).fault ≡ false)
unfolding reset
run-obeys es =
    let s = run_all make es in
    let o = run-IsObeyed make es make-IsObeyed in
    let ended : (s.promise.parent ≡ gone) → (reset s.checker).fault ≡ false = λ e.
      let (m, f) : Fits gone s.promise.activity s.promise.on_resume s.in_await s.asked s.checker =
        guarded_as s gone s.promise.activity e refl o.guarded in
      rw (m, f) refl in
    (
      unfaulted s.promise.parent s.promise.activity s.promise.on_resume s.in_await s.asked s.checker
          o.guarded,
      ended,
    )
  where
    unfaulted :
        (x : Parent) (a : Activity) (f : OnResumed) (w q : Bool) (c : AwaitableStateChecker)
        → Fits x a f w q c
        → c.fault ≡ false
    unfaulted gone a f w q c g = g.1
    unfaulted unset (ready r) f w q c g = g.0.no_fault
    unfaulted unset (running r) f w q c g = cc g
    unfaulted unset (suspended aw) f w q c g = cc g
    unfaulted present (ready r) resume w q c g = g.0.no_fault
    unfaulted present (ready r) resume_after_cancel w q c g = cc g
    unfaulted present (ready r) nothing w q c g = g.0.no_fault
    unfaulted present (running r) f w q c g = g.1
    unfaulted present (suspended aw) resume w q c g = g.1.at.no_fault
    unfaulted present (suspended aw) resume_after_cancel w q c g = g.1.no_fault
    unfaulted present (suspended aw) nothing w q c g = cc g
