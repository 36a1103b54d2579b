-- ===== src/Promise/Once.antt =====
-- A task ends once (Promise.h).
use hf_qcorral.Prelude.{◌≤◌, ◌≡◌, refl, ◌∙◌, inl, inr, true, false, if_cases, List, [], ◌∷◌, arith}
use hf_qcorral.Promise.{
  Activity, ready, running, suspended, OnResumed, resume, resume_after_cancel, nothing, Promise,
  start, resumed, cancel_at, run_step, cancel, finish,
}
use hf_qcorral.Promise.Protocol.{
  TaskEvent, starts, runs, completed, is_cancelled, ends, co_awaits, is_running, is_possible, apply,
  step, run, steps, IsCreated, IsAlive, IsOver, Life,
}
use hf_qcorral.Promise.Pause.{Quiet, IsAlive-Quiet, call_alive-Life, cancel_at-Life, await-Life}

steps-le-one : (a : Activity) (f : OnResumed) → steps a f ≤ 1
steps-le-one (ready c) resume = omega arith
steps-le-one (ready c) resume_after_cancel = omega arith
steps-le-one (ready c) nothing = omega arith
steps-le-one (running c) f = omega arith
steps-le-one (suspended aw) f = omega arith

run_step-IsAlive : (p : Promise) → IsAlive p → IsAlive (run_step p)
unfolding run_step
run_step-IsAlive p v = record {
  parent = v.parent;
  queued = omega (arith, v.queued, steps-le-one p.activity p.on_resume);
  continued = v.continued;
  no_fault = v.no_fault;
  hooked = tt;
}

running-Quiet :
    (a : Activity) (p : Promise) → p.activity ≡ a → is_running a ≡ true → IsAlive p → Quiet p
running-Quiet (running c) p e r v = IsAlive-Quiet p v (rw e refl)
running-Quiet (ready c) p e r v = cc
running-Quiet (suspended aw) p e r v = cc

finish-IsOver : (p : Promise) → Quiet p → IsOver (finish p)
unfolding finish
finish-IsOver p q = record {
  parent = refl;
  queued = q.queued;
  continued = omega (arith, q.continued);
  no_fault = ground (arith, q.no_fault, q.parent);
}

pub over_impossible : (e : TaskEvent) (p : Promise) → IsOver p → is_possible e p ≡ false
over_impossible starts p o = rw o.parent refl
over_impossible runs p o = rw o.queued refl
over_impossible completed p o = rw o.parent refl
over_impossible is_cancelled p o = rw o.parent refl
over_impossible ends p o = rw o.parent refl
over_impossible (co_awaits aw) p o = rw o.parent refl

start-IsAlive : (p : Promise) → IsCreated p → IsAlive (start p)
unfolding start
start-IsAlive p v =
    let (c, e) = v.idle in
    record {
      parent = refl;
      queued = v.queued ∙ rw e refl;
      continued = v.continued;
      no_fault = v.no_fault;
      hooked = rw e (inl refl);
    }

cancel-IsCreated : (p : Promise) → IsCreated p → IsCreated (cancel p)
unfolding cancel cancel_at
cancel-IsCreated p v =
    let (c, e) = v.idle in
    rw (e, cancel_at)
      record {
        parent = v.parent;
        queued = v.queued;
        continued = v.continued;
        no_fault = v.no_fault;
        idle = (true, refl);
      }

created-Life :
    (e : TaskEvent) (p : Promise) → is_possible e p ≡ true → IsCreated p → Life (apply e p)
unfolding apply
created-Life starts p t v = inr (inl (start-IsAlive p v))
created-Life is_cancelled p t v = inl (cancel-IsCreated p v)
created-Life runs p t v = absurd (ground (arith, v.queued))
created-Life completed p t v = absurd (ground (arith, v.parent))
created-Life ends p t v = absurd (ground (arith, v.parent))
created-Life (co_awaits aw) p t v = absurd (ground (arith, v.parent))

alive-Life : (e : TaskEvent) (p : Promise) → is_possible e p ≡ true → IsAlive p → Life (apply e p)
unfolding apply cancel resumed
alive-Life starts p t v = absurd (ground (arith, v.parent))
alive-Life is_cancelled p t v = cancel_at-Life p.activity p refl v v.hooked
alive-Life runs p t v = inr (inl (run_step-IsAlive p v))
alive-Life completed p t v =
    call_alive-Life p.activity p.on_resume p refl refl (ground (arith, v.parent)) v v.hooked
alive-Life ends p t v =
    inr (inr (finish-IsOver p (running-Quiet p.activity p refl (ground (arith, v.parent)) v)))
alive-Life (co_awaits aw) p t v =
    await-Life aw p v (running-Quiet p.activity p refl (ground (arith, v.parent)) v)

pub step-Life : (p : Promise) (e : TaskEvent) → Life p → Life (step p e)
unfolding step
step-Life p e (inl v) = if_cases Life (is_possible e p) _ _ (λ t. created-Life e p t v) (λ _. inl v)
step-Life p e (inr (inl v)) =
    if_cases Life (is_possible e p) _ _ (λ t. alive-Life e p t v) (λ _. inr (inl v))
step-Life p e (inr (inr o)) =
    if_cases Life (is_possible e p) _ _ (λ t. cc (over_impossible e p o, t)) (λ _. inr (inr o))

-- A task that was made ends at most once, whatever its body awaits and however awaitees answer, in
-- every order of its steps, their completions and requests to cancel it: it was not started yet, or
-- it is under way, has not told its parent anything, and is queued for the executor exactly when it
-- is scheduled, and then once; or it has ended, is not queued, and has told its parent so exactly
-- once. A null parent is never used.
pub run-Life : (p : Promise) (es : List TaskEvent) → Life p → Life (run p es)
unfolding run
run-Life p [] l = l
run-Life p (e ∷ es) l = run-Life (step p e) es (step-Life p e l)
