-- ===== src/Executor/Fair.antt =====
-- An executor calls its callbacks in the order in which they were submitted (Executor.h).
use hf_qcorral.Prelude.{
  ℕ, zero, suc, ◌<◌, ◌≡◌, refl, sym, ap, ◌∙◌, Bool, true, false, Option, none, some, List, [], ◌∷◌,
  ◌++◌, append-nil, if_cases, get_elem?, length, arith,
}
use hf_qcorral.Executor.{
  Task, task, run_once, Body, done, run_soon, schedule, wake, drain_now, capture, Program, make,
  started, ended, World, Frame, body, captured, drain, drain_captured, executor_of, executor_at,
  put_executor, set_ready, label_of, note, submit, enter, call_once, defer, is_current, defer_to,
  wake_up, call, run_body, next_ready, leave, take_on, step, run,
}
use hf_qcorral.Executor.Steps.{fresh, made, length-made}
use hf_qcorral.Executor.Order.{
  waiting, submissions, starts_of, submissions-append, starts_of-append, Spares, SparesFrame,
  SpareFrames, SpareFrames-append, IsOrdered,
}
use hf_qcorral.Executor.Noted.{put-IsOrdered, set_ready-IsOrdered}
use hf_qcorral.Executor.Fifo.{submit-IsOrdered, take-IsOrdered}

-- The order is kept, and the calls that are under way spare the executor.
abbrev IsFair : ℕ → World × List Frame → Type 0
IsFair e c = IsOrdered e c.0 × SpareFrames e c.1

-- What changes neither the executors nor the log.
current-IsOrdered :
    (e : ℕ) (o : Option ℕ) (w : World) → IsOrdered e w → IsOrdered e (record w { current = o })
unfolding executor_at
current-IsOrdered e o w i = record { here = i.here; order = i.order }

enter-IsOrdered : (e d : ℕ) (w : World) → IsOrdered e w → IsOrdered e (enter d w)
unfolding enter
enter-IsOrdered e d w i =
    let y = record (executor_at d w) { running = true } in
    current-IsOrdered e (some d) (put_executor d y w) (put-IsOrdered e d y w refl i)

-- An executor that is no longer running.
stop-IsOrdered :
    (e d : ℕ) (prev : Option ℕ) (w : World)
    → IsOrdered e w
    → IsOrdered e (record (put_executor d (record (executor_at d w) { running = false }) w) {
      current = prev;
    })
stop-IsOrdered e d prev w i =
    let y = record (executor_at d w) { running = false } in
    current-IsOrdered e prev (put_executor d y w) (put-IsOrdered e d y w refl i)

defer_to-IsOrdered :
    (e d : ℕ) (o : Option ℕ) (w : World) → IsOrdered e w → IsOrdered e (defer_to o d w)
unfolding defer executor_at
defer_to-IsOrdered e d none w i = i
defer_to-IsOrdered e d (some c) w i =
    let y = record (executor_at d w) { scheduled = true } in
    let j = submit-IsOrdered e c (run_once d) (put_executor d y w) (put-IsOrdered e d y w refl i) in
    record { here = j.here; order = j.order }

call_once-IsFair : (e d : ℕ) (w : World) → IsOrdered e w → IsFair e (call_once d w)
unfolding call_once SpareFrames
call_once-IsFair e d w i =
    let y = record (executor_at d w) { scheduled = false } in
    let j = put-IsOrdered e d y w refl i in
    if_cases (IsFair e) (executor_at d w).running _ _ (λ _. (j, tt))
      (λ _. (enter-IsOrdered e d (put_executor d y w) j, (tt, tt)))

wake_up-IsFair : (e d : ℕ) (w : World) → IsOrdered e w → IsFair e (wake_up d w)
unfolding wake_up SpareFrames
wake_up-IsFair e d w i =
    if_cases (IsFair e) (executor_at d w).running _ _ (λ _. (i, tt))
      (λ _.
        if_cases (IsFair e) (is_current w.current d w) _ _
          (λ _. (defer_to-IsOrdered e d w.current w i, tt)) (λ _. call_once-IsFair e d w i))

call-IsFair :
    (p : Program) (e : ℕ) (t : Task) (w : World)
    → ((n : ℕ) → Spares e (p n))
    → IsOrdered e w
    → IsFair e (call p t w)
unfolding call SpareFrames SparesFrame
call-IsFair p e (task l) w s i = (i, (s l, tt))
call-IsFair p e (run_once d) w s i = call_once-IsFair e d w i

-- A frame that is put below the new ones.
below-IsFair :
    (e : ℕ) (c : World × List Frame) (f : Frame)
    → IsFair e c
    → SparesFrame e f
    → IsFair e (c.0, c.1 ++ f ∷ [])
unfolding SpareFrames
below-IsFair e c f (i, ps) p = (i, SpareFrames-append e c.1 (f ∷ []) ps (p, tt))

run_body-IsFair :
    (e : ℕ) (b : Body) (w : World) → Spares e b → IsOrdered e w → IsFair e (run_body b w)
unfolding run_body Spares SpareFrames SparesFrame
run_body-IsFair e done w p i = (i, tt)
run_body-IsFair e (run_soon d t b) w q i =
    below-IsFair e (wake_up d (submit d t w)) (body b)
      (wake_up-IsFair e d (submit d t w) (submit-IsOrdered e d t w i)) q
run_body-IsFair e (schedule d t b) w q i = (submit-IsOrdered e d t w i, (q, tt))
run_body-IsFair e (wake d b) w p i =
    below-IsFair e (wake_up d w) (body b) (wake_up-IsFair e d w i) p
run_body-IsFair e (drain_now d b) w p i = (enter-IsOrdered e d w i, (tt, (p, tt)))
run_body-IsFair e (capture d f b) w (n, p, q) i =
    (set_ready-IsOrdered e d [] w n i, (p, (n, (q, tt))))

leave-IsOrdered :
    (e d : ℕ) (owned : Bool) (prev : Option ℕ) (w : World)
    → IsOrdered e w
    → IsOrdered e (leave d owned prev w)
unfolding leave executor_at put_executor
leave-IsOrdered e d true prev w i =
    let j = stop-IsOrdered e d prev w i in record { here = j.here; order = j.order }
leave-IsOrdered e d false prev w i = current-IsOrdered e prev w i

next_ready-IsFair :
    (p : Program) (e d : ℕ) (owned : Bool) (prev : Option ℕ) (ts : List Task) (w : World)
    → ((n : ℕ) → Spares e (p n))
    → (executor_at d w).ready ≡ ts
    → IsOrdered e w
    → IsFair e (next_ready p d owned prev ts w)
unfolding next_ready SpareFrames SparesFrame
next_ready-IsFair p e d owned prev [] w s r i = (leave-IsOrdered e d owned prev w i, tt)
next_ready-IsFair p e d owned prev (t ∷ ts) w s r i =
    let w' = note (label_of t) (started d) (set_ready d ts w) in
    below-IsFair e (call p t w') (drain d owned prev (label_of t))
      (call-IsFair p e t w' s (take-IsOrdered e d t ts w r i)) tt

ended-IsOrdered :
    (e d l : ℕ) (w : World)
    → IsOrdered e w
    → IsOrdered e (record w { log = w.log ++ ended d l ∷ [] })
unfolding executor_at
ended-IsOrdered e d l w i = record {
  here = i.here;
  order =
      ap (λ ls. ls ++ waiting (executor_at e w).ready)
        (starts_of-append e w.log (ended d l ∷ []) ∙ append-nil _)
      ∙ i.order
      ∙ sym (submissions-append e w.log (ended d l ∷ []) ∙ append-nil _);
}

take_on-IsFair :
    (p : Program) (e : ℕ) (f : Frame) (w : World)
    → ((n : ℕ) → Spares e (p n))
    → SparesFrame e f
    → IsOrdered e w
    → IsFair e (take_on p f w)
unfolding take_on SparesFrame SpareFrames
take_on-IsFair p e (body b) w s q i = run_body-IsFair e b w q i
take_on-IsFair p e (captured d old) w s n i =
    (enter-IsOrdered e d (set_ready d old w) (set_ready-IsOrdered e d old w n i), (tt, tt))
take_on-IsFair p e (drain d owned prev (some l)) w s q i = (ended-IsOrdered e d l w i, (tt, tt))
take_on-IsFair p e (drain d owned prev none) w s q i =
    next_ready-IsFair p e d owned prev (executor_at d w).ready w s refl i
take_on-IsFair p e (drain_captured d [] owned prev) w s q i =
    (leave-IsOrdered e d owned prev w i, tt)
take_on-IsFair p e (drain_captured d (t ∷ ts) owned prev) w s q i =
    below-IsFair e (call p t w) (drain_captured d ts owned prev) (call-IsFair p e t w s i) tt

step-IsFair :
    (p : Program) (e : ℕ) (c : World × List Frame)
    → ((n : ℕ) → Spares e (p n))
    → IsFair e c
    → IsFair e (step p c)
unfolding step SpareFrames
step-IsFair p e (w, []) s h = h
step-IsFair p e (w, f ∷ fs) s (i, (q, qs)) =
    let (j, ns) = take_on-IsFair p e f w s q i in
    (j, SpareFrames-append e (take_on p f w).1 fs ns qs)

run-IsFair :
    (p : Program) (e fuel : ℕ) (c : World × List Frame)
    → ((n : ℕ) → Spares e (p n))
    → IsFair e c
    → IsFair e (run p fuel c)
unfolding run
run-IsFair p e zero c s h = h
run-IsFair p e (suc fuel) c s h = run-IsFair p e fuel (step p c) s (step-IsFair p e c s h)

made_ready : (ls : List ℕ) (e : ℕ) → (executor_of (get_elem? (made ls) e)).ready ≡ []
unfolding executor_of make
made_ready [] e = refl
made_ready (l ∷ ls) zero = refl
made_ready (l ∷ ls) (suc e) = made_ready ls e

fresh-IsOrdered : (ls : List ℕ) (e : ℕ) → e < length ls → IsOrdered e (fresh ls)
unfolding executor_at
fresh-IsOrdered ls e h = record {
  here = omega (arith, h, length-made ls);
  order = ap waiting (made_ready ls e);
}

-- If what the thread calls, and what the callbacks do that this may lead to, never captures what is
-- submitted to an executor (others may be captured), then the callbacks that the executor has taken
-- from its queue, followed by those that are waiting there, are at any time those that were
-- submitted to it, in the order of their submission, each of them once.
pub run-fifo :
    (p : Program) (ls : List ℕ) (b : Body) (e fuel : ℕ)
    → e < length ls
    → Spares e b
    → ((n : ℕ) → Spares e (p n))
    → let w = (run p fuel (fresh ls, body b ∷ [])).0 in
      starts_of e w.log ++ waiting (executor_at e w).ready ≡ submissions e w.log
unfolding SpareFrames SparesFrame
run-fifo p ls b e fuel h q s =
    (run-IsFair p e fuel (fresh ls, body b ∷ []) s (fresh-IsOrdered ls e h, (q, tt))).0.order
