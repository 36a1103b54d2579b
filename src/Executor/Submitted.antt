-- ===== src/Executor/Submitted.antt =====
-- What a submission and a wake-up do to the executors, by what they are doing (Executor.h).
use hf_qcorral.Prelude.{
  ℕ, ◌<◌, ◌≡◌, refl, sym, ap, subst, ◌∙◌, Bool, true, false, ◌||◌, Option, none, some, [], ◌∷◌,
  ◌++◌, ◌==◌, length, length-set, arith,
}
use hf_qcorral.Executor.{
  Task, run_once, Executor, Mark, submitted, World, drain, executor_at, put_executor, set_ready,
  label_of, note, submit, enter, call_once, defer, wake_up,
}
use hf_qcorral.Executor.Running.{put_same, put_other}

pub noted_at :
    (e : ℕ) (o : Option ℕ) (m : ℕ → Mark) (w : World) → executor_at e (note o m w) ≡ executor_at e w
unfolding executor_at
noted_at e none m w = refl
noted_at e (some l) m w = refl

pub noted_current : (o : Option ℕ) (m : ℕ → Mark) (w : World) → (note o m w).current ≡ w.current
noted_current none m w = refl
noted_current (some l) m w = refl

pub noted_length :
    (o : Option ℕ) (m : ℕ → Mark) (w : World) → length (note o m w).executors ≡ length w.executors
noted_length none m w = refl
noted_length (some l) m w = refl

noted_fault : (o : Option ℕ) (m : ℕ → Mark) (w : World) → (note o m w).fault ≡ w.fault
noted_fault none m w = refl
noted_fault (some l) m w = refl

or_false : (b : Bool) → (b || false) ≡ b
or_false true = refl
or_false false = refl

pub submit_same :
    (e : ℕ) (t : Task) (w : World)
    → e < length w.executors
    → executor_at e (submit e t w)
      ≡ record (executor_at e w) { ready = (executor_at e w).ready ++ t ∷ [] }
unfolding submit set_ready
submit_same e t w h = noted_at e (label_of t) (submitted e) _ ∙ put_same e _ w h

pub submit_other :
    (d e : ℕ) (t : Task) (w : World)
    → (e == d) ≡ false
    → executor_at d (submit e t w) ≡ executor_at d w
unfolding submit set_ready
submit_other d e t w n = noted_at d (label_of t) (submitted e) _ ∙ put_other d e _ w n

pub submit_current : (e : ℕ) (t : Task) (w : World) → (submit e t w).current ≡ w.current
unfolding submit set_ready put_executor
submit_current e t w = noted_current (label_of t) (submitted e) _

pub length-submit :
    (e : ℕ) (t : Task) (w : World) → length (submit e t w).executors ≡ length w.executors
unfolding submit set_ready put_executor
length-submit e t w = noted_length (label_of t) (submitted e) _ ∙ length-set w.executors e _

pub length-put_executor :
    (e : ℕ) (x : Executor) (w : World) → length (put_executor e x w).executors ≡ length w.executors
unfolding put_executor
length-put_executor e x w = length-set w.executors e x

-- The executor is one that runs, or waits for its turn, or does neither.
pub wake_up_defers :
    (c e : ℕ) (w : World)
    → w.current ≡ some c
    → (executor_at e w).running ≡ false
    → (executor_at e w).scheduled ≡ false
    → ((executor_at c w).event_loop == (executor_at e w).event_loop) ≡ true
    → wake_up e w ≡ (defer c e w, [])
unfolding wake_up
wake_up_defers c e w cur r s l = rw (cur, r, s, l) refl

pub wake_up_enters :
    (e : ℕ) (o : Option ℕ) (w : World)
    → w.current ≡ o
    → (executor_at e w).running ≡ false
    → (executor_at e w).scheduled ≡ true
    → wake_up e w ≡ (
      enter e (put_executor e (record (executor_at e w) { scheduled = false }) w),
      drain e true o none ∷ [],
    )
unfolding wake_up call_once
wake_up_enters e none w cur r s = rw (cur, r) refl
wake_up_enters e (some c) w cur r s = rw (cur, r, s) refl

abbrev scheduling : ℕ → World → World
scheduling e w = put_executor e (record (executor_at e w) { scheduled = true }) w

pub defer_same :
    (c e : ℕ) (w : World)
    → (c == e) ≡ false
    → e < length w.executors
    → executor_at e (defer c e w) ≡ record (executor_at e w) { scheduled = true }
unfolding defer executor_at
defer_same c e w n h = submit_other e c (run_once e) (scheduling e w) n ∙ put_same e _ w h

pub defer_ready :
    (c e : ℕ) (w : World)
    → (e == c) ≡ false
    → c < length w.executors
    → (executor_at c (defer c e w)).ready ≡ (executor_at c w).ready ++ run_once e ∷ []
unfolding defer executor_at put_executor
defer_ready c e w n h =
    let y = record (executor_at e w) { scheduled = true } in
    ap (λ (x : Executor). x.ready)
      (submit_same c (run_once e) (put_executor e y w)
        (omega (arith, h, length-set w.executors e y)))
    ∙ ap (λ (x : Executor). x.ready ++ run_once e ∷ []) (put_other c e y w n)

pub defer_current : (c e : ℕ) (w : World) → (defer c e w).current ≡ w.current
unfolding defer put_executor
defer_current c e w = submit_current c (run_once e) (scheduling e w)

pub submit_fault : (e : ℕ) (t : Task) (w : World) → (submit e t w).fault ≡ w.fault
unfolding submit set_ready put_executor
submit_fault e t w = noted_fault (label_of t) (submitted e) _

-- A current executor that runs is no fault.
pub defer_fault :
    (c e : ℕ) (w : World)
    → (e == c) ≡ false
    → c < length w.executors
    → (executor_at c w).running ≡ true
    → (defer c e w).fault ≡ w.fault
unfolding defer executor_at
defer_fault c e w n h r =
    let w' = scheduling e w in
    let at : (executor_at c (submit c (run_once e) w')).running ≡ true =
      ap (λ (x : Executor). x.running)
        (submit_same c (run_once e) w' (subst (λ l. c < l) (sym (length-put_executor e _ w)) h)
          ∙ ap (λ (x : Executor). record x { ready = x.ready ++ run_once e ∷ [] })
              (put_other c e _ w n))
      ∙ r in
    rw at (or_false (submit c (run_once e) w').fault ∙ submit_fault c (run_once e) w')

pub length-defer : (c e : ℕ) (w : World) → length (defer c e w).executors ≡ length w.executors
unfolding defer put_executor
length-defer c e w = length-submit c (run_once e) (scheduling e w) ∙ length-set w.executors e _
