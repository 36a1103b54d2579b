-- ===== src/Executor/Fifo.antt =====
-- Every step keeps the order of an executor's queue (Executor.h).
use hf_qcorral.Prelude.{
  ℕ, ◌≡◌, refl, sym, ap, ap₂, ◌∙◌, List, [], ◌∷◌, ◌++◌, append_assoc, ◌==◌, length, length-set,
  arith,
}
use hf_qcorral.Executor.{
  Task, Mark, submitted, started, World, executor_at, put_executor, set_ready, label_of, note,
  submit,
}
use hf_qcorral.Executor.Order.{listed, waiting, submissions, starts_of, IsOrdered}
use hf_qcorral.Executor.Noted.{
  only, submissions_noted, starts_noted, noted_ready, submitted_ready, taken_ready, noted_submitted,
  noted_started, noted_length,
}

length-set_ready :
    (d : ℕ) (ts : List Task) (w : World) → length (set_ready d ts w).executors ≡ length w.executors
unfolding set_ready put_executor
length-set_ready d ts w = length-set w.executors d (record (executor_at d w) { ready = ts })

logged_ready :
    {A : Type 0} (d : ℕ) (ts : List Task) (w : World) (f : List Mark → A)
    → f (set_ready d ts w).log ≡ f w.log
unfolding set_ready put_executor
logged_ready d ts w f = refl

pub submit-IsOrdered : (e d : ℕ) (t : Task) (w : World) → IsOrdered e w → IsOrdered e (submit d t w)
unfolding submit
submit-IsOrdered e d t w i =
    let ts = (executor_at d w).ready ++ t ∷ [] in
    let w' = set_ready d ts w in
    let new = only (d == e) (listed (label_of t)) in
    record {
      here =
          omega
            (arith, i.here, noted_length (label_of t) (submitted d) w', length-set_ready d ts w);
      order =
          ap₂ (λ ls ms. ls ++ ms)
            (noted_submitted e d (label_of t) w' ∙ logged_ready d ts w (starts_of e))
            (ap waiting (noted_ready e (label_of t) (submitted d) w')
              ∙ submitted_ready e d t w i.here)
          ∙ sym (append_assoc (starts_of e w.log) (waiting (executor_at e w).ready) new)
          ∙ ap (λ ls. ls ++ new) i.order
          ∙ sym (
              submissions_noted e d (label_of t) w'
              ∙ ap (λ ls. ls ++ new) (logged_ready d ts w (submissions e)));
    }

-- The first of the queue is taken from it.
pub take-IsOrdered :
    (e d : ℕ) (t : Task) (ts : List Task) (w : World)
    → (executor_at d w).ready ≡ t ∷ ts
    → IsOrdered e w
    → IsOrdered e (note (label_of t) (started d) (set_ready d ts w))
take-IsOrdered e d t ts w r i =
    let w' = set_ready d ts w in
    let new = only (d == e) (listed (label_of t)) in
    let left = waiting (executor_at e w').ready in
    record {
      here =
          omega (arith, i.here, noted_length (label_of t) (started d) w', length-set_ready d ts w);
      order =
          ap₂ (λ ls ms. ls ++ ms)
            (starts_noted e d (label_of t) w'
              ∙ ap (λ ls. ls ++ new) (logged_ready d ts w (starts_of e)))
            (ap waiting (noted_ready e (label_of t) (started d) w'))
          ∙ append_assoc (starts_of e w.log) new left
          ∙ ap (◌++◌ (starts_of e w.log)) (sym (taken_ready e d t ts w i.here r))
          ∙ i.order
          ∙ sym (noted_started e d (label_of t) w' ∙ logged_ready d ts w (submissions e));
    }
