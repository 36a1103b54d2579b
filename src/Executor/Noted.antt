-- ===== src/Executor/Noted.antt =====
-- How a queue and the log change with a submission (Executor.h).
use hf_qcorral.Prelude.{
  ℕ, ◌<◌, ◌≡◌, refl, sym, ap, subst, ◌∙◌, inl, inr, Bool, false, Bool-cases, Option, none, some,
  List, [], ◌∷◌, ◌++◌, append-nil, append_assoc, ◌==◌, if◌then◌else◌, if_cases, length, length-set,
  arith,
}
use hf_qcorral.Executor.{
  Task, Executor, Mark, submitted, started, World, executor_at, put_executor, set_ready, label_of,
  note,
}
use hf_qcorral.Executor.Running.{put_same, put_other, put_kept}
use hf_qcorral.Executor.Order.{
  listed, waiting, submissions, starts_of, submissions-append, starts_of-append, IsOrdered,
}

pub put-IsOrdered :
    (e d : ℕ) (y : Executor) (w : World)
    → y.ready ≡ (executor_at d w).ready
    → IsOrdered e w
    → IsOrdered e (put_executor d y w)
unfolding put_executor
put-IsOrdered e d y w h i = record {
  here = omega (arith, i.here, length-set w.executors d y);
  order = ap (λ ts. starts_of e w.log ++ waiting ts) (put_kept (λ x. x.ready) e d y w h) ∙ i.order;
}

pub set_ready-IsOrdered :
    (e d : ℕ) (ts : List Task) (w : World)
    → (d == e) ≡ false
    → IsOrdered e w
    → IsOrdered e (set_ready d ts w)
unfolding set_ready put_executor
set_ready-IsOrdered e d ts w n i =
    let y = record (executor_at d w) { ready = ts } in
    record {
      here = omega (arith, i.here, length-set w.executors d y);
      order =
          ap (λ (x : Executor). starts_of e w.log ++ waiting x.ready) (put_other e d y w n)
          ∙ i.order;
    }

-- What is in the list, if the executor is the one that is looked at.
abbrev pub only : Bool → List ℕ → List ℕ
only b ls = if b then ls else []

pub submissions_noted :
    (e d : ℕ) (o : Option ℕ) (w : World)
    → submissions e (note o (submitted d) w).log ≡ submissions e w.log ++ only (d == e) (listed o)
submissions_noted e d none w =
    if_cases (λ ls. submissions e w.log ≡ submissions e w.log ++ ls) (d == e) _ _
      (λ _. sym (append-nil _)) (λ _. sym (append-nil _))
submissions_noted e d (some l) w =
    submissions-append e w.log (submitted d l ∷ [])
    ∙ ap (◌++◌ (submissions e w.log)) (append-nil (only (d == e) (l ∷ [])))

pub starts_noted :
    (e d : ℕ) (o : Option ℕ) (w : World)
    → starts_of e (note o (started d) w).log ≡ starts_of e w.log ++ only (d == e) (listed o)
starts_noted e d none w =
    if_cases (λ ls. starts_of e w.log ≡ starts_of e w.log ++ ls) (d == e) _ _
      (λ _. sym (append-nil _)) (λ _. sym (append-nil _))
starts_noted e d (some l) w =
    starts_of-append e w.log (started d l ∷ [])
    ∙ ap (◌++◌ (starts_of e w.log)) (append-nil (only (d == e) (l ∷ [])))

waiting-append : (ts us : List Task) → waiting (ts ++ us) ≡ waiting ts ++ waiting us
waiting-append [] us = refl
waiting-append (t ∷ ts) us =
    ap (◌++◌ (listed (label_of t))) (waiting-append ts us)
    ∙ sym (append_assoc (listed (label_of t)) (waiting ts) (waiting us))

pub noted_ready :
    (e : ℕ) (o : Option ℕ) (m : ℕ → Mark) (w : World)
    → (executor_at e (note o m w)).ready ≡ (executor_at e w).ready
unfolding executor_at
noted_ready e none m w = refl
noted_ready e (some l) m w = refl

pub submitted_ready :
    (e d : ℕ) (t : Task) (w : World)
    → e < length w.executors
    → waiting (executor_at e (set_ready d ((executor_at d w).ready ++ t ∷ []) w)).ready
      ≡ waiting (executor_at e w).ready ++ only (d == e) (listed (label_of t))
unfolding set_ready
submitted_ready e d t w h =
    let y = record (executor_at d w) { ready = (executor_at d w).ready ++ t ∷ [] } in
    elim (Bool-cases (d == e)) [
      | inl s ↦
          let same : e ≡ d = ground (arith, s) in
          rw s (
            subst
              (λ v.
                waiting (executor_at v (put_executor d y w)).ready
                ≡ waiting (executor_at v w).ready ++ listed (label_of t))
              (sym same)
              (ap (λ (x : Executor). waiting x.ready)
                  (put_same d y w (subst (λ v. v < length w.executors) same h))
                ∙ waiting-append (executor_at d w).ready (t ∷ [])
                ∙ ap (◌++◌ (waiting (executor_at d w).ready)) (append-nil (listed (label_of t)))))
      | inr n ↦
          rw n (ap (λ (x : Executor). waiting x.ready) (put_other e d y w n) ∙ sym (append-nil _))
    ]

pub taken_ready :
    (e d : ℕ) (t : Task) (ts : List Task) (w : World)
    → e < length w.executors
    → (executor_at d w).ready ≡ t ∷ ts
    → waiting (executor_at e w).ready
      ≡ only (d == e) (listed (label_of t)) ++ waiting (executor_at e (set_ready d ts w)).ready
unfolding set_ready
taken_ready e d t ts w h r =
    let y = record (executor_at d w) { ready = ts } in
    elim (Bool-cases (d == e)) [
      | inl s ↦
          let same : e ≡ d = ground (arith, s) in
          rw s (
            subst
              (λ v.
                waiting (executor_at v w).ready
                ≡ listed (label_of t) ++ waiting (executor_at v (put_executor d y w)).ready)
              (sym same)
              (ap waiting r
                ∙ ap (λ (x : Executor). listed (label_of t) ++ waiting x.ready)
                    (sym (put_same d y w (subst (λ v. v < length w.executors) same h)))))
      | inr n ↦ rw n (ap (λ (x : Executor). waiting x.ready) (sym (put_other e d y w n)))
    ]

pub noted_submitted :
    (e d : ℕ) (o : Option ℕ) (w : World)
    → starts_of e (note o (submitted d) w).log ≡ starts_of e w.log
noted_submitted e d none w = refl
noted_submitted e d (some l) w = starts_of-append e w.log (submitted d l ∷ []) ∙ append-nil _

pub noted_started :
    (e d : ℕ) (o : Option ℕ) (w : World)
    → submissions e (note o (started d) w).log ≡ submissions e w.log
noted_started e d none w = refl
noted_started e d (some l) w = submissions-append e w.log (started d l ∷ []) ∙ append-nil _

pub noted_length :
    (o : Option ℕ) (m : ℕ → Mark) (w : World) → length (note o m w).executors ≡ length w.executors
noted_length none m w = refl
noted_length (some l) m w = refl
