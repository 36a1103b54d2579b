-- ===== src/Nursery/Stage.antt =====
-- The stages of a nursery, and how its operations keep them (Nursery.h).
use hf_qcorral.Prelude.{
  ℕ, ◌+◌, ◌%◌, ◌≡◌, refl, sym, ap, ◌∙◌, ◌⊎◌, inl, inr, Bool, true, false, not, ◌&&◌, ◌||◌,
  Bool-cases, if_cases, Option, none, some, List, [], ◌∷◌, ◌++◌, arith, length, length-append, ◌==◌,
  ltb, occurrences, inc_size, dec_size, size_mod,
}
use hf_qcorral.Awaitable.{Exception}
use hf_qcorral.Nursery.{
  Parent, awaiting, Nursery, is_set, is_none, add_task, do_cancel, send_next, cancel,
  cancellation_request, store_exception, erase, open_scope, kept,
}
use hf_qcorral.Nursery.History.{opens, Log, is_possible, apply, resumptions}

-- Nobody awaits the nursery; a parent does, and there are tasks; or it is closed, and its parent was
-- resumed, or the executor is about to do so. `pending` counts these resumptions.
abbrev pub Stage : Bool → Option Parent → List ℕ → ℕ → Type 0
Stage executor parent tasks pending =
    ((executor ≡ true) × (parent ≡ none) × (pending ≡ 0))
    ⊎ ((executor ≡ true) × (is_set parent ≡ true) × (is_none tasks ≡ false) × (pending ≡ 0))
    ⊎ ((executor ≡ false) × (parent ≡ none) × (tasks ≡ []) × (pending ≡ 1))

pub record IsSound (l : Log) : Type 0 where
  pub stage :
      Stage l.nursery.executor l.nursery.parent l.nursery.tasks
        (l.resumed + resumptions l.nursery.scheduled)
  pub counted : l.nursery.task_count ≡ length l.nursery.tasks % size_mod
  pub no_fault : l.nursery.fault ≡ false

-- The tasks may have terminated the program.
abbrev pub IsAlive : Log → Type 0
IsAlive l = (l.nursery.terminated ≡ true) ⊎ IsSound l

pub length-erase :
    (t : ℕ) (ts : List ℕ) → ltb 0 (occurrences t ts) ≡ true → length ts ≡ length (erase t ts) + 1
unfolding erase
length-erase t [] h = absurd (ground arith)
length-erase t (u ∷ us) h = elim (Bool-cases (u == t)) [
  | inl e ↦ rw e (omega arith)
  | inr e ↦ rw e (omega (arith, length-erase t us (ground (arith, e, h))))
]

pub not_none : (t : ℕ) (ts : List ℕ) → is_none (ts ++ t ∷ []) ≡ false
not_none t [] = refl
not_none t (u ∷ us) = refl

pub inc-counted : (c m : ℕ) → c ≡ m % size_mod → inc_size c ≡ (m + 1) % size_mod
inc-counted c m e = omega arith

pub dec-counted : (c m : ℕ) → c ≡ (m + 1) % size_mod → dec_size c ≡ m % size_mod
dec-counted c m e = omega arith

pub add-Stage :
    (e : Bool) (p : Option Parent) (ts : List ℕ) (k t : ℕ)
    → e ≡ true
    → Stage e p ts k
    → Stage e p (ts ++ t ∷ []) k
add-Stage e p ts k t h (inl s) = inl s
add-Stage e p ts k t h (inr (inl (x, y, z, w))) = inr (inl (x, y, not_none t ts, w))
add-Stage e p ts k t h (inr (inr s)) = cc (h, s.0)

pub add_task-IsSound :
    (t : ℕ) (l : Log)
    → l.nursery.executor ≡ true
    → IsSound l
    → IsSound (record l {
      nursery = (add_task t l.nursery).0;
      started = l.started ++ t ∷ [];
      sent = l.sent ++ (add_task t l.nursery).1;
    })
unfolding add_task
add_task-IsSound t l h s =
    let n = l.nursery in
    record {
      stage =
          add-Stage n.executor n.parent n.tasks (l.resumed + resumptions n.scheduled) t h s.stage;
      counted =
          inc-counted n.task_count (length n.tasks) s.counted
          ∙ ap (λ m. m % size_mod) (sym (length-append n.tasks (t ∷ [])));
      no_fault = ground (arith, s.no_fault, h);
    }

pub open_scope-IsSound :
    (h t : ℕ) (l : Log)
    → is_possible (opens h t) l ≡ true
    → IsSound l
    → IsSound (apply (opens h t) l)
unfolding apply open_scope add_task
open_scope-IsSound h t l e s =
    let n = l.nursery in
    record {
      stage =
          opened n.executor n.parent n.tasks (l.resumed + resumptions n.scheduled)
            (ground (arith, e)) s.stage;
      counted =
          inc-counted n.task_count (length n.tasks) s.counted
          ∙ ap (λ m. m % size_mod) (sym (length-append n.tasks (t ∷ [])));
      no_fault = ground (arith, s.no_fault, e);
    }
  where
    opened :
        (e : Bool) (p : Option Parent) (ts : List ℕ) (k : ℕ)
        → (e && not (is_set p)) ≡ true
        → Stage e p ts k
        → Stage e (some (awaiting h)) (ts ++ t ∷ []) k
    opened e p ts k g (inl (x, y, w)) = inr (inl (x, refl, not_none t ts, w))
    opened e p ts k g (inr (inl (x, y, z, w))) = absurd (ground (arith, g, y))
    opened e p ts k g (inr (inr s)) = absurd (ground (arith, g, s.0))

-- Two states that differ at most in what is cancelled, and why.
abbrev pub Unmoved : Nursery → Nursery → Type 0
Unmoved n n' =
    (n'.executor ≡ n.executor)
    × (n'.parent ≡ n.parent)
    × (n'.tasks ≡ n.tasks)
    × (n'.task_count ≡ n.task_count)
    × (n'.scheduled ≡ n.scheduled)
    × (n'.fault ≡ n.fault)

pub Unmoved-refl : (n : Nursery) → Unmoved n n
Unmoved-refl n = (refl, refl, refl, refl, refl, refl)

pub Unmoved-IsSound :
    (l l' : Log) → Unmoved l.nursery l'.nursery → l'.resumed ≡ l.resumed → IsSound l → IsSound l'
Unmoved-IsSound l l' (executor, parent, tasks, task_count, scheduled, fault) e s = record {
  stage = rw (executor, parent, tasks, scheduled, e) s.stage;
  counted = rw (task_count, tasks) s.counted;
  no_fault = fault ∙ s.no_fault;
}

pub do_cancel-Unmoved : (n : Nursery) → Unmoved n (do_cancel n)
unfolding do_cancel
do_cancel-Unmoved n =
    if_cases (Unmoved n) (not n.executor || is_none n.tasks) _ _ (λ _. Unmoved-refl n)
      (λ _. Unmoved-refl n)

pub cancel-Unmoved : (n : Nursery) → Unmoved n (cancel n)
unfolding cancel
cancel-Unmoved n =
    if_cases (Unmoved n) (is_set n.exception) _ _ (λ _. Unmoved-refl n)
      (λ _. do_cancel-Unmoved (record n { exception = some cancellation_request }))

pub send_next-Unmoved : (ts : List ℕ) (n : Nursery) → Unmoved n (send_next ts n).0
unfolding send_next
send_next-Unmoved [] n = Unmoved-refl n
send_next-Unmoved (t ∷ ts) n = Unmoved-refl n

pub store_exception-Unmoved : (ex : Exception) (n : Nursery) → Unmoved n (store_exception ex n)
unfolding store_exception
store_exception-Unmoved ex n =
    let n' = record n { exception = kept n.exception ex } in
    if_cases (Unmoved n) (not (is_set n.parent)) _ _ (λ _. Unmoved-refl n)
      (λ _.
        if_cases (Unmoved n) (not (is_set n.exception)) _ _ (λ _. do_cancel-Unmoved n')
          (λ _. Unmoved-refl n))
