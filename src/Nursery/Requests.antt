-- ===== src/Nursery/Requests.antt =====
-- Which tasks of a nursery a request to cancel reaches (Nursery.h).
use hf_qcorral.Prelude.{
  ℕ, ◌+◌, ◌≡◌, refl, ◌⊎◌, inl, inr, Bool, true, false, not, ◌||◌, if_cases, Option, none, some,
  List, [], ◌∷◌, ◌++◌, arith, ◌==◌, if◌then◌else◌, occurrences, occurrences-append,
}
use hf_qcorral.Awaitable.{Exception}
use hf_qcorral.Nursery.{
  Cause, cancellation_request, raised, Parent, Nursery, is_set, is_none, add_task, do_cancel,
  cancel, store_exception, kept,
}
use hf_qcorral.Nursery.History.{Log, destructions}
use hf_qcorral.Nursery.Fate.{Fate-add, Fate-cancel, occurrences-one, is_new, Fate, IsReached}

pub add-IsReached :
    (t u : ℕ) (l : Log) (p : Option Parent)
    → l.nursery.executor ≡ true
    → (occurrences u l.started == 0) ≡ true
    → IsReached t l
    → let (n, ts) = add_task u (record l.nursery { parent = p }) in
      IsReached t (record l { nursery = n; started = l.started ++ u ∷ []; sent = l.sent ++ ts })
unfolding add_task
add-IsReached t u l p e h f =
    let n = l.nursery in
    let told : occurrences t (if is_set n.exception then u ∷ [] else [])
        ≡ (if is_set n.exception then occurrences t (u ∷ []) else 0) =
      ground arith in
    rw
      (
        occurrences-append t (u ∷ []) l.started,
        occurrences-append t (u ∷ []) n.tasks,
        occurrences-append t (if is_set n.exception then u ∷ [] else []) l.sent,
        told,
      )
      (Fate-add n.executor (is_set n.exception) (occurrences t l.started) (occurrences t n.tasks)
        (occurrences t n.captured) (occurrences t l.sent) (destructions t n.scheduled)
        (occurrences t l.destroyed) (occurrences t (u ∷ []))
        (omega (arith, occurrences-one t u, is_new t u l.started h f.fresh)) e f)

pub nobody :
    (t : ℕ) (e : Bool) (ts : List ℕ)
    → (not e || is_none ts) ≡ true
    → (e ≡ true) ⊎ (occurrences t ts ≡ 0)
    → occurrences t ts ≡ 0
nobody t e [] h c = refl
nobody t e (u ∷ us) h (inl o) = absurd (ground (arith, h, o))
nobody t e (u ∷ us) h (inr o) = o

-- The first request to cancel.
do_cancel-IsReached :
    (t : ℕ) (l : Log) (c : Cause) (p : Option Parent)
    → is_set l.nursery.exception ≡ false
    → IsReached t l
    → IsReached t
        (record l { nursery = do_cancel (record l.nursery { parent = p; exception = some c }) })
unfolding do_cancel
do_cancel-IsReached t l c p h f =
    let n = l.nursery in
    let all : Fate n.executor true (occurrences t l.started) (occurrences t n.tasks)
        (occurrences t n.captured + occurrences t n.tasks) (occurrences t l.sent)
        (destructions t n.scheduled) (occurrences t l.destroyed) =
      Fate-cancel n.executor (occurrences t l.started) (occurrences t n.tasks)
        (occurrences t n.captured) (occurrences t l.sent) (destructions t n.scheduled)
        (occurrences t l.destroyed) (rw h at f) in
    if_cases (λ (m : Nursery). IsReached t (record l { nursery = m }))
      (not n.executor || is_none n.tasks) _ _
      (λ v.
        let none_more : occurrences t n.captured + occurrences t n.tasks
            ≡ occurrences t n.captured =
          omega (arith, nobody t n.executor n.tasks v f.closed) in
        rw none_more at all)
      (λ _. rw (occurrences-append t n.tasks n.captured) all)

-- A change that is none for cancellation.
pub cancel-IsReached :
    (t : ℕ) (l : Log) (p : Option Parent)
    → IsReached t l
    → IsReached t (record l { nursery = cancel (record l.nursery { parent = p }) })
unfolding cancel
cancel-IsReached t l p f =
    if_cases (λ (m : Nursery). IsReached t (record l { nursery = m })) (is_set l.nursery.exception)
      _ _ (λ _. f) (λ v. do_cancel-IsReached t l cancellation_request p v f)

kept_first : (o : Option Cause) (ex : Exception) → is_set o ≡ false → kept o ex ≡ some (raised ex)
unfolding kept
kept_first none ex h = refl
kept_first (some c) ex h = cc

kept_later : (o : Option Cause) (ex : Exception) → is_set o ≡ true → is_set (kept o ex) ≡ is_set o
unfolding kept
kept_later none ex h = cc
kept_later (some cancellation_request) ex h = refl
kept_later (some (raised first)) ex h = refl

pub store_exception-IsReached :
    (t : ℕ) (ex : Exception) (l : Log)
    → IsReached t l
    → IsReached t (record l { nursery = store_exception ex l.nursery })
unfolding store_exception
store_exception-IsReached t ex l f =
    let n = l.nursery in
    if_cases (λ (m : Nursery). IsReached t (record l { nursery = m })) (not (is_set n.parent)) _ _
      (λ _. f)
      (λ _.
        if_cases (λ (m : Nursery). IsReached t (record l { nursery = m }))
          (not (is_set n.exception)) _ _
          (λ v.
            rw (kept_first n.exception ex (ground (arith, v)))
              (do_cancel-IsReached t l (raised ex) n.parent (ground (arith, v)) f))
          (λ v. rw (kept_later n.exception ex (ground (arith, v))) f))
