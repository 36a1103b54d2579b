-- ===== src/CbPortal/Delivery.antt =====
-- What is passed to the callback of a portal reaches the task that awaits it (CBPortal.h).
use hf_qcorral.Prelude.{
  ℕ, ◌≡◌, refl, sym, ap, ◌∙◌, Bool, true, false, not, ◌&&◌, ◌||◌, Option, none, some, List, [], ◌∷◌,
  ◌++◌, append-nil, append_assoc, if◌then◌else◌, if_cases, arith,
}
use hf_qcorral.CbPortal.{
  has_value, await_ready, emplace, Status, not_started, scheduled, cancel_pending, initiated,
  Consumer, in_proxy, in_portal, elsewhere, cancelled, Proxy, listed, resume_consumer, run_consumer,
  run_handle, wake, call_back, cancel_initiated, cancel_at, await_cancel, Action, calls, requests,
  awaits, is_cancel_pending, request_at, await_portal, await_at, call_at, act, acts,
  finish_initiate, initiate,
}

-- The values that the callback is called with.
abbrev pub called : List Action → List ℕ
called [] = []
called (calls v ∷ more) = v ∷ called more
called (requests ∷ more) = called more
called (awaits ∷ more) = called more

abbrev pub has_fault : Proxy → Bool
has_fault s = s.fault || s.portal.fault

-- While nothing was violated, the task has received these values, but for one that waits for it.
abbrev pub HasFed : List ℕ → Proxy → Type 0
HasFed vs s = has_fault s ≡ false → s.received ++ listed s.portal.value ≡ vs

-- A handle that stands for the task.
pub woken : (h : Option ℕ) (s : Proxy) → has_value h ≡ true → run_handle h s ≡ run_consumer s
woken none s e = cc e
woken (some x) s e = refl

resume_consumer-HasFed : (vs : List ℕ) (s : Proxy) → HasFed vs s → HasFed vs (resume_consumer s)
unfolding resume_consumer
resume_consumer-HasFed vs s h f = append-nil _ ∙ h (ground (arith, f))

run_consumer-HasFed : (vs : List ℕ) (s : Proxy) → HasFed vs s → HasFed vs (run_consumer s)
unfolding run_consumer
run_consumer-HasFed vs s h =
    if_cases (HasFed vs) (await_ready s.portal) _ _ (λ _. resume_consumer-HasFed vs s h) (λ _. h)

wake-HasFed : (vs : List ℕ) (s : Proxy) → HasFed vs s → HasFed vs (wake s)
unfolding wake
wake-HasFed vs s h = by_handle s.portal.parent _ h
  where
    by_handle : (o : Option ℕ) (t : Proxy) → HasFed vs t → HasFed vs (run_handle o t)
    by_handle none t g = g
    by_handle (some x) t g = run_consumer-HasFed vs t g

listed_none : (o : Option ℕ) → has_value o ≡ false → listed o ≡ []
listed_none none e = refl
listed_none (some v) e = cc e

call_back-HasFed :
    (vs : List ℕ) (v : ℕ) (s : Proxy) → HasFed vs s → HasFed (vs ++ v ∷ []) (call_back v s)
unfolding call_back emplace
call_back-HasFed vs v s h =
    wake-HasFed (vs ++ v ∷ []) (record s { portal = emplace v s.portal })
      (λ f.
        let gone : s.portal.value ≡ none = empty s.portal.value (ground (arith, f)) in
        ap (λ ls. ls ++ v ∷ [])
          (sym (append-nil s.received)
            ∙ ap (λ o. s.received ++ listed o) (sym gone)
            ∙ h (ground (arith, f))))
  where
    empty : (o : Option ℕ) → has_value o ≡ false → o ≡ none
    empty none e = refl
    empty (some x) e = cc e

cancel_at-HasFed : (x : Status) (vs : List ℕ) (s : Proxy) → HasFed vs s → HasFed vs (cancel_at x s)
unfolding cancel_at cancel_initiated
cancel_at-HasFed not_started vs s h = λ f. cc f
cancel_at-HasFed scheduled vs s h = h
cancel_at-HasFed cancel_pending vs s h = h
cancel_at-HasFed initiated vs s h =
    if_cases (HasFed vs) (not s.external && not s.cancel_fn) _ _ (λ _. h) (λ _. wake-HasFed vs _ h)

request_at-HasFed :
    (c : Consumer) (vs : List ℕ) (s : Proxy) → HasFed vs s → HasFed vs (request_at c s)
unfolding request_at await_cancel
request_at-HasFed in_proxy vs s h = cancel_at-HasFed s.status vs s h
request_at-HasFed in_portal vs s h = wake-HasFed vs s h
request_at-HasFed elsewhere vs s h = h
request_at-HasFed cancelled vs s h = h

await_at-HasFed : (c : Consumer) (vs : List ℕ) (s : Proxy) → HasFed vs s → HasFed vs (await_at c s)
unfolding await_at await_portal
await_at-HasFed in_proxy vs s h = h
await_at-HasFed in_portal vs s h = h
await_at-HasFed elsewhere vs s h =
    if_cases (HasFed vs) s.asked _ _ (λ _. h)
      (λ _.
        if_cases (HasFed vs) (await_ready s.portal) _ _ (λ _. resume_consumer-HasFed vs s h)
          (λ _. h))
await_at-HasFed cancelled vs s h = h

call_at-HasFed :
    (c : Consumer) (vs : List ℕ) (v : ℕ) (s : Proxy)
    → HasFed vs s
    → HasFed (vs ++ v ∷ []) (call_at c v s)
unfolding call_at
call_at-HasFed in_proxy vs v s h = call_back-HasFed vs v s h
call_at-HasFed in_portal vs v s h = call_back-HasFed vs v s h
call_at-HasFed elsewhere vs v s h = call_back-HasFed vs v s h
call_at-HasFed cancelled vs v s h = λ f. cc f

pub acts-HasFed :
    (more : List Action) (vs : List ℕ) (s : Proxy)
    → HasFed vs s
    → HasFed (vs ++ called more) (acts more s)
unfolding acts act
acts-HasFed [] vs s h = λ f. h f ∙ sym (append-nil vs)
acts-HasFed (calls v ∷ more) vs s h = λ f.
    acts-HasFed more (vs ++ v ∷ []) (call_at s.consumer v s) (call_at-HasFed s.consumer vs v s h) f
    ∙ append_assoc vs (v ∷ []) (called more)
acts-HasFed (requests ∷ more) vs s h =
    let s' = record s { asked = true } in
    acts-HasFed more vs (request_at s.consumer s') (request_at-HasFed s.consumer vs s' h)
acts-HasFed (awaits ∷ more) vs s h =
    acts-HasFed more vs (await_at s.consumer s) (await_at-HasFed s.consumer vs s h)

finish-HasFed : (vs : List ℕ) (s : Proxy) → HasFed vs s → HasFed vs (finish_initiate s)
unfolding finish_initiate await_cancel
finish-HasFed vs s h =
    let s' = record s { status = initiated } in
    let late = is_cancel_pending s.status && has_value s.portal.parent in
    if_cases (HasFed vs) s.completed s (if late then await_cancel s' else s') (λ _. h)
      (λ _.
        if_cases (HasFed vs) late (await_cancel s') s' (λ _. cancel_at-HasFed initiated vs s' h)
          (λ _. h))

pub initiate-HasFed :
    (more : List Action) (s : Proxy) → HasFed [] s → HasFed (called more) (initiate more s)
unfolding initiate
initiate-HasFed more s h =
    finish-HasFed (called more) (acts more _) (acts-HasFed more [] _ (λ f. h (ground (arith, f))))
