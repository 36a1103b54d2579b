-- ===== src/CbPortal/Cancel.antt =====
-- A request to cancel that meets the initiate function at work (CBPortal.h).
use hf_qcorral.Prelude.{
  ℕ, ◌+◌, ◌≡◌, refl, sym, ap, subst, ◌∙◌, Bool, true, false, not, ◌&&◌, ◌||◌, Option, none, some,
  List, [], ◌∷◌, if◌then◌else◌, if_cases, arith,
}
use hf_qcorral.CbPortal.Delivery.{woken}
use hf_qcorral.CbPortal.{
  has_value, await_ready, initiated, in_proxy, cancelled, Proxy, make, resume_consumer,
  run_consumer, wake, cancel_at, cancel_initiated, await_cancel, Action, is_cancel_pending, acts,
  await_early_cancel, finish_initiate, initiate,
}
use hf_qcorral.CbPortal.Held.{
  first_call, is_asked, IsHeld, IsGiven, AfterActions, acts-AfterActions,
}

-- How `await_suspend` of the proxy has ended.
abbrev pub AfterInitiate : (external fn asked : Bool) → Option ℕ → Proxy → Type 0
AfterInitiate external fn asked none s =
    (s.received ≡ [])
    × (if asked && (external || fn)
        then (s.consumer ≡ cancelled) × (s.cancel_calls ≡ (if fn then 1 else 0))
        else (s.consumer ≡ in_proxy) × (has_value s.portal.parent ≡ true) × (s.cancel_calls ≡ 0))
AfterInitiate external fn asked (some v) s =
    ((rest : List ℕ) × (s.received ≡ v ∷ rest)) × (s.cancel_calls ≡ 0)

-- A task that is woken without a result.
unserved :
    (s : Proxy)
    → s.portal.value ≡ none
    → has_value s.portal.parent ≡ true
    → wake s ≡ record s { portal = record s.portal { parent = none }; consumer = cancelled }
unfolding wake run_consumer
unserved s e h =
    woken s.portal.parent (record s { portal = record s.portal { parent = none } }) h
    ∙ if_cases
        (λ t. t ≡ record s { portal = record s.portal { parent = none }; consumer = cancelled })
        (await_ready s.portal)
        (resume_consumer (record s { portal = record s.portal { parent = none } }))
        (record s { portal = record s.portal { parent = none }; consumer = cancelled })
        (λ r. absurd (ground (arith, ap has_value e, r))) (λ _. refl)

woken_cancelled :
    (s : Proxy) (n : ℕ)
    → s.portal.value ≡ none
    → has_value s.portal.parent ≡ true
    → s.received ≡ []
    → s.cancel_calls ≡ n
    → let t = wake s in (t.received ≡ []) × ((t.consumer ≡ cancelled) × (t.cancel_calls ≡ n))
woken_cancelled s n e h r c =
    subst (λ (t : Proxy). (t.received ≡ []) × ((t.consumer ≡ cancelled) × (t.cancel_calls ≡ n)))
      (sym (unserved s e h)) (r, (refl, c))

-- The request reaches a proxy that can be cancelled.
cancelled_held :
    (external fn : Bool) (s : Proxy)
    → (external || fn) ≡ true
    → IsHeld external fn true s
    → let t = cancel_initiated (record s { status = initiated }) in
      (t.received ≡ []) × ((t.consumer ≡ cancelled) × (t.cancel_calls ≡ (if fn then 1 else 0)))
unfolding cancel_initiated
cancelled_held external fn s e i =
    let n : ℕ = if s.cancel_fn then s.cancel_calls + 1 else s.cancel_calls in
    if_cases
      (λ (t : Proxy).
        (t.received ≡ []) × ((t.consumer ≡ cancelled) × (t.cancel_calls ≡ (if fn then 1 else 0))))
      (not s.external && not s.cancel_fn) (record s { status = initiated })
      (wake (record s { status = initiated; cancel_calls = n }))
      (λ f. absurd (ground (arith, f, i.external_same, i.fn_same, e)))
      (λ _.
        woken_cancelled (record s { status = initiated; cancel_calls = n }) (if fn then 1 else 0)
          i.value i.parent i.received
          (ap (λ b. if b then s.cancel_calls + 1 else s.cancel_calls) i.fn_same
            ∙ ap (λ k. if fn then k + 1 else k) i.uncancelled))

finish_asked :
    (external fn : Bool) (s : Proxy)
    → IsHeld external fn true s
    → AfterInitiate external fn true none (cancel_initiated (record s { status = initiated }))
unfolding cancel_initiated
finish_asked false false s i =
    rw (i.external_same, i.fn_same) (i.received, (i.consumer, i.parent, i.uncancelled))
finish_asked true false s i = cancelled_held true false s refl i
finish_asked false true s i = cancelled_held false true s refl i
finish_asked true true s i = cancelled_held true true s refl i

finish_held :
    (external fn q : Bool) (s : Proxy)
    → IsHeld external fn q s
    → AfterInitiate external fn q none (finish_initiate s)
unfolding finish_initiate await_cancel cancel_at
finish_held external fn true s i =
    if_cases (AfterInitiate external fn true none) s.completed _ _ (λ c. cc (c, i.completed))
      (λ _.
        if_cases (AfterInitiate external fn true none)
          (is_cancel_pending s.status && has_value s.portal.parent)
          (await_cancel (record s { status = initiated })) (record s { status = initiated })
          (λ _. finish_asked external fn s i)
          (λ n. absurd (ground (arith, n, ap is_cancel_pending i.status, i.parent))))
finish_held external fn false s i =
    if_cases (AfterInitiate external fn false none) s.completed _ _ (λ c. cc (c, i.completed))
      (λ _.
        if_cases (AfterInitiate external fn false none)
          (is_cancel_pending s.status && has_value s.portal.parent)
          (await_cancel (record s { status = initiated })) (record s { status = initiated })
          (λ n. absurd (ground (arith, n, ap is_cancel_pending i.status)))
          (λ _. (i.received, (i.consumer, i.parent, i.uncancelled))))

finish_given :
    (external fn q : Bool) (v : ℕ) (s : Proxy)
    → IsGiven v s
    → AfterInitiate external fn q (some v) (finish_initiate s)
unfolding finish_initiate
finish_given external fn q v s g =
    if_cases (AfterInitiate external fn q (some v)) s.completed _ _
      (λ _. (g.received, g.uncancelled)) (λ n. cc (n, g.completed))

after_initiate :
    (external fn q : Bool) (more : List Action) (s : Proxy) (o : Option ℕ)
    → AfterActions external fn q more o s
    → AfterInitiate external fn (q || is_asked more) o (finish_initiate s)
unfolding AfterActions
after_initiate external fn q more s none h = finish_held external fn (q || is_asked more) s h
after_initiate external fn q more s (some v) h = finish_given external fn (q || is_asked more) v s h

-- The proxy of a task that was asked to cancel before it awaited (`early`), which skips a proxy with
-- its own portal.
abbrev pub begun : (external fn early : Bool) → Proxy
begun external fn early =
    if external && early then (await_early_cancel (make external fn)).1 else make external fn

held_initiate :
    (external fn q : Bool) (during : List Action) (s : Proxy)
    → IsHeld external fn q s
    → AfterInitiate external fn
        (q || is_asked during)
        (first_call during)
        (finish_initiate (acts during s))
held_initiate external fn q during s i =
    after_initiate external fn q during (acts during s) (first_call during)
      (acts-AfterActions external fn q during s i)

-- While an initiate function is at work, a cancellation waits for it. If the function calls its
-- callback, then the first call reaches the task, whatever requests to cancel came before or
-- come after, and the cancel function is not called. If it does not, and the task was asked to
-- cancel before or while the function was at work, then the task is cancelled when the function
-- returns, and the cancel function is called once if there is one; but if the proxy has its own
-- portal and no cancel function, or nobody asked, the task waits on.
pub initiate_outcome :
    (external fn early : Bool) (during : List Action)
    → AfterInitiate external fn
        ((external && early) || is_asked during)
        (first_call during)
        (initiate during (begun external fn early))
unfolding initiate make await_early_cancel
initiate_outcome true fn true during = held_initiate true fn true during _ record {
  external_same = refl;
  fn_same = refl;
  consumer = refl;
  value = refl;
  parent = refl;
  completed = refl;
  uncancelled = refl;
  received = refl;
  status = refl;
}
initiate_outcome true fn false during = held_initiate true fn false during _ record {
  external_same = refl;
  fn_same = refl;
  consumer = refl;
  value = refl;
  parent = refl;
  completed = refl;
  uncancelled = refl;
  received = refl;
  status = refl;
}
initiate_outcome false fn true during = held_initiate false fn false during _ record {
  external_same = refl;
  fn_same = refl;
  consumer = refl;
  value = refl;
  parent = refl;
  completed = refl;
  uncancelled = refl;
  received = refl;
  status = refl;
}
initiate_outcome false fn false during = held_initiate false fn false during _ record {
  external_same = refl;
  fn_same = refl;
  consumer = refl;
  value = refl;
  parent = refl;
  completed = refl;
  uncancelled = refl;
  received = refl;
  status = refl;
}
