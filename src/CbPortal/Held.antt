-- ===== src/CbPortal/Held.antt =====
-- What an initiate function leads to while it is at work (CBPortal.h).
use hf_qcorral.Prelude.{
  ℕ, ◌≡◌, refl, sym, ap, subst, ◌∙◌, append-nil, Bool, true, false, ◌||◌, Option, none, some, List,
  [], ◌∷◌, ◌++◌, if◌then◌else◌, if_cases,
}
use hf_qcorral.CbPortal.{
  Portal, has_value, await_ready, emplace, scheduled, cancel_pending, Consumer, in_proxy, in_portal,
  elsewhere, cancelled, Proxy, listed, resume_consumer, run_consumer, run_handle, wake, call_back,
  cancel_at, await_cancel, Action, calls, requests, awaits, request_at, await_portal, await_at,
  call_at, act, acts,
}

-- The first call of the callback, and whether the task is asked to cancel.
abbrev pub first_call : List Action → Option ℕ
first_call [] = none
first_call (calls v ∷ more) = some v
first_call (requests ∷ more) = first_call more
first_call (awaits ∷ more) = first_call more

abbrev pub is_asked : List Action → Bool
is_asked [] = false
is_asked (calls v ∷ more) = is_asked more
is_asked (requests ∷ more) = true
is_asked (awaits ∷ more) = is_asked more

abbrev is_away : Consumer → Bool
is_away c = elim c [ in_proxy ↦ false | _ ↦ true ]

-- The task waits in the proxy, whose initiate function is at work; `q` is whether it was asked to
-- cancel.
pub record IsHeld (external fn q : Bool) (s : Proxy) : Type 0 where
  pub external_same : s.external ≡ external
  pub fn_same : s.cancel_fn ≡ fn
  pub consumer : s.consumer ≡ in_proxy
  pub value : s.portal.value ≡ none
  pub parent : has_value s.portal.parent ≡ true
  pub completed : s.completed ≡ false
  pub uncancelled : s.cancel_calls ≡ 0
  pub received : s.received ≡ []
  pub status : s.status ≡ (if q then cancel_pending else scheduled)

-- The task was given what the first call passed, and is no longer in the proxy.
pub record IsGiven (v : ℕ) (s : Proxy) : Type 0 where
  pub away : is_away s.consumer ≡ true
  pub completed : s.completed ≡ true
  pub uncancelled : s.cancel_calls ≡ 0
  pub received : (rest : List ℕ) × (s.received ≡ v ∷ rest)

-- A proxy that has more for the task, which is away.
IsGiven-more :
    (v : ℕ) (s : Proxy) (t : Proxy)
    → IsGiven v s
    → is_away t.consumer ≡ true
    → t.completed ≡ true
    → t.cancel_calls ≡ s.cancel_calls
    → (ls : List ℕ) × (t.received ≡ s.received ++ ls)
    → IsGiven v t
IsGiven-more v s t g c d e (ls, r) =
    let (rest, h) = g.received in
    record {
      away = c;
      completed = d;
      uncancelled = e ∙ g.uncancelled;
      received = (rest ++ ls, r ∙ ap (λ xs. xs ++ ls) h);
    }

portal-IsGiven :
    (v : ℕ) (s : Proxy) (p : Portal) → IsGiven v s → IsGiven v (record s { portal = p })
portal-IsGiven v s p g = record {
  away = g.away;
  completed = g.completed;
  uncancelled = g.uncancelled;
  received = g.received;
}

wake-IsGiven : (v : ℕ) (s : Proxy) → IsGiven v s → IsGiven v (wake s)
unfolding wake run_consumer resume_consumer
wake-IsGiven v s g =
    by_handle s.portal.parent (record s { portal = record s.portal { parent = none } })
      (portal-IsGiven v s _ g)
  where
    by_handle : (o : Option ℕ) (t : Proxy) → IsGiven v t → IsGiven v (run_handle o t)
    by_handle none t k = k
    by_handle (some x) t k =
        if_cases (IsGiven v) (await_ready t.portal) _ _
          (λ _. IsGiven-more v t _ k refl refl refl (listed t.portal.value, refl))
          (λ _. IsGiven-more v t _ k refl k.completed refl ([], sym (append-nil _)))

call_at-IsGiven :
    (c : Consumer) (v x : ℕ) (s : Proxy)
    → is_away c ≡ true
    → IsGiven v s
    → IsGiven v (call_at c x s)
unfolding call_at call_back
call_at-IsGiven in_proxy v x s h g = cc h
call_at-IsGiven in_portal v x s h g = wake-IsGiven v _ (portal-IsGiven v s (emplace x s.portal) g)
call_at-IsGiven elsewhere v x s h g = wake-IsGiven v _ (portal-IsGiven v s (emplace x s.portal) g)
call_at-IsGiven cancelled v x s h g =
    IsGiven-more v s (record s { fault = true }) g g.away g.completed refl ([], sym (append-nil _))

request_at-IsGiven :
    (c : Consumer) (v : ℕ) (s : Proxy) → is_away c ≡ true → IsGiven v s → IsGiven v (request_at c s)
unfolding request_at
request_at-IsGiven in_proxy v s h g = cc h
request_at-IsGiven in_portal v s h g = wake-IsGiven v s g
request_at-IsGiven elsewhere v s h g = g
request_at-IsGiven cancelled v s h g = g

await_at-IsGiven : (c : Consumer) (v : ℕ) (s : Proxy) → IsGiven v s → IsGiven v (await_at c s)
unfolding await_at await_portal resume_consumer
await_at-IsGiven in_proxy v s g = g
await_at-IsGiven in_portal v s g = g
await_at-IsGiven elsewhere v s g =
    if_cases (IsGiven v) s.asked _ _
      (λ _. IsGiven-more v s _ g refl g.completed refl ([], sym (append-nil _)))
      (λ _.
        if_cases (IsGiven v) (await_ready s.portal) _ _
          (λ _. IsGiven-more v s _ g refl refl refl (listed s.portal.value, refl))
          (λ _. IsGiven-more v s _ g refl g.completed refl ([], sym (append-nil _))))
await_at-IsGiven cancelled v s g = g

acts-IsGiven : (v : ℕ) (more : List Action) (s : Proxy) → IsGiven v s → IsGiven v (acts more s)
unfolding acts act
acts-IsGiven v [] s g = g
acts-IsGiven v (calls x ∷ more) s g =
    acts-IsGiven v more _ (call_at-IsGiven s.consumer v x s g.away g)
acts-IsGiven v (requests ∷ more) s g =
    let s' = record s { asked = true } in
    acts-IsGiven v more (request_at s.consumer s') (
      request_at-IsGiven s.consumer v s' g.away record {
        away = g.away;
        completed = g.completed;
        uncancelled = g.uncancelled;
        received = g.received;
      })
acts-IsGiven v (awaits ∷ more) s g = acts-IsGiven v more _ (await_at-IsGiven s.consumer v s g)

request-IsHeld :
    (external fn q : Bool) (s : Proxy)
    → IsHeld external fn q s
    → IsHeld external fn true (request_at s.consumer (record s { asked = true }))
unfolding request_at await_cancel cancel_at
request-IsHeld external fn q s i =
    subst (λ c. IsHeld external fn true (request_at c (record s { asked = true }))) (sym i.consumer)
      (subst (λ x. IsHeld external fn true (cancel_at x (record s { asked = true }))) (sym i.status)
        (by_request q))
  where
    by_request :
        (b : Bool)
        → IsHeld external fn true
            (cancel_at (if b then cancel_pending else scheduled) (record s { asked = true }))
    by_request true = record {
      external_same = i.external_same;
      fn_same = i.fn_same;
      consumer = i.consumer;
      value = i.value;
      parent = i.parent;
      completed = i.completed;
      uncancelled = i.uncancelled;
      received = i.received;
      status = refl;
    }
    by_request false = record {
      external_same = i.external_same;
      fn_same = i.fn_same;
      consumer = i.consumer;
      value = i.value;
      parent = i.parent;
      completed = i.completed;
      uncancelled = i.uncancelled;
      received = i.received;
      status = refl;
    }

await_held : (s : Proxy) → s.consumer ≡ in_proxy → await_at s.consumer s ≡ s
unfolding await_at
await_held s e = rw (e, await_at) refl

call_held :
    (external fn q : Bool) (v : ℕ) (s : Proxy)
    → IsHeld external fn q s
    → IsGiven v (call_at s.consumer v s)
unfolding call_at call_back wake emplace run_consumer resume_consumer
call_held external fn q v s i =
    subst (λ c. IsGiven v (call_at c v s)) (sym i.consumer) (woken s.portal.parent i.parent)
  where
    woken :
        (o : Option ℕ)
        → has_value o ≡ true
        → IsGiven v (
            run_handle o (record s {
              portal = record {
                value = some v;
                parent = none;
                fault = s.portal.fault || has_value s.portal.value;
              };
            }))
    woken none h = cc h
    woken (some x) h = record {
      away = refl;
      completed = refl;
      uncancelled = i.uncancelled;
      received = ([], ap (λ ls. ls ++ v ∷ []) i.received);
    }

-- What the initiate function has led to.
unfoldable pub AfterActions : (external fn q : Bool) → List Action → Option ℕ → Proxy → Type 0
AfterActions external fn q more none s = IsHeld external fn (q || is_asked more) s
AfterActions external fn q more (some v) s = IsGiven v s

or_false : (q : Bool) → q ≡ (q || false)
or_false true = refl
or_false false = refl

or_true : (q : Bool) → true ≡ (q || true)
or_true true = refl
or_true false = refl

pub acts-AfterActions :
    (external fn q : Bool) (more : List Action) (s : Proxy)
    → IsHeld external fn q s
    → AfterActions external fn q more (first_call more) (acts more s)
unfolding acts act AfterActions
acts-AfterActions external fn q [] s i = subst (λ b. IsHeld external fn b s) (or_false q) i
acts-AfterActions external fn q (calls v ∷ more) s i =
    acts-IsGiven v more _ (call_held external fn q v s i)
acts-AfterActions external fn q (requests ∷ more) s i =
    asked_before _ (first_call more)
      (acts-AfterActions external fn true more _ (request-IsHeld external fn q s i))
  where
    asked_before :
        (t : Proxy) (o : Option ℕ)
        → AfterActions external fn true more o t
        → AfterActions external fn q (requests ∷ more) o t
    asked_before t none h = subst (λ b. IsHeld external fn b t) (or_true q) h
    asked_before t (some v) h = h
acts-AfterActions external fn q (awaits ∷ more) s i =
    subst (λ t. AfterActions external fn q more (first_call more) (acts more t))
      (sym (await_held s i.consumer)) (acts-AfterActions external fn q more s i)
