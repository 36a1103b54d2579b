-- ===== src/CbPortal/Pace.antt =====
-- A task that keeps up with the callback of its portal (CBPortal.h).
use hf_qcorral.Prelude.{
  ℕ, ◌≡◌, ◌⊎◌, refl, sym, ap, subst, ◌∙◌, inl, inr, append-nil, Bool, true, false, ◌||◌, none, some,
  List, [], ◌∷◌, ◌++◌, if_cases, arith,
}
use hf_qcorral.CbPortal.{
  Portal, has_value, emplace, initiated, Consumer, in_proxy, in_portal, elsewhere, Proxy, make,
  listed, resume_consumer, run_consumer, wake, call_back, Action, calls, requests, awaits,
  is_cancel_pending, await_portal, await_at, call_at, act, acts, finish_initiate, initiate,
}
use hf_qcorral.CbPortal.Delivery.{woken, called, has_fault, HasFed, acts-HasFed, initiate-HasFed}

-- Whether the task waits for a call, or is busy, with a call's arguments waiting for it or not.
pub data Pace : Type 0 where
  waiting busy behind : Pace

-- Between two awaits, the callback is called once more than the task waits for it at most; and
-- nobody asks the task to cancel.
abbrev pub keeps_up : Pace → List Action → Bool
keeps_up x [] = true
keeps_up waiting (calls v ∷ more) = keeps_up busy more
keeps_up busy (calls v ∷ more) = keeps_up behind more
keeps_up behind (calls v ∷ more) = false
keeps_up waiting (awaits ∷ more) = keeps_up waiting more
keeps_up busy (awaits ∷ more) = keeps_up waiting more
keeps_up behind (awaits ∷ more) = keeps_up busy more
keeps_up x (requests ∷ more) = false

made : (external fn : Bool) → HasFed [] (make external fn)
unfolding make
made external fn = λ f. refl

-- What the portal and the task are like at a pace.
abbrev Shows : Pace → Proxy → Type 0
Shows waiting s =
    (s.portal.value ≡ none)
    × (has_value s.portal.parent ≡ true)
    × ((s.consumer ≡ in_proxy) ⊎ (s.consumer ≡ in_portal))
Shows busy s = (s.portal.value ≡ none) × (s.portal.parent ≡ none) × (s.consumer ≡ elsewhere)
Shows behind s =
    (has_value s.portal.value ≡ true) × (s.portal.parent ≡ none) × (s.consumer ≡ elsewhere)

pub record IsPaced (x : Pace) (s : Proxy) : Type 0 where
  pub shows : Shows x s
  pub no_fault : has_fault s ≡ false
  pub unasked : is_cancel_pending s.status ≡ false
  pub willing : s.asked ≡ false

-- The callback wakes the task, which goes on with the value.
goes_on :
    (v : ℕ) (f : Bool) (s : Proxy)
    → has_fault s ≡ false
    → f ≡ false
    → is_cancel_pending s.status ≡ false
    → s.asked ≡ false
    → IsPaced busy
        (run_consumer (record s { portal = record { value = some v; parent = none; fault = f } }))
unfolding run_consumer resume_consumer
goes_on v f s e g u a = record {
  shows = (refl, refl, refl);
  no_fault = ground (arith, e, g);
  unasked = u;
  willing = a;
}

called_waiting : (v : ℕ) (s : Proxy) → IsPaced waiting s → IsPaced busy (call_back v s)
unfolding call_back wake emplace
called_waiting v s i =
    let (e, h, c) = i.shows in
    let f = s.portal.fault || has_value s.portal.value in
    let p : Portal = record { value = some v; parent = none; fault = f } in
    subst (IsPaced busy) (sym (woken s.portal.parent (record s { portal = p }) h))
      (goes_on v f s i.no_fault (rw e (ground (arith, i.no_fault))) i.unasked i.willing)

called_busy : (v : ℕ) (s : Proxy) → IsPaced busy s → IsPaced behind (call_back v s)
unfolding call_back wake emplace
called_busy v s i =
    let (e, h, c) = i.shows in
    rw (e, h)
      record {
        shows = (refl, refl, c);
        no_fault = ground (arith, i.no_fault);
        unasked = i.unasked;
        willing = i.willing;
      }

call_waiting :
    (c : Consumer) (v : ℕ) (s : Proxy)
    → (c ≡ in_proxy) ⊎ (c ≡ in_portal)
    → IsPaced waiting s
    → IsPaced busy (call_at c v s)
unfolding call_at
call_waiting c v s (inl e) i = rw (e, call_at) (called_waiting v s i)
call_waiting c v s (inr e) i = rw (e, call_at) (called_waiting v s i)

await_waiting :
    (c : Consumer) (s : Proxy)
    → (c ≡ in_proxy) ⊎ (c ≡ in_portal)
    → IsPaced waiting s
    → IsPaced waiting (await_at c s)
unfolding await_at
await_waiting c s (inl e) i = rw (e, await_at) i
await_waiting c s (inr e) i = rw (e, await_at) i

await_busy : (s : Proxy) → IsPaced busy s → IsPaced waiting (await_portal s)
unfolding await_portal
await_busy s i =
    let (e, h, c) = i.shows in
    rw (i.willing, e)
      record {
        shows = (refl, refl, inr refl);
        no_fault = ground (arith, i.no_fault);
        unasked = i.unasked;
        willing = refl;
      }

await_behind : (s : Proxy) → IsPaced behind s → IsPaced busy (await_portal s)
unfolding await_portal resume_consumer
await_behind s i =
    let (e, h, c) = i.shows in
    rw (i.willing, e)
      record {
        shows = (refl, h, refl);
        no_fault = ground (arith, i.no_fault, e);
        unasked = i.unasked;
        willing = refl;
      }

call_elsewhere :
    (c : Consumer) (v : ℕ) (s : Proxy)
    → c ≡ elsewhere
    → IsPaced busy s
    → IsPaced behind (call_at c v s)
unfolding call_at
call_elsewhere c v s e i = rw (e, call_at) (called_busy v s i)

await_elsewhere :
    (c : Consumer) (x : Pace) (s : Proxy)
    → c ≡ elsewhere
    → IsPaced x (await_portal s)
    → IsPaced x (await_at c s)
unfolding await_at
await_elsewhere c x s e i = rw (e, await_at) i

-- Actions that a task keeps up with lead to no fault.
acts-IsPaced :
    (x : Pace) (more rest : List Action) (s : Proxy)
    → keeps_up x (more ++ rest) ≡ true
    → IsPaced x s
    → (y : Pace) × IsPaced y (acts more s) × (keeps_up y rest ≡ true)
unfolding acts act
acts-IsPaced x [] rest s k i = (x, i, k)
acts-IsPaced waiting (calls v ∷ more) rest s k i =
    acts-IsPaced busy more rest (call_at s.consumer v s) k (call_waiting s.consumer v s i.shows.2 i)
acts-IsPaced waiting (awaits ∷ more) rest s k i =
    acts-IsPaced waiting more rest (await_at s.consumer s) k
      (await_waiting s.consumer s i.shows.2 i)
acts-IsPaced waiting (requests ∷ more) rest s k i = cc k
acts-IsPaced busy (calls v ∷ more) rest s k i =
    acts-IsPaced behind more rest (call_at s.consumer v s) k
      (call_elsewhere s.consumer v s i.shows.2 i)
acts-IsPaced busy (awaits ∷ more) rest s k i =
    acts-IsPaced waiting more rest (await_at s.consumer s) k
      (await_elsewhere s.consumer waiting s i.shows.2 (await_busy s i))
acts-IsPaced busy (requests ∷ more) rest s k i = cc k
acts-IsPaced behind (calls v ∷ more) rest s k i = cc k
acts-IsPaced behind (awaits ∷ more) rest s k i =
    acts-IsPaced busy more rest (await_at s.consumer s) k
      (await_elsewhere s.consumer busy s i.shows.2 (await_behind s i))
acts-IsPaced behind (requests ∷ more) rest s k i = cc k

finish-IsPaced : (x : Pace) (s : Proxy) → IsPaced x s → IsPaced x (finish_initiate s)
unfolding finish_initiate
finish-IsPaced x s i =
    if_cases (IsPaced x) s.completed _ _ (λ _. i) (λ _. rw i.unasked (later x i.shows))
  where
    later : (x : Pace) → Shows x s → IsPaced x (record s { status = initiated })
    later waiting h = record {
      shows = h;
      no_fault = i.no_fault;
      unasked = refl;
      willing = i.willing;
    }
    later busy h = record { shows = h; no_fault = i.no_fault; unasked = refl; willing = i.willing }
    later behind h = record {
      shows = h;
      no_fault = i.no_fault;
      unasked = refl;
      willing = i.willing;
    }

initiate-IsPaced :
    (s : Proxy) (during later : List Action)
    → IsPaced waiting s
    → keeps_up waiting (during ++ later) ≡ true
    → has_fault (acts later (finish_initiate (acts during s))) ≡ false
initiate-IsPaced s during later i k =
    let (y, j, l) = acts-IsPaced waiting during later s k i in
    let (z, r, _) =
      acts-IsPaced y later [] _ (ap (keeps_up y) (append-nil later) ∙ l)
        (finish-IsPaced y (acts during s) j) in
    r.no_fault

paced_no_fault :
    (external fn : Bool) (during later : List Action)
    → keeps_up waiting (during ++ later) ≡ true
    → has_fault (acts later (initiate during (make external fn))) ≡ false
unfolding initiate make
paced_no_fault true fn during later k =
    initiate-IsPaced _ during later
      record { shows = (refl, refl, inl refl); no_fault = refl; unasked = refl; willing = refl } k
paced_no_fault false fn during later k =
    initiate-IsPaced _ during later
      record { shows = (refl, refl, inl refl); no_fault = refl; unasked = refl; willing = refl } k

called-append :
    (during later : List Action) → called (during ++ later) ≡ called during ++ called later
called-append [] later = refl
called-append (calls v ∷ during) later = ap (◌∷◌ v) (called-append during later)
called-append (requests ∷ during) later = called-append during later
called-append (awaits ∷ during) later = called-append during later

-- Whatever the initiate function of `untilCBCalled` does with its callback, whatever comes after it,
-- and however requests to cancel the task come in between: unless an assertion failed, or the
-- callback was called after the task was cancelled, the arguments of all calls of the callback have
-- reached the task that awaits the portal, in their order and once each, but for those of one
-- call that may wait in the portal. Neither of these happens if the task keeps up with the
-- callback and is not asked to cancel.
pub portal_delivers :
    (external fn : Bool) (during later : List Action)
    → let s = acts later (initiate during (make external fn)) in
      (has_fault s ≡ false → s.received ++ listed s.portal.value ≡ called (during ++ later))
      × (keeps_up waiting (during ++ later) ≡ true → has_fault s ≡ false)
portal_delivers external fn during later =
    let s = initiate during (make external fn) in
    (
      λ f.
          acts-HasFed later (called during) s
            (initiate-HasFed during (make external fn) (made external fn)) f
          ∙ sym (called-append during later),
      paced_no_fault external fn during later,
    )
