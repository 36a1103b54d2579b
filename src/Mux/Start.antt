-- ===== src/Mux/Start.antt =====
-- A mux whose awaitables all take their time, from its start on (detail/wait.h).
use hf_qcorral.Prelude.{
  Option, ℕ, zero, suc, ◌+◌, ◌<◌, ◌≡◌, refl, sym, subst, ap, ◌∙◌, ◌⊎◌, inl, inr, Bool, true, false,
  List, [], ◌∷◌, arith, length, map, length-map, if_cases, ◌==◌, ==_iff, if◌then◌else◌,
}
use hf_qcorral.Mux.State.{
  Exception, Status, not_started, cancellation_pending, cancelled, ready, succeeded, failed,
  running, cancelling, keeps, Script, Helper, Mux, size, helper_at, with_status, set_status,
  status_of,
}
use hf_qcorral.Mux.Done.{AreStarted, count_done, count_done-lt, is_done, length-with_status}
use hf_qcorral.Mux.Helper.{suspend, start, resumed}
use hf_qcorral.Mux.Combiner.{invoke, depth, suspend_from, await_suspend, make}
use hf_qcorral.Mux.Count.{IsRunning, IsFinished, resumed-outcome}

-- Not ready, and keeps the handle when it is suspended.
pub record TakesTime (s : Script) : Type 0 where
  pub busy : s.is_ready ≡ false
  pub keeps_handle : s.on_suspend ≡ keeps

abbrev pub AllTakeTime : List Script → Type 0
AllTakeTime [] = Unit {0}
AllTakeTime (s ∷ ss) = TakesTime s × AllTakeTime ss

-- The first `i` awaitables run, and the others were not started yet.
abbrev Half : ℕ → List Helper → Type 0
Half zero [] = Unit {0}
Half zero (h ∷ hs) = ((h.status ≡ not_started) × TakesTime h.script) × Half zero hs
Half (suc i) [] = ⊥
Half (suc i) (h ∷ hs) = (h.status ≡ running) × Half i hs

Half-make :
    (ss : List Script)
    → AllTakeTime ss
    → Half 0 (map (λ s. record { status = not_started; script = s }) ss)
Half-make [] a = tt
Half-make (s ∷ ss) a = ((refl, a.0), Half-make ss a.1)

Half-at :
    (i : ℕ) (hs : List Helper)
    → Half i hs
    → i < length hs
    → ((helper_at hs i).status ≡ not_started) × TakesTime (helper_at hs i).script
unfolding helper_at
Half-at zero [] v l = absurd (omega (arith, l))
Half-at zero (h ∷ hs) v l = v.0
Half-at (suc i) [] v l = absurd v
Half-at (suc i) (h ∷ hs) v l = Half-at i hs v.1 (omega (arith, l))

Half-with_status :
    (i : ℕ) (hs : List Helper) → Half i hs → i < length hs → Half (suc i) (with_status hs i running)
unfolding with_status
Half-with_status zero [] v l = absurd (omega (arith, l))
Half-with_status zero (h ∷ hs) v l = (refl, v.1)
Half-with_status (suc i) [] v l = absurd v
Half-with_status (suc i) (h ∷ hs) v l = (v.0, Half-with_status i hs v.1 (omega (arith, l)))

Half-AreStarted : (hs : List Helper) → Half (length hs) hs → AreStarted hs
Half-AreStarted [] v = tt
Half-AreStarted (h ∷ hs) v = (rw v.0 refl, Half-AreStarted hs v.1)

count_done-Half : (hs : List Helper) → Half (length hs) hs → count_done hs ≡ 0
count_done-Half [] v = refl
count_done-Half (h ∷ hs) v = rw v.0 (count_done-Half hs v.1)

script-with_status :
    (hs : List Helper) (i : ℕ) (st : Status)
    → (helper_at (with_status hs i st) i).script ≡ (helper_at hs i).script
unfolding helper_at with_status
script-with_status [] i st = refl
script-with_status (h ∷ hs) zero st = refl
script-with_status (h ∷ hs) (suc i) st = script-with_status hs i st

suspend_lem :
    (notify : Option Exception → Mux → Mux) (i : ℕ) (m : Mux)
    → Half i m.helpers
    → i < size m
    → suspend notify i m ≡ set_status i running m
unfolding suspend start set_status
suspend_lem notify i m v l =
    let (fresh, slow) = Half-at i m.helpers v l in
    let same = script-with_status m.helpers i running in
    let busy = ap (λ s. s.is_ready) same ∙ slow.busy in
    let kept = ap (λ s. s.on_suspend) same ∙ slow.keeps_handle in
    rw (suspend, fresh, start, busy, kept) refl

-- What the loop that starts them leaves as it was, and what it achieves.
record Started (m m' : Mux) : Type 0 where
  half : Half (length m'.helpers) m'.helpers
  sized : size m' ≡ size m
  count : m'.count ≡ m.count
  fault : m'.fault ≡ m.fault
  live : m'.parent_live ≡ m.parent_live
  resumed_before : m'.parent_resumed ≡ m.parent_resumed

suspend_from_lem :
    (fuel left i : ℕ) (m : Mux)
    → Half i m.helpers
    → i + left ≡ size m
    → Started m (suspend_from fuel left i m)
unfolding suspend_from set_status
suspend_from_lem fuel zero i m v e = record {
  half = subst (λ n. Half n m.helpers) (let same : i ≡ size m = omega (arith, e) in same) v;
  sized = refl;
  count = refl;
  fault = refl;
  live = refl;
  resumed_before = refl;
}
suspend_from_lem fuel (suc left) i m v e =
    let l : i < size m = omega (arith, e) in
    let sized = length-with_status m.helpers i running in
    let s =
      suspend_from_lem fuel left (i + 1) (set_status i running m)
        (subst (λ n. Half n (with_status m.helpers i running))
          (let next : suc i ≡ i + 1 = omega arith in next) (Half-with_status i m.helpers v l))
        (omega (arith, e, sized)) in
    rw (suspend_lem (invoke fuel) i m v l) record {
      half = s.half;
      sized = s.sized ∙ sized;
      count = s.count;
      fault = s.fault;
      live = s.live;
      resumed_before = s.resumed_before;
    }

IsRunning-Started :
    (m m' : Mux)
    → Started m m'
    → m.count ≡ 0
    → m.fault ≡ false
    → m.parent_live ≡ true
    → m.parent_resumed ≡ 0
    → 0 < size m
    → IsRunning m'
IsRunning-Started m m' s c f p r l =
    let none_done = count_done-Half m'.helpers s.half in
    record {
      started = Half-AreStarted m'.helpers s.half;
      counted = s.count ∙ c ∙ sym none_done;
      waiting = omega (arith, l, s.sized, none_done);
      no_fault = s.fault ∙ f;
      live = s.live ∙ p;
      not_resumed = s.resumed_before ∙ r;
    }

await_suspend-IsRunning :
    (ss : List Script) (k : ℕ)
    → AllTakeTime ss
    → 0 < length ss
    → IsRunning (await_suspend (make ss k)).0
unfolding await_suspend make
await_suspend-IsRunning ss k a l =
    let m = make ss k in
    let sized : size m ≡ length ss = length-map ss _ in
    let s =
      suspend_from_lem (depth m) (size m) 0 (record m { bound = true; parent_live = true })
        (Half-make ss a) (omega arith) in
    if_cases (λ (r : Mux × Bool). IsRunning r.0) (size m == 0) (m, false) _
      (λ e. absurd (omega (arith, l, sized, (==_iff (size m) 0).0 e)))
      (λ e.
        IsRunning-Started (record m { bound = true; parent_live = true }) _ s refl refl refl refl
          (omega (arith, l, sized)))

abbrev pub is_active : Status → Bool
is_active st = elim st [ running ↦ true | cancelling ↦ true | _ ↦ false ]

-- Awaitables resume their handles one after the other; only one that is under way can do so.
unfoldable pub drive : Mux → List ℕ → Mux
drive m [] = m
drive m (i ∷ is) =
    drive (if is_active (status_of i m) then resumed (invoke (depth m)) i m else m) is

active_cases : (st : Status) → is_active st ≡ true → (st ≡ running) ⊎ (st ≡ cancelling)
active_cases running e = inl refl
active_cases cancelling e = inr refl
active_cases not_started e = cc
active_cases cancellation_pending e = cc
active_cases cancelled e = cc
active_cases ready e = cc
active_cases succeeded e = cc
active_cases failed e = cc

active_not_done : (st : Status) → is_active st ≡ true → is_done st ≡ false
active_not_done st e = ground arith

drive-outcome :
    (m : Mux) (is : List ℕ)
    → IsRunning m ⊎ IsFinished m
    → IsRunning (drive m is) ⊎ IsFinished (drive m is)
unfolding drive
drive-outcome m [] o = o
drive-outcome m (i ∷ is) o =
    if_cases (λ m'. IsRunning (drive m' is) ⊎ IsFinished (drive m' is)) (is_active (status_of i m))
      _ m
      (λ active. drive-outcome (resumed (invoke (depth m)) i m) is (elim o [
        | inl r ↦ (resumed-outcome m i r (active_cases (status_of i m) active)).0
        | inr f ↦ absurd (
            omega
              (arith, f.ended, count_done-lt m.helpers i (active_not_done (status_of i m) active)))
      ]))
      (λ _. drive-outcome m is o)

-- A combiner over at least one awaitable, all of which take their time (none is ready, and each
-- keeps its handle when it is suspended), is started and then driven by its awaitables in any order
-- and with any answers to cancellations. At every moment either it is running and has not resumed
-- its parent, or all its awaitables have ended and it has resumed its parent exactly once; no
-- assertion ever fails.
pub start-outcome :
    (ss : List Script) (k : ℕ) (is : List ℕ)
    → AllTakeTime ss
    → 0 < length ss
    → let m = drive (await_suspend (make ss k)).0 is in IsRunning m ⊎ IsFinished m
start-outcome ss k is a l = drive-outcome _ is (inl (await_suspend-IsRunning ss k a l))
