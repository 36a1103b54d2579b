-- ===== src/Semaphore/Count.antt =====
-- What the counter of a semaphore says of the tasks that use it.
use hf_qcorral.Prelude.{
  ℕ, ◌+◌, ◌-◌, ◌≤◌, ◌<◌, ◌≡◌, ◌≢◌, refl, ◌⊎◌, inl, inr, List, [], ◌∷◌, ◌++◌, arith, length,
  length-append, if◌then◌else◌, size_mod,
}
use hf_qcorral.ParkingLot.{Parked, Lot, unlink, await_cancel, unpark_one}
use hf_qcorral.Semaphore.{Semaphore, await_ready, await_suspend, await_resume, release, cancel}

-- A semaphore, the handles that it has resumed and that the executor has not run yet, and how many
-- times it was acquired and released.
pub record World : Type 0 where
  pub sem : Semaphore
  pub woken : List ℕ
  pub acquired : ℕ
  pub released : ℕ

pub data Call : Type 0 where
  acquire : ℕ → ℕ → Call
  give_back : Call
  run_next : Call
  abandon : ℕ → Call

-- `co_await sem.acquire()` goes on at once if it is ready, and parks otherwise; a task that was
-- woken goes on with `await_resume` when the executor runs it.
unfoldable pub step : World → Call → World
step w (acquire i h) =
    if await_ready w.sem
    then record w { sem = await_resume w.sem; acquired = w.acquired + 1 }
    else record w { sem = await_suspend i h w.sem }
step w give_back =
    let (s, hs) = release w.sem in
    record w { sem = s; woken = w.woken ++ hs; released = w.released + 1 }
step w run_next = elim w.woken [
  | [] ↦ w
  | h ∷ hs ↦ record w { sem = await_resume w.sem; woken = hs; acquired = w.acquired + 1 }
]
step w (abandon i) = record w { sem = cancel i w.sem }

-- A call that takes the fast path leaves a unit for every woken task.
abbrev pub IsPolite : World → Call → Type 0
IsPolite w (acquire i h) = (w.sem.value ≡ 0) ⊎ (length w.woken < w.sem.value)
IsPolite w give_back = Unit {0}
IsPolite w run_next = Unit {0}
IsPolite w (abandon i) = Unit {0}

pub record Inv (initial : ℕ) (w : World) : Type 0 where
  pub conserved : w.sem.value + w.acquired ≡ initial + w.released
  pub covered : length w.woken ≤ w.sem.value
  pub no_idle : (w.sem.parked ≡ []) ⊎ (w.sem.value ≡ length w.woken)

length-unpark_one_le : (ps : Lot) → length (unpark_one ps).1 ≤ 1
unfolding unpark_one
length-unpark_one_le [] = omega arith
length-unpark_one_le (p ∷ ps) = omega arith

-- What a wake-up leaves parked, and how many it wakes.
unpark_one-idle :
    (ps : Lot) → ((unpark_one ps).0 ≡ []) ⊎ ((length (unpark_one ps).1 ≡ 1) × (ps ≢ []))
unfolding unpark_one
unpark_one-idle [] = inl refl
unpark_one-idle (p ∷ ps) = inr (refl, λ e. cc)

run_next-Inv :
    (initial : ℕ) (w : World) (hs : List ℕ)
    → w.woken ≡ hs
    → initial + w.released < size_mod
    → Inv initial w
    → Inv initial (step w run_next)
unfolding step await_resume
run_next-Inv initial w [] e b v = rw (e, step) v
run_next-Inv initial w (h ∷ hs) e b v = ground (arith, v.no_idle)

step-Inv :
    (initial : ℕ) (w : World) (c : Call)
    → IsPolite w c
    → initial + w.released + 1 < size_mod
    → Inv initial w
    → Inv initial (step w c)
unfolding step await_suspend await_resume release cancel await_cancel unlink
step-Inv initial w (acquire i h) p b v = ground (arith, v.no_idle)
step-Inv initial w give_back p b v = record {
  conserved = omega (arith, v.conserved);
  covered = omega (
    arith,
    v.conserved,
    v.covered,
    length-append w.woken (unpark_one w.sem.parked).1,
    length-unpark_one_le w.sem.parked,
  );
  no_idle = elim (unpark_one-idle w.sem.parked) [
    | inl e ↦ inl e
    | inr (one, busy) ↦ inr (elim v.no_idle [
      | inl e ↦ absurd (busy e)
      | inr e ↦
          omega (arith, v.conserved, e, length-append w.woken (unpark_one w.sem.parked).1, one)
    ])
  ];
}
step-Inv initial w run_next p b v = run_next-Inv initial w w.woken refl (omega arith) v
step-Inv initial w (abandon i) p b v = record {
  conserved = v.conserved;
  covered = v.covered;
  no_idle = elim v.no_idle [ inl e ↦ inl (rw e refl) | inr e ↦ inr e ];
}

released-step : (w : World) (c : Call) → (step w c).released ≤ w.released + 1
unfolding step
released-step w (acquire i h) = ground arith
released-step w give_back = omega arith
released-step w run_next = released_next w w.woken refl
  where
    released_next :
        (w : World) (hs : List ℕ) → w.woken ≡ hs → (step w run_next).released ≤ w.released + 1
    released_next w [] e = rw (e, step) (omega arith)
    released_next w (h ∷ hs) e = rw (e, step) (omega arith)
released-step w (abandon i) = omega arith

unfoldable pub run : World → List Call → World
run w [] = w
run w (c ∷ cs) = run (step w c) cs

-- Every acquisition of the history that takes the fast path leaves a unit for each woken task.
abbrev pub ArePolite : World → List Call → Type 0
ArePolite w [] = Unit {0}
ArePolite w (c ∷ cs) = IsPolite w c × ArePolite (step w c) cs

-- While no acquisition barges in front of a woken task, and the units ever handed out fit a
-- `size_t`, every history keeps count: units held and units free make up those there are, each
-- woken task finds a unit, and a task stays parked only while all free units are promised.
pub run-Inv :
    (initial : ℕ) (w : World) (cs : List Call)
    → ArePolite w cs
    → initial + w.released + length cs < size_mod
    → Inv initial w
    → Inv initial (run w cs)
unfolding run
run-Inv initial w [] p b v = v
run-Inv initial w (c ∷ cs) p b v =
    run-Inv initial (step w c) cs p.1 (omega (arith, released-step w c))
      (step-Inv initial w c p.0 (omega arith) v)

-- With no units and a parked task, `release()` promises the unit to that task; if another task
-- acquires the semaphore before the executor has run the woken one, both go on, the one unit is
-- handed out twice, and the counter wraps to its largest value.
pub barge_underflow :
    (w : World) (p : Parked) (ps : Lot) (i h : ℕ)
    → w.sem.value ≡ 0
    → w.sem.parked ≡ p ∷ ps
    → w.woken ≡ []
    → let after = run w (give_back ∷ acquire i h ∷ run_next ∷ []) in
      (after.sem.value ≡ size_mod - 1)
      × (after.released ≡ w.released + 1)
      × (after.acquired ≡ w.acquired + 2)
unfolding run step release await_resume unpark_one
barge_underflow w p ps i h e₁ e₂ e₃ = ground arith
