-- ===== src/Executor/Order.antt =====
-- The order in which an executor calls what is submitted to it (Executor.h).
use hf_qcorral.Prelude.{
  ℕ, ◌<◌, ◌≡◌, refl, sym, ap, ◌∙◌, false, Option, none, some, List, [], ◌∷◌, ◌++◌, append_assoc,
  ◌==◌, if◌then◌else◌, length,
}
use hf_qcorral.Executor.{
  Task, Body, done, run_soon, schedule, wake, drain_now, capture, Mark, submitted, started, ended,
  World, Frame, body, captured, drain, drain_captured, executor_at, label_of,
}

abbrev pub listed : Option ℕ → List ℕ
listed none = []
listed (some l) = l ∷ []

-- The callbacks that a list has, by their numbers.
abbrev pub waiting : List Task → List ℕ
waiting [] = []
waiting (t ∷ ts) = listed (label_of t) ++ waiting ts

-- The callbacks that were submitted to an executor, and those that it took from its queue.
module _ (e : ℕ) where
  abbrev pub submissions : List Mark → List ℕ
  submissions [] = []
  submissions (submitted x l ∷ ms) = (if x == e then l ∷ [] else []) ++ submissions ms
  submissions (started x l ∷ ms) = submissions ms
  submissions (ended x l ∷ ms) = submissions ms

  abbrev pub starts_of : List Mark → List ℕ
  starts_of [] = []
  starts_of (submitted x l ∷ ms) = starts_of ms
  starts_of (started x l ∷ ms) = (if x == e then l ∷ [] else []) ++ starts_of ms
  starts_of (ended x l ∷ ms) = starts_of ms

  pub submissions-append :
      (ms ns : List Mark) → submissions (ms ++ ns) ≡ submissions ms ++ submissions ns
  submissions-append [] ns = refl
  submissions-append (submitted x l ∷ ms) ns =
      ap (◌++◌ (if x == e then l ∷ [] else [])) (submissions-append ms ns)
      ∙ sym (append_assoc (if x == e then l ∷ [] else []) (submissions ms) (submissions ns))
  submissions-append (started x l ∷ ms) ns = submissions-append ms ns
  submissions-append (ended x l ∷ ms) ns = submissions-append ms ns

  pub starts_of-append : (ms ns : List Mark) → starts_of (ms ++ ns) ≡ starts_of ms ++ starts_of ns
  starts_of-append [] ns = refl
  starts_of-append (submitted x l ∷ ms) ns = starts_of-append ms ns
  starts_of-append (started x l ∷ ms) ns =
      ap (◌++◌ (if x == e then l ∷ [] else [])) (starts_of-append ms ns)
      ∙ sym (append_assoc (if x == e then l ∷ [] else []) (starts_of ms) (starts_of ns))
  starts_of-append (ended x l ∷ ms) ns = starts_of-append ms ns

-- What does not capture what an executor has in its queue.
unfoldable pub Spares : ℕ → Body → Type 0
Spares e done = Unit {0}
Spares e (run_soon d t b) = Spares e b
Spares e (schedule d t b) = Spares e b
Spares e (wake d b) = Spares e b
Spares e (drain_now d b) = Spares e b
Spares e (capture d f b) = ((d == e) ≡ false) × Spares e f × Spares e b

unfoldable pub SparesFrame : ℕ → Frame → Type 0
unfolding Spares
SparesFrame e (body b) = Spares e b
SparesFrame e (captured d old) = (d == e) ≡ false
SparesFrame e (drain d owned prev o) = Unit {0}
SparesFrame e (drain_captured d ts owned prev) = Unit {0}

unfoldable pub SpareFrames : ℕ → List Frame → Type 0
unfolding SparesFrame
SpareFrames e [] = Unit {0}
SpareFrames e (f ∷ fs) = SparesFrame e f × SpareFrames e fs

pub SpareFrames-append :
    (e : ℕ) (fs gs : List Frame) → SpareFrames e fs → SpareFrames e gs → SpareFrames e (fs ++ gs)
unfolding SpareFrames
SpareFrames-append e [] gs p q = q
SpareFrames-append e (f ∷ fs) gs (p, ps) q = (p, SpareFrames-append e fs gs ps q)

-- What the executor has started, and then what it has waiting, is what was submitted to it.
pub record IsOrdered (e : ℕ) (w : World) : Type 0 where
  pub here : e < length w.executors
  pub order : starts_of e w.log ++ waiting (executor_at e w).ready ≡ submissions e w.log
