-- ===== src/Executor/Running.antt =====
-- Which executors are running, and what the log tells of them (Executor.h).
use hf_qcorral.Prelude.{
  ℕ, zero, suc, ◌+◌, ◌≤◌, ◌<◌, ◌≡◌, refl, ap, subst, inl, inr, ltb, ltb→lt, ◌∙◌, true, false, not,
  ◌&&◌, Bool-cases, Option, none, some, List, [], ◌∷◌, ◌++◌, ◌==◌, if◌then◌else◌, get_elem?,
  get_elem?-set_self, get_elem?-set_ne, set, length, length-set, arith,
}
use hf_qcorral.Executor.{
  Task, run_once, Executor, Mark, submitted, started, ended, World, Frame, body, captured, drain,
  drain_captured, executor_of, executor_at, put_executor, set_ready, label_of, note, submit, defer,
  defer_to,
}

-- How often an executor was noted to start a callback, and to end one.
module _ (e : ℕ) where
  abbrev pub starts : List Mark → ℕ
  starts [] = 0
  starts (submitted x l ∷ ms) = starts ms
  starts (started x l ∷ ms) = (if x == e then 1 else 0) + starts ms
  starts (ended x l ∷ ms) = starts ms

  abbrev pub ends : List Mark → ℕ
  ends [] = 0
  ends (submitted x l ∷ ms) = ends ms
  ends (started x l ∷ ms) = ends ms
  ends (ended x l ∷ ms) = (if x == e then 1 else 0) + ends ms

  pub starts-append : (ms ns : List Mark) → starts (ms ++ ns) ≡ starts ms + starts ns
  starts-append [] ns = omega arith
  starts-append (submitted x l ∷ ms) ns = starts-append ms ns
  starts-append (started x l ∷ ms) ns = omega (arith, starts-append ms ns)
  starts-append (ended x l ∷ ms) ns = starts-append ms ns

  pub ends-append : (ms ns : List Mark) → ends (ms ++ ns) ≡ ends ms + ends ns
  ends-append [] ns = omega arith
  ends-append (submitted x l ∷ ms) ns = ends-append ms ns
  ends-append (started x l ∷ ms) ns = ends-append ms ns
  ends-append (ended x l ∷ ms) ns = omega (arith, ends-append ms ns)

  -- The frames that make the executor run, and the callbacks of its queue that are under way.
  abbrev pub drains_of : Frame → ℕ
  drains_of (body b) = 0
  drains_of (captured x ts) = 0
  drains_of (drain x owned prev o) = if owned && (x == e) then 1 else 0
  drains_of (drain_captured x ts owned prev) = if owned && (x == e) then 1 else 0

  abbrev pub calls_of : Frame → ℕ
  calls_of (body b) = 0
  calls_of (captured x ts) = 0
  calls_of (drain x owned prev none) = 0
  calls_of (drain x owned prev (some l)) = if x == e then 1 else 0
  calls_of (drain_captured x ts owned prev) = 0

  abbrev pub drains : List Frame → ℕ
  drains [] = 0
  drains (f ∷ fs) = drains_of f + drains fs

  abbrev pub calls : List Frame → ℕ
  calls [] = 0
  calls (f ∷ fs) = calls_of f + calls fs

  pub drains-append : (fs gs : List Frame) → drains (fs ++ gs) ≡ drains fs + drains gs
  drains-append [] gs = omega arith
  drains-append (f ∷ fs) gs = omega (arith, drains-append fs gs)

  pub calls-append : (fs gs : List Frame) → calls (fs ++ gs) ≡ calls fs + calls gs
  calls-append [] gs = omega arith
  calls-append (f ∷ fs) gs = omega (arith, calls-append fs gs)

  -- The loops of `drain()` that were begun while the executor was running.
  abbrev pub reentries_of : Frame → ℕ
  reentries_of (body b) = 0
  reentries_of (captured x ts) = 0
  reentries_of (drain x owned prev o) = if not owned && (x == e) then 1 else 0
  reentries_of (drain_captured x ts owned prev) = 0

  abbrev pub reentries : List Frame → ℕ
  reentries [] = 0
  reentries (f ∷ fs) = reentries_of f + reentries fs

  pub calls-le-drains : (fs : List Frame) → calls fs ≤ drains fs + reentries fs
  calls-le-drains [] = omega arith
  calls-le-drains (f ∷ fs) = omega (arith, one f, calls-le-drains fs)
    where
      one : (f : Frame) → calls_of f ≤ drains_of f + reentries_of f
      one (body b) = omega arith
      one (captured x ts) = omega arith
      one (drain x owned prev none) = omega arith
      one (drain x true prev (some l)) = omega arith
      one (drain x false prev (some l)) = omega arith
      one (drain_captured x ts owned prev) = omega arith

  abbrev pub runs : World → ℕ
  runs w = if (executor_at e w).running then 1 else 0

-- An executor that was written.
pub put_same :
    (e : ℕ) (x : Executor) (w : World)
    → e < length w.executors
    → executor_at e (put_executor e x w) ≡ x
unfolding executor_at put_executor executor_of
put_same e x w h = ap executor_of (get_elem?-set_self w.executors e x h)

pub put_other :
    (e d : ℕ) (x : Executor) (w : World)
    → (d == e) ≡ false
    → executor_at e (put_executor d x w) ≡ executor_at e w
unfolding executor_at put_executor
put_other e d x w h =
    ap executor_of (get_elem?-set_ne w.executors d e x (λ v. ground (arith, h, v)))

pub set_out : (xs : List Executor) (e : ℕ) (x : Executor) → length xs ≤ e → set xs e x ≡ xs
set_out [] e x h = refl
set_out (y ∷ ys) zero x h = absurd (omega (arith, h))
set_out (y ∷ ys) (suc e) x h = ap (◌∷◌ y) (set_out ys e x (omega (arith, h)))

-- A write that leaves a part of an executor alone.
pub put_kept :
    {A : Type 0} (part : Executor → A) (e d : ℕ) (x : Executor) (w : World)
    → part x ≡ part (executor_at d w)
    → part (executor_at e (put_executor d x w)) ≡ part (executor_at e w)
unfolding executor_at put_executor
put_kept part e d x w h = elim (Bool-cases (d == e)) [
  | inl s ↦
      let same : d ≡ e = ground (arith, s) in
      subst (λ v. part (executor_at v (put_executor d x w)) ≡ part (executor_at v w)) same here
  | inr n ↦ ap part (put_other e d x w n)
]
  where
    here : part (executor_at d (put_executor d x w)) ≡ part (executor_at d w)
    here = elim (Bool-cases (ltb d (length w.executors))) [
      | inl s ↦ ap part (put_same d x w (ltb→lt d _ s)) ∙ h
      | inr n ↦
          ap (λ (xs : List Executor). part (executor_of (get_elem? xs d)))
            (set_out w.executors d x (ground (arith, n)))
    ]

-- What a step does to the counts, when `new` takes the place of a frame that counted `held` drains
-- and `busy` calls.
pub record Balance (e held busy : ℕ) (w w' : World) (new : List Frame) : Type 0 where
  pub running : runs e w' + held ≡ runs e w + drains e new
  pub marks : starts e w'.log + ends e w.log + busy ≡ starts e w.log + ends e w'.log + calls e new
  pub kept : length w'.executors ≡ length w.executors

-- What leaves an executor's state and the log alone, as far as they count.
pub record Quiet (e : ℕ) (w w' : World) : Type 0 where
  pub running : (executor_at e w').running ≡ (executor_at e w).running
  pub starts_same : starts e w'.log ≡ starts e w.log
  pub ends_same : ends e w'.log ≡ ends e w.log
  pub kept : length w'.executors ≡ length w.executors

pub Quiet-refl : (e : ℕ) (w : World) → Quiet e w w
Quiet-refl e w = record { running = refl; starts_same = refl; ends_same = refl; kept = refl }

pub Quiet-trans : (e : ℕ) (u v w : World) → Quiet e u v → Quiet e v w → Quiet e u w
Quiet-trans e u v w p q = record {
  running = q.running ∙ p.running;
  starts_same = q.starts_same ∙ p.starts_same;
  ends_same = q.ends_same ∙ p.ends_same;
  kept = q.kept ∙ p.kept;
}

pub put-Quiet :
    (e d : ℕ) (x : Executor) (w : World)
    → x.running ≡ (executor_at d w).running
    → Quiet e w (put_executor d x w)
unfolding put_executor
put-Quiet e d x w h = record {
  running = put_kept (λ y. y.running) e d x w h;
  starts_same = refl;
  ends_same = refl;
  kept = length-set w.executors d x;
}

pub set_ready-Quiet : (e d : ℕ) (ts : List Task) (w : World) → Quiet e w (set_ready d ts w)
unfolding set_ready
set_ready-Quiet e d ts w = put-Quiet e d (record (executor_at d w) { ready = ts }) w refl

note_submitted-Quiet : (e d : ℕ) (o : Option ℕ) (w : World) → Quiet e w (note o (submitted d) w)
unfolding executor_at
note_submitted-Quiet e d none w = Quiet-refl e w
note_submitted-Quiet e d (some l) w = record {
  running = refl;
  starts_same = omega (arith, starts-append e w.log (submitted d l ∷ []));
  ends_same = omega (arith, ends-append e w.log (submitted d l ∷ []));
  kept = refl;
}

pub submit-Quiet : (e d : ℕ) (t : Task) (w : World) → Quiet e w (submit d t w)
unfolding submit
submit-Quiet e d t w =
    let w' = set_ready d ((executor_at d w).ready ++ t ∷ []) w in
    Quiet-trans e w w' _ (set_ready-Quiet e d _ w) (note_submitted-Quiet e d (label_of t) w')

defer-Quiet : (e c d : ℕ) (w : World) → Quiet e w (defer c d w)
unfolding defer executor_at
defer-Quiet e c d w =
    let x = record (executor_at d w) { scheduled = true } in
    let w' = put_executor d x w in
    let q = Quiet-trans e w w' _ (put-Quiet e d x w refl) (submit-Quiet e c (run_once d) w') in
    record {
      running = q.running;
      starts_same = q.starts_same;
      ends_same = q.ends_same;
      kept = q.kept;
    }

pub defer_to-Quiet : (e d : ℕ) (o : Option ℕ) (w : World) → Quiet e w (defer_to o d w)
defer_to-Quiet e d none w = Quiet-refl e w
defer_to-Quiet e d (some c) w = defer-Quiet e c d w
