-- ===== src/Nursery/Fate.antt =====
-- What can become of one task of a nursery (Nursery.h).
use hf_qcorral.Prelude.{
  ℕ, ◌+◌, ◌≤◌, ◌≡◌, refl, ◌⊎◌, inl, inr, Bool, true, false, Bool-cases, List, [], ◌∷◌, arith, ◌==◌,
  if◌then◌else◌, ltb, occurrences,
}
use hf_qcorral.Nursery.{is_set, erase}
use hf_qcorral.Nursery.History.{Log, destructions}

-- How often something happened to one task, by how often it is in the lists that tell of it, and
-- whether the nursery has an executor and is being cancelled. The task was started at most once,
-- and is with the nursery or destroyed after it; it is cancelled at most once, and this is still to
-- come only while it is not destroyed; when the nursery is being cancelled, a task that is with it
-- was cancelled or is going to be.
pub record Fate (executor set : Bool) (started tasks captured sent scheduled destroyed : ℕ)
    : Type 0 where
  pub fresh : started ≤ 1
  pub kept_once : tasks + scheduled + destroyed ≤ started
  pub sent_once : sent + captured ≤ started
  pub covered : ((set ≡ false) × (sent + captured ≡ 0)) ⊎ ((set ≡ true) × (tasks ≤ sent + captured))
  pub alive : (captured ≡ 0) ⊎ (destroyed ≡ 0)
  pub closed : (executor ≡ true) ⊎ (tasks ≡ 0)

abbrev pub IsReached : ℕ → Log → Type 0
IsReached t l =
    Fate l.nursery.executor (is_set l.nursery.exception) (occurrences t l.started)
      (occurrences t l.nursery.tasks) (occurrences t l.nursery.captured) (occurrences t l.sent)
      (destructions t l.nursery.scheduled) (occurrences t l.destroyed)

pub occurrences-erase :
    (t u : ℕ) (ts : List ℕ)
    → ltb 0 (occurrences u ts) ≡ true
    → occurrences t ts ≡ occurrences t (erase u ts) + (if u == t then 1 else 0)
unfolding erase
occurrences-erase t u [] h = absurd (ground arith)
occurrences-erase t u (v ∷ vs) h = elim (Bool-cases (v == u)) [
  | inl e ↦ let same : v ≡ u = ground (arith, e) in rw (e, same) (omega arith)
  | inr e ↦ rw e (omega (arith, occurrences-erase t u vs (ground (arith, e, h))))
]

-- One more task, `d` of which is the one looked at.
pub Fate-add :
    (e x : Bool) (s k c n q d a : ℕ)
    → (a + s ≤ 1)
    → e ≡ true
    → Fate e x s k c n q d
    → Fate e x (s + a) (k + a) c (n + (if x then a else 0)) q d
Fate-add e x s k c n q d a g o f = record {
  fresh = omega (arith, g);
  kept_once = omega (arith, f.kept_once);
  sent_once = elim (Bool-cases x) [
    | inl u ↦ rw u (omega (arith, f.sent_once))
    | inr u ↦ rw u (omega (arith, f.sent_once))
  ];
  covered = elim f.covered [
    | inl (u, v) ↦ inl (u, rw u (omega (arith, v)))
    | inr (u, v) ↦ inr (u, rw u (omega (arith, v)))
  ];
  alive = f.alive;
  closed = inl o;
}

-- The nursery is being cancelled from now on: all its tasks are captured.
pub Fate-cancel :
    (e : Bool) (s k c n q d : ℕ) → Fate e false s k c n q d → Fate e true s k (c + k) n q d
Fate-cancel e s k c n q d f =
    let unsent : n + c ≡ 0 = elim f.covered [ inl v ↦ v.1 | inr v ↦ cc (v.0) ] in
    record {
      fresh = f.fresh;
      kept_once = f.kept_once;
      sent_once = omega (arith, unsent, f.kept_once);
      covered = inr (refl, omega arith);
      alive = elim (Bool-cases (k == 0)) [
        | inl z ↦ inl (ground (arith, z, unsent))
        | inr z ↦ inr (ground (arith, z, f.kept_once, f.fresh))
      ];
      closed = f.closed;
    }

pub Fate-end :
    (e e' x : Bool) (s k c n q d a : ℕ)
    → (e' ≡ true) ⊎ (k ≡ 0)
    → Fate e x s (k + a) c n q d
    → Fate e' x s k c n (q + a) d
Fate-end e e' x s k c n q d a g f = record {
  fresh = f.fresh;
  kept_once = omega (arith, f.kept_once);
  sent_once = f.sent_once;
  covered = elim f.covered [ inl v ↦ inl v | inr (u, v) ↦ inr (u, omega (arith, v)) ];
  alive = f.alive;
  closed = g;
}

-- The next of those that were captured.
pub Fate-send :
    (e x : Bool) (s k c n q d a : ℕ) → Fate e x s k (a + c) n q d → Fate e x s k c (n + a) q d
Fate-send e x s k c n q d a f = record {
  fresh = f.fresh;
  kept_once = f.kept_once;
  sent_once = omega (arith, f.sent_once);
  covered = elim f.covered [
    | inl (u, v) ↦ inl (u, omega (arith, v))
    | inr (u, v) ↦ inr (u, omega (arith, v))
  ];
  alive = elim f.alive [ inl v ↦ inl (omega (arith, v)) | inr v ↦ inr v ];
  closed = f.closed;
}

pub Fate-destroy :
    (e x : Bool) (s k n q d a : ℕ) → Fate e x s k 0 n (a + q) d → Fate e x s k 0 n q (d + a)
Fate-destroy e x s k n q d a f = record {
  fresh = f.fresh;
  kept_once = omega (arith, f.kept_once);
  sent_once = f.sent_once;
  covered = f.covered;
  alive = inl refl;
  closed = f.closed;
}

pub occurrences-one : (t u : ℕ) → occurrences t (u ∷ []) ≡ (if u == t then 1 else 0)
occurrences-one t u = ground arith

-- A new task.
pub is_new :
    (t u : ℕ) (ts : List ℕ)
    → (occurrences u ts == 0) ≡ true
    → occurrences t ts ≤ 1
    → (if u == t then 1 else 0) + occurrences t ts ≤ 1
is_new t u ts h f = elim (Bool-cases (u == t)) [
  | inl e ↦
      let same : u ≡ t = ground (arith, e) in
      let none_t : (occurrences t ts == 0) ≡ true = rw same at h in ground (arith, e, none_t)
  | inr e ↦ rw e (omega (arith, f))
]
