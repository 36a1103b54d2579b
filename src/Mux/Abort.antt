-- ===== src/Mux/Abort.antt =====
-- The cancellation of awaitables that all confirm it (detail/wait.h).
use hf_qcorral.Prelude.{
  ℕ, zero, suc, ◌+◌, ◌-◌, ◌≤◌, ◌<◌, ◌≡◌, refl, ap, ◌∙◌, ◌⊎◌, inl, inr, true, ◌||◌, Option, none,
  List, [], ◌∷◌, if_cases, length, arith, ◌==◌,
}
use hf_qcorral.Mux.State.{
  Exception, Status, running, cancelling, cancelled, confirms, Helper, Mux, size, helper_at,
  with_status, set_status, unreachable,
}
use hf_qcorral.Mux.Helper.{cancel_running, cancel}
use hf_qcorral.Mux.Combiner.{
  resume_parent, cancel_from, note, first_fail, recount, invoke, depth, internal_cancel,
}

-- An awaitable that runs and confirms its cancellation.
abbrev pub Confirms : Helper → Type 0
Confirms h = (h.status ≡ running) × (h.script.on_cancel ≡ confirms)

abbrev pub AllConfirm : List Helper → Type 0
AllConfirm [] = Unit {0}
AllConfirm (h ∷ hs) = Confirms h × AllConfirm hs

-- Such an awaitable, or one that was cancelled.
abbrev Stops : Helper → Type 0
Stops h = (h.status ≡ cancelled) ⊎ Confirms h

abbrev AllStop : List Helper → Type 0
AllStop [] = Unit {0}
AllStop (h ∷ hs) = Stops h × AllStop hs

AllConfirm-AllStop : (hs : List Helper) → AllConfirm hs → AllStop hs
AllConfirm-AllStop [] c = tt
AllConfirm-AllStop (h ∷ hs) (c, cs) = (inr c, AllConfirm-AllStop hs cs)

helper_at-Stops : (hs : List Helper) (i : ℕ) → i < length hs → AllStop hs → Stops (helper_at hs i)
unfolding helper_at
helper_at-Stops [] i l a = absurd (omega (arith, l))
helper_at-Stops (h ∷ hs) zero l (a, rest) = a
helper_at-Stops (h ∷ hs) (suc i) l (a, rest) = helper_at-Stops hs i (omega (arith, l)) rest

-- A helper that is marked twice, and ends cancelled.
with_status-AllStop :
    (hs : List Helper) (i : ℕ) (st : Status)
    → AllStop hs
    → AllStop (with_status (with_status hs i st) i cancelled)
      × (length (with_status (with_status hs i st) i cancelled) ≡ length hs)
unfolding with_status
with_status-AllStop [] i st a = (tt, refl)
with_status-AllStop (h ∷ hs) zero st (a, rest) = ((inl refl, rest), refl)
with_status-AllStop (h ∷ hs) (suc i) st (a, rest) =
    let (b, n) = with_status-AllStop hs i st rest in ((a, b), ap suc n)

-- What keeps awaitables so, and their number.
abbrev KeepsStopping : Mux → Mux → Type 0
KeepsStopping m m' = AllStop m'.helpers × (size m' ≡ size m)

module _ (notify : Option Exception → Mux → Mux)
    (quiet : (ex : Option Exception) (m : Mux)
      → AllStop m.helpers
      → KeepsStopping m (notify ex m)) where
  cancelled-stops :
      (i : ℕ) (m : Mux)
      → AllStop m.helpers
      → KeepsStopping m (notify none (set_status i cancelled (set_status i cancelling m)))
  unfolding set_status
  cancelled-stops i m a =
      let (b, n) = with_status-AllStop m.helpers i cancelling a in
      let (c, k) = quiet none (set_status i cancelled (set_status i cancelling m)) b in (c, k ∙ n)

  cancel-stops :
      (i : ℕ) (m : Mux)
      → i < size m
      → AllStop m.helpers
      → KeepsStopping m (cancel notify i m).0 × ((cancel notify i m).1 ≡ true)
  unfolding cancel cancel_running
  cancel-stops i m l a = by_status (helper_at-Stops m.helpers i l a)
    where
      by_status :
          Stops (helper_at m.helpers i)
          → KeepsStopping m (cancel notify i m).0 × ((cancel notify i m).1 ≡ true)
      by_status (inl c) = rw (cancel, c) ((a, refl), refl)
      by_status (inr (r, c)) = rw (cancel, r, c, cancel_running) (cancelled-stops i m a, refl)

  pub cancel_from-stops :
      (left i : ℕ) (m : Mux)
      → left + i ≤ size m
      → AllStop m.helpers
      → KeepsStopping m (cancel_from notify left i m).0 × ((cancel_from notify left i m).1 ≡ true)
  unfolding cancel_from
  cancel_from-stops zero i m l a = ((a, refl), refl)
  cancel_from-stops (suc left) i m l a =
      let ((b, n), now) = cancel-stops i m (omega (arith, l)) a in
      let m' = (cancel notify i m).0 in
      let ((c, k), rest) = cancel_from-stops left (i + 1) m' (omega (arith, l, n)) b in
      ((c, k ∙ n), ground (arith, now, rest))

resume_parent-stops : (m : Mux) → AllStop m.helpers → KeepsStopping m (resume_parent m)
unfolding resume_parent
resume_parent-stops m a =
    if_cases (KeepsStopping m) m.parent_live _ _ (λ _. (a, refl)) (λ _. (a, refl))

recount-stops : (m : Mux) → AllStop m.helpers → KeepsStopping m (recount m)
unfolding recount
recount-stops m a =
    let m' = record m { count = m.count + 1 } in
    if_cases (KeepsStopping m) (m'.count == size m') (resume_parent m') m'
      (λ _. resume_parent-stops m' a) (λ _. (a, refl))

invoke-stops :
    (fuel : ℕ) (ex : Option Exception) (m : Mux)
    → AllStop m.helpers
    → KeepsStopping m (invoke fuel ex m)
unfolding invoke note first_fail unreachable
invoke-stops zero ex m a = (a, refl)
invoke-stops (suc fuel) ex m a =
    let m' = note ex m in
    let m'' = record m' { count = m'.count - 1 } in
    let ((b, n), _) =
      cancel_from-stops (invoke fuel) (invoke-stops fuel) (size m') 0 m'' (omega arith) a in
    let (c, k) = recount-stops (cancel_from (invoke fuel) (size m') 0 m'').0 b in
    if_cases (KeepsStopping m) (m'.count == size m') _ _ (λ _. resume_parent-stops m' a)
      (λ _.
        if_cases (KeepsStopping m) (first_fail ex m || (m'.count == m'.min_ready)) _ _
          (λ _. (c, k ∙ n)) (λ _. (a, refl)))

-- Awaitables that all run and confirm their cancellation are all cancelled.
pub internal_cancel-all : (m : Mux) → AllConfirm m.helpers → (internal_cancel m).1 ≡ true
unfolding internal_cancel
internal_cancel-all m c =
    (cancel_from-stops (invoke (depth m)) (invoke-stops (depth m)) (size m) 0 m (omega arith)
      (AllConfirm-AllStop m.helpers c)).1
