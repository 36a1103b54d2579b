-- ===== src/Shared/History.antt =====
-- Histories of a shared operation: who waits for it, and what it yields (Shared.h).
use hf_qcorral.Prelude.{
  ℕ, ◌≡◌, refl, ap, Bool, true, false, ◌&&◌, ◌||◌, ◌⊎◌, inl, inr, Bool-cases, if_cases, List, [],
  ◌∷◌, ◌++◌, arith, length, ◌==◌, if◌then◌else◌,
}
use hf_qcorral.Awaitable.{OnSuspend, keeps, resumes, throws, OnCancel, confirms, defers, completes}
use hf_qcorral.ParkingLot.{Parked, Lot, unlink}
use hf_qcorral.Shared.{
  Result, incomplete, cancel_pending, cancelling, exception, State, ready, is_none, is_incomplete,
  early_cancel, invoke, wake, start, suspend, result, forward_cancel, cancel,
}

-- `join i h` is `co_await` by an awaitable `i` whose parent has the handle `h`; `skip` cancels one
-- early, `leave i` cancels it later, `complete` resumes the handle of the operation, and `wake_next`
-- is a round of the loop of `invoke`.
pub data Call : Type 0 where
  join : ℕ → ℕ → Call
  skip complete wake_next : Call
  leave : ℕ → Call

-- A shared operation, the handles of the parents that were suspended on it, and those that it
-- resumed.
pub record Log : Type 0 where
  pub state : State
  pub joined : List ℕ
  pub resumed : List ℕ

unfoldable pub step : Log → Call → Log
unfolding ready early_cancel invoke wake suspend result cancel
step l (join i h) =
    if ready l.state
    then record l { state = (result l.state).0 }
    else record l { state = suspend i h l.state; joined = l.joined ++ h ∷ [] }
step l skip = record l { state = (early_cancel l.state).0 }
step l complete = record l { state = invoke l.state }
step l wake_next = let (s, hs) = wake l.state in record l { state = s; resumed = l.resumed ++ hs }
step l (leave i) = record l { state = (cancel i l.state).0 }

unfoldable pub run : Log → List Call → Log
unfolding step
run l [] = l
run l (c ∷ cs) = run (step l c) cs

-- Parents wait only for an operation that is under way; and while it is being cancelled, only the
-- parent that was cancelled last. (If an assertion failed, nothing is promised.)
abbrev pub IsOrderly : State → Type 0
IsOrderly s =
    (s.fault ≡ true)
    ⊎ (s.parents ≡ [])
    ⊎ (s.result ≡ incomplete)
    ⊎ ((s.result ≡ cancelling) × (length s.parents ≡ 1))

pub parents-invoke : (s : State) → (invoke s).parents ≡ []
unfolding invoke
parents-invoke s = ground arith

invoke-IsOrderly : (s : State) → IsOrderly (invoke s)
invoke-IsOrderly s = inr (inl (parents-invoke s))

start-IsOrderly : (r : OnSuspend) (s : State) → IsOrderly s → IsOrderly (start r s)
unfolding start
start-IsOrderly keeps s o = o
start-IsOrderly resumes s o = invoke-IsOrderly s
start-IsOrderly (throws ex) s o = invoke-IsOrderly (record s { result = exception ex })

-- Who joins finds the operation incomplete, or does not wait.
not_ready : (s : State) → ready s ≡ false → s.result ≡ incomplete
unfolding ready
not_ready s e = ground arith

unpend : Result → Result
unpend r = elim r [ cancel_pending ↦ cancelling | r ↦ r ]

suspend-IsOrderly : (i h : ℕ) (s : State) → s.result ≡ incomplete → IsOrderly (suspend i h s)
unfolding suspend
suspend-IsOrderly i h s e =
    if_cases IsOrderly (is_none s.parents) _ _
      (λ _. start-IsOrderly s.object.on_suspend _ (inr (inr (inl (ground arith)))))
      (λ _. inr (inr (inl e)))

none_parents : (ps : Lot) → is_none ps ≡ true → ps ≡ []
none_parents [] e = refl
none_parents (p ∷ ps) e = cc

result-IsOrderly : (s : State) → ready s ≡ true → IsOrderly s → IsOrderly (result s).0
unfolding result ready
result-IsOrderly s e (inl f) = inl (ground arith)
result-IsOrderly s e (inr (inl n)) = inr (inl (ground arith))
result-IsOrderly s e (inr (inr (inl r))) = inr (inl (ground (arith, none_parents s.parents)))
result-IsOrderly s e (inr (inr (inr c))) = inr (inr (inr (ground arith)))

early-IsOrderly : (s : State) → IsOrderly s → IsOrderly (early_cancel s).0
unfolding early_cancel
early-IsOrderly s o =
    if_cases (λ (r : State × Bool × Bool). IsOrderly r.0)
      (is_none s.parents && is_incomplete s.result) _ _
      (λ t. inr (inl (ground (arith, none_parents s.parents)))) (λ _. o)

forward_cancel-IsOrderly :
    (r : OnCancel) (i : ℕ) (s : State) (p : Parked)
    → s.parents ≡ p ∷ []
    → s.result ≡ cancelling
    → (s.fault ≡ true) ⊎ ((p.item == i) ≡ true)
    → IsOrderly (forward_cancel r i s).0
unfolding forward_cancel unlink
forward_cancel-IsOrderly confirms i s p e c (inl f) = inl f
forward_cancel-IsOrderly confirms i s p e c (inr m) = inr (inl (rw (e, m) refl))
forward_cancel-IsOrderly defers i s p e c f = inr (inr (inr (c, rw e refl)))
forward_cancel-IsOrderly completes i s p e c f = invoke-IsOrderly s

or_true : (b : Bool) → (b || true) ≡ true
or_true b = ground arith

cancel-IsOrderly :
    (i : ℕ) (s : State) (ps : Lot) → s.parents ≡ ps → IsOrderly s → IsOrderly (cancel i s).0
unfolding cancel unlink
cancel-IsOrderly i s [] e o = rw (e, cancel) (inr (inl (rw e refl)))
cancel-IsOrderly i s (p ∷ []) e o =
    rw (e, cancel)
      (forward_cancel-IsOrderly s.object.on_cancel i _ p e refl
        (elim (Bool-cases (p.item == i)) [ inl m ↦ inr m | inr m ↦ inl (rw m (or_true s.fault)) ]))
cancel-IsOrderly i s (p ∷ q ∷ ps) e (inl f) = rw (e, cancel) (inl f)
cancel-IsOrderly i s (p ∷ q ∷ ps) e (inr (inl n)) = cc
cancel-IsOrderly i s (p ∷ q ∷ ps) e (inr (inr (inl r))) = rw (e, cancel) (inr (inr (inl r)))
cancel-IsOrderly i s (p ∷ q ∷ ps) e (inr (inr (inr (c, n)))) =
    absurd (omega (arith, n, ap length e))

wake-IsOrderly : (s : State) (ps : Lot) → s.waking ≡ ps → IsOrderly s → IsOrderly (wake s).0
unfolding wake
wake-IsOrderly s [] e o = rw (e, wake) o
wake-IsOrderly s (p ∷ ps) e o = rw (e, wake) o

step-IsOrderly : (l : Log) (c : Call) → IsOrderly l.state → IsOrderly (step l c).state
unfolding step
step-IsOrderly l (join i h) o =
    if_cases (λ (k : Log). IsOrderly k.state) (ready l.state) _ _
      (λ e. result-IsOrderly l.state e o) (λ e. suspend-IsOrderly i h l.state (not_ready l.state e))
step-IsOrderly l skip o = early-IsOrderly l.state o
step-IsOrderly l complete o = invoke-IsOrderly l.state
step-IsOrderly l wake_next o = wake-IsOrderly l.state l.state.waking refl o
step-IsOrderly l (leave i) o = cancel-IsOrderly i l.state l.state.parents refl o

-- After any history of arrivals, cancellations and completions, unless an assertion failed: parents
-- wait only for an operation that is incomplete, or that is being cancelled, and then it has
-- exactly one parent left.
pub run-IsOrderly : (l : Log) (cs : List Call) → IsOrderly l.state → IsOrderly (run l cs).state
unfolding run
run-IsOrderly l [] o = o
run-IsOrderly l (c ∷ cs) o = run-IsOrderly (step l c) cs (step-IsOrderly l c o)
