-- ===== src/ParkingLot/Linked.antt =====
-- Which awaitables are linked into a parking lot (detail/ParkingLot.h).
use hf_qcorral.Prelude.{
  ℕ, ◌≡◌, refl, ap, if◌then◌else◌, sym, ◌⊎◌, inl, inr, Bool-cases, List, [], ◌∷◌, ◌++◌, ◌==◌,
  ==_iff,
}
use hf_qcorral.ParkingLot.{Parked, Lot, unlink, do_suspend, await_cancel, unpark_one, unpark_all}
use hf_qcorral.ParkingLot.Order.{Log, Call, suspend, cancel, wake_one, wake_all, step, run}

abbrev pub IsLinked : ℕ → Lot → Type 0
IsLinked i [] = ⊥
IsLinked i (p ∷ ps) = (p.item ≡ i) ⊎ IsLinked i ps

abbrev pub Distinct : Lot → Type 0
Distinct [] = Unit {0}
Distinct (p ∷ ps) = (¬ IsLinked p.item ps) × Distinct ps

IsLinked-unlink : (i j : ℕ) (ps : Lot) → IsLinked j (unlink i ps) → IsLinked j ps
unfolding unlink
IsLinked-unlink i j [] l = l
IsLinked-unlink i j (p ∷ ps) l = elim (Bool-cases (p.item == i)) [
  | inl e ↦ inr (rw (e, unlink) at l)
  | inr e ↦ elim (let l' : (p.item ≡ j) ⊎ IsLinked j (unlink i ps) = rw (e, unlink) at l in l') [
    | inl x ↦ inl x
    | inr x ↦ inr (IsLinked-unlink i j ps x)
  ]
]

unlink-Distinct : (i : ℕ) (ps : Lot) → Distinct ps → Distinct (unlink i ps)
unfolding unlink
unlink-Distinct i [] d = d
unlink-Distinct i (p ∷ ps) d = elim (Bool-cases (p.item == i)) [
  | inl e ↦ rw e d.1
  | inr e ↦ rw e ((λ l. d.0 (IsLinked-unlink i p.item ps l)), unlink-Distinct i ps d.1)
]

not-IsLinked-unlink : (i : ℕ) (ps : Lot) → Distinct ps → ¬ IsLinked i (unlink i ps)
unfolding unlink
not-IsLinked-unlink i [] d l = l
not-IsLinked-unlink i (p ∷ ps) d l = elim (Bool-cases (p.item == i)) [
  | inl e ↦ d.0 (rw (sym ((==_iff p.item i).0 e)) at (rw (e, unlink) at l))
  | inr e ↦ elim (let l' : (p.item ≡ i) ⊎ IsLinked i (unlink i ps) = rw (e, unlink) at l in l') [
    | inl x ↦ cc (e, (==_iff p.item i).1 x)
    | inr x ↦ not-IsLinked-unlink i ps d.1 x
  ]
]

IsLinked-append :
    (j : ℕ) (p : Parked) (ps : Lot) → IsLinked j (ps ++ p ∷ []) → (p.item ≡ j) ⊎ IsLinked j ps
IsLinked-append j p [] l = l
IsLinked-append j p (x ∷ xs) (inl e) = inr (inl e)
IsLinked-append j p (x ∷ xs) (inr l) = swap (IsLinked-append j p xs l)
  where
    swap : (p.item ≡ j) ⊎ IsLinked j xs → (p.item ≡ j) ⊎ IsLinked j (x ∷ xs)
    swap (inl e) = inl e
    swap (inr l) = inr (inr l)

append-Distinct :
    (p : Parked) (ps : Lot) → ¬ IsLinked p.item ps → Distinct ps → Distinct (ps ++ p ∷ [])
append-Distinct p [] n d = ((λ l. l), tt)
append-Distinct p (x ∷ xs) n d =
    ((λ l. clash (IsLinked-append x.item p xs l)), append-Distinct p xs (λ l. n (inr l)) d.1)
  where
    clash : (p.item ≡ x.item) ⊎ IsLinked x.item xs → ⊥
    clash (inl e) = n (inl (sym e))
    clash (inr l) = d.0 l

unpark_one-Distinct : (ps : Lot) → Distinct ps → Distinct (unpark_one ps).0
unfolding unpark_one
unpark_one-Distinct [] d = tt
unpark_one-Distinct (p ∷ ps) d = d.1

step-Distinct : (s : Log) (c : Call) → Distinct s.parked → Distinct (step s c).parked
unfolding step do_suspend await_cancel unpark_all
step-Distinct s (suspend i h) d =
    append-Distinct (record { item = i; handle = h }) (unlink i s.parked)
      (not-IsLinked-unlink i s.parked d) (unlink-Distinct i s.parked d)
step-Distinct s (cancel i) d = unlink-Distinct i s.parked d
step-Distinct s wake_one d = unpark_one-Distinct s.parked d
step-Distinct s wake_all d = tt

run-Distinct : (s : Log) (cs : List Call) → Distinct s.parked → Distinct (run s cs).parked
unfolding run
run-Distinct s [] d = d
run-Distinct s (c ∷ cs) d = run-Distinct (step s c) cs (step-Distinct s c d)

-- The lot without an awaitable, as often as it may be there.
abbrev pub without : ℕ → Lot → Lot
without i [] = []
without i (p ∷ ps) = if p.item == i then without i ps else p ∷ without i ps

without-absent : (i : ℕ) (ps : Lot) → ¬ IsLinked i ps → without i ps ≡ ps
without-absent i [] n = refl
without-absent i (p ∷ ps) n = elim (Bool-cases (p.item == i)) [
  | inl e ↦ absurd (n (inl ((==_iff p.item i).0 e)))
  | inr e ↦ rw e (ap (◌∷◌ p) (without-absent i ps (λ l. n (inr l))))
]

unlink-without : (i : ℕ) (ps : Lot) → Distinct ps → unlink i ps ≡ without i ps
unfolding unlink
unlink-without i [] d = refl
unlink-without i (p ∷ ps) d = elim (Bool-cases (p.item == i)) [
  | inl e ↦ rw e (sym (without-absent i ps (absent ((==_iff p.item i).0 e))))
  | inr e ↦ rw e (ap (◌∷◌ p) (unlink-without i ps d.1))
]
  where
    absent : p.item ≡ i → ¬ IsLinked i ps
    absent e l = d.0 (rw e l)

-- Whatever happened before on a lot whose awaitables were all different, a cancelled awaitable is
-- no longer linked, and the lot is what it was but for that awaitable, in the same order.
pub run-cancel :
    (s : Log) (cs : List Call) (i : ℕ)
    → Distinct s.parked
    → let after = run s cs in
      let cancelled = step after (cancel i) in
      (¬ IsLinked i cancelled.parked)
      × (cancelled.parked ≡ without i after.parked)
      × (cancelled.resumed ≡ after.resumed)
unfolding step await_cancel
run-cancel s cs i d = (
  not-IsLinked-unlink i (run s cs).parked (run-Distinct s cs d),
  unlink-without i (run s cs).parked (run-Distinct s cs d),
  refl,
)
