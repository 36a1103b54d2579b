-- ===== src/ParkingLot/Order.antt =====
-- In which order a parking lot wakes its tasks.
use hf_qcorral.Prelude.{
  ℕ, ◌≡◌, refl, ap, ◌∙◌, Bool-cases, inl, inr, List, [], ◌∷◌, ◌++◌, map, append-nil, append_assoc,
  replicate, map-append, length, ◌==◌,
}
use hf_qcorral.ParkingLot.{
  Lot, unlink, do_suspend, await_cancel, unpark_one, unpark_moved, unpark_all,
}

pub data Call : Type 0 where
  suspend : ℕ → ℕ → Call
  cancel : ℕ → Call
  wake_one wake_all : Call

-- A lot with the handles that were suspended on it and those that it resumed, both in order.
pub record Log : Type 0 where
  pub parked : Lot
  pub suspended : List ℕ
  pub resumed : List ℕ

unfoldable pub step : Log → Call → Log
step s (suspend i h) = record s {
  parked = do_suspend i h s.parked;
  suspended = s.suspended ++ h ∷ [];
}
step s (cancel i) = record s { parked = (await_cancel i s.parked).0 }
step s wake_one =
    let (ps, hs) = unpark_one s.parked in record s { parked = ps; resumed = s.resumed ++ hs }
step s wake_all =
    let (ps, hs) = unpark_all s.parked in record s { parked = ps; resumed = s.resumed ++ hs }

unfoldable pub run : Log → List Call → Log
run s [] = s
run s (c ∷ cs) = run (step s c) cs

abbrev pub handles : Lot → List ℕ
handles = map (λ p. p.handle)

-- `xs` is `ys` with some entries left out.
pub data IsSublist : List ℕ → List ℕ → Type 0 where
  nil : IsSublist [] []
  skip : {xs ys : List ℕ} (y : ℕ) → IsSublist xs ys → IsSublist xs (y ∷ ys)
  keep : {xs ys : List ℕ} (y : ℕ) → IsSublist xs ys → IsSublist (y ∷ xs) (y ∷ ys)

IsSublist-refl : (xs : List ℕ) → IsSublist xs xs
IsSublist-refl [] = nil
IsSublist-refl (x ∷ xs) = keep x (IsSublist-refl xs)

IsSublist-trans : {xs ys zs : List ℕ} → IsSublist xs ys → IsSublist ys zs → IsSublist xs zs
IsSublist-trans p nil = p
IsSublist-trans p (skip y q) = skip y (IsSublist-trans p q)
IsSublist-trans (skip _ p) (keep y q) = skip y (IsSublist-trans p q)
IsSublist-trans (keep _ p) (keep y q) = keep y (IsSublist-trans p q)

IsSublist-append :
    {xs ys us vs : List ℕ} → IsSublist xs ys → IsSublist us vs → IsSublist (xs ++ us) (ys ++ vs)
IsSublist-append nil q = q
IsSublist-append (skip y p) q = skip y (IsSublist-append p q)
IsSublist-append (keep y p) q = keep y (IsSublist-append p q)

unlink-IsSublist : (i : ℕ) (ps : Lot) → IsSublist (handles (unlink i ps)) (handles ps)
unfolding unlink
unlink-IsSublist i [] = nil
unlink-IsSublist i (p ∷ ps) = elim (Bool-cases (p.item == i)) [
  | inl e ↦ rw e (skip p.handle (IsSublist-refl (handles ps)))
  | inr e ↦ rw e (keep p.handle (unlink-IsSublist i ps))
]

unpark_moved-handles : (ps : Lot) → unpark_moved ps ≡ handles ps
unfolding unpark_moved
unpark_moved-handles [] = refl
unpark_moved-handles (p ∷ ps) = ap (◌∷◌ p.handle) (unpark_moved-handles ps)

pub unpark_all-handles : (ps : Lot) → unpark_all ps ≡ ([], handles ps)
unfolding unpark_all
unpark_all-handles ps = rw (unpark_moved-handles ps)

unpark_one-handles : (ps : Lot) → (unpark_one ps).1 ++ handles (unpark_one ps).0 ≡ handles ps
unfolding unpark_one
unpark_one-handles [] = refl
unpark_one-handles (p ∷ ps) = refl

abbrev pub InOrder : Log → Type 0
InOrder s = IsSublist (s.resumed ++ handles s.parked) s.suspended

step-InOrder : (s : Log) (c : Call) → InOrder s → InOrder (step s c)
unfolding step do_suspend await_cancel
step-InOrder s (suspend i h) v =
    rw
      (
        map-append (λ p. p.handle) (unlink i s.parked) (record { item = i; handle = h } ∷ []),
        ← append_assoc,
      )
      (IsSublist-append
        (IsSublist-trans (IsSublist-append (IsSublist-refl s.resumed) (unlink-IsSublist i s.parked))
          v)
        (IsSublist-refl (h ∷ [])))
step-InOrder s (cancel i) v =
    IsSublist-trans (IsSublist-append (IsSublist-refl s.resumed) (unlink-IsSublist i s.parked)) v
step-InOrder s wake_one v =
    rw
      (
        append_assoc s.resumed (unpark_one s.parked).1 (handles (unpark_one s.parked).0),
        unpark_one-handles s.parked,
      )
      v
step-InOrder s wake_all v = rw (unpark_all-handles s.parked, append-nil) v

-- After any history of suspensions, cancellations and wake-ups, the handles resumed so far and then
-- those still parked stand in the order in which they were suspended, each at most as often.
pub run-InOrder : (s : Log) (cs : List Call) → InOrder s → InOrder (run s cs)
unfolding run
run-InOrder s [] v = v
run-InOrder s (c ∷ cs) v = run-InOrder (step s c) cs (step-InOrder s c v)

wake_each_from :
    (ps : Lot) (hs rs : List ℕ)
    → run (record { parked = ps; suspended = hs; resumed = rs }) (replicate (length ps) wake_one)
      ≡ record { parked = []; suspended = hs; resumed = rs ++ unpark_moved ps }
unfolding run step unpark_one unpark_moved
wake_each_from [] hs rs = simp append-nil
wake_each_from (p ∷ ps) hs rs =
    wake_each_from ps hs (rs ++ p.handle ∷ [])
    ∙ ap (λ l. record { parked = []; suspended = hs; resumed = l })
        (append_assoc rs (p.handle ∷ []) (unpark_moved ps))

-- Waking the parked tasks one by one, as often as there are any, comes to the same as waking them
-- all at once.
pub wake_each : (s : Log) → run s (replicate (length s.parked) wake_one) ≡ step s wake_all
unfolding step unpark_all
wake_each s = wake_each_from s.parked s.suspended s.resumed
