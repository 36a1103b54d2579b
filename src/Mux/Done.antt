-- ===== src/Mux/Done.antt =====
-- How many awaitables of a mux have come to an end.
use hf_qcorral.Prelude.{
  ℕ, zero, suc, ◌≤◌, ◌<◌, ◌≡◌, refl, ap, Bool, true, false, List, [], ◌∷◌, arith, length,
  if◌then◌else◌,
}
use hf_qcorral.Mux.State.{
  Status, not_started, cancellation_pending, cancelled, ready, succeeded, failed, Helper, helper_at,
  with_status,
}

abbrev pub is_done : Status → Bool
is_done st = elim st [ cancelled ↦ true | succeeded ↦ true | failed ↦ true | _ ↦ false ]

-- Started, and not about to report a result.
abbrev pub is_started : Status → Bool
is_started st = elim st [
  | not_started ↦ false
  | cancellation_pending ↦ false
  | ready ↦ false
  | _ ↦ true
]

abbrev pub count_done : List Helper → ℕ
count_done [] = 0
count_done (h ∷ hs) = if is_done h.status then suc (count_done hs) else count_done hs

abbrev pub AreStarted : List Helper → Type 0
AreStarted [] = Unit {0}
AreStarted (h ∷ hs) = (is_started h.status ≡ true) × AreStarted hs

pub count_done-le : (hs : List Helper) → count_done hs ≤ length hs
count_done-le [] = omega arith
count_done-le (h ∷ hs) = ground (arith, count_done-le hs)

pub count_done-lt :
    (hs : List Helper) (i : ℕ) → is_done (helper_at hs i).status ≡ false → count_done hs < length hs
unfolding helper_at
count_done-lt [] i e = cc
count_done-lt (h ∷ hs) zero e = ground (arith, count_done-le hs)
count_done-lt (h ∷ hs) (suc i) e = ground (arith, count_done-lt hs i e)

pub length-with_status :
    (hs : List Helper) (i : ℕ) (st : Status) → length (with_status hs i st) ≡ length hs
unfolding with_status
length-with_status [] i st = refl
length-with_status (h ∷ hs) zero st = refl
length-with_status (h ∷ hs) (suc i) st = ap suc (length-with_status hs i st)

pub count_done-end :
    (hs : List Helper) (i : ℕ) (st : Status)
    → is_done (helper_at hs i).status ≡ false
    → is_done st ≡ true
    → count_done (with_status hs i st) ≡ suc (count_done hs)
unfolding helper_at with_status
count_done-end [] i st e d = cc
count_done-end (h ∷ hs) zero st e d = rw (e, d)
count_done-end (h ∷ hs) (suc i) st e d = ground (arith, count_done-end hs i st e d)

pub count_done-keep :
    (hs : List Helper) (i : ℕ) (st : Status)
    → is_done (helper_at hs i).status ≡ false
    → is_done st ≡ false
    → count_done (with_status hs i st) ≡ count_done hs
unfolding helper_at with_status
count_done-keep [] i st e d = refl
count_done-keep (h ∷ hs) zero st e d = rw (e, d)
count_done-keep (h ∷ hs) (suc i) st e d = ground (arith, count_done-keep hs i st e d)

pub AreStarted-set :
    (hs : List Helper) (i : ℕ) (st : Status)
    → is_started st ≡ true
    → AreStarted hs
    → AreStarted (with_status hs i st)
unfolding with_status
AreStarted-set [] i st e s = s
AreStarted-set (h ∷ hs) zero st e s = (e, s.1)
AreStarted-set (h ∷ hs) (suc i) st e s = (s.0, AreStarted-set hs i st e s.1)

pub AreStarted-at :
    (hs : List Helper) (i : ℕ) → AreStarted hs → is_started (helper_at hs i).status ≡ true
unfolding helper_at
AreStarted-at [] i s = refl
AreStarted-at (h ∷ hs) zero s = s.0
AreStarted-at (h ∷ hs) (suc i) s = AreStarted-at hs i s.1

pub status-with_status :
    (hs : List Helper) (i : ℕ) (st : Status)
    → is_done (helper_at hs i).status ≡ false
    → (helper_at (with_status hs i st) i).status ≡ st
unfolding helper_at with_status
status-with_status [] i st e = cc
status-with_status (h ∷ hs) zero st e = refl
status-with_status (h ∷ hs) (suc i) st e = status-with_status hs i st e
