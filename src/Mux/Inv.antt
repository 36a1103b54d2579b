-- ===== src/Mux/Inv.antt =====
-- What the counter of a mux (detail/wait.h) says while calls of `invoke` are under way.
use hf_qcorral.Prelude.{
  ℕ, suc, ◌+◌, ◌≤◌, ◌<◌, ◌≡◌, refl, ap, ◌∙◌, Bool, true, false, ◌&&◌, Option, arith, ◌==◌,
  if◌then◌else◌,
}
use hf_qcorral.Mux.State.{Exception, Mux, size}
use hf_qcorral.Mux.Done.{count_done, AreStarted}

abbrev pub done : Mux → ℕ
done m = count_done m.helpers

-- `d` is the number of calls of `invoke` under way that have taken their own step back. Every
-- awaitable that has ended is counted but for those, and the parent is resumed once all are.
pub record Inv (d : ℕ) (m : Mux) : Type 0 where
  pub started : AreStarted m.helpers
  pub counted : m.count + d ≡ done m
  pub no_fault : m.fault ≡ false
  pub parent :
      m.parent_resumed ≡ (if m.parent_live && ((d == 0) && (done m == size m)) then 1 else 0)

-- One awaitable has ended and was not counted yet.
pub record Pending (d : ℕ) (m : Mux) : Type 0 where
  pub started : AreStarted m.helpers
  pub counted : m.count + suc d ≡ done m
  pub no_fault : m.fault ≡ false
  pub parent : m.parent_resumed ≡ 0

-- What no step takes back.
pub record Keeps (m n : Mux) : Type 0 where
  pub sized : size n ≡ size m
  pub live : n.parent_live ≡ m.parent_live
  pub more : done m ≤ done n

pub Keeps-refl : (m : Mux) → Keeps m m
Keeps-refl m = record { sized = refl; live = refl; more = omega arith }

pub Keeps-trans : {l m n : Mux} → Keeps l m → Keeps m n → Keeps l n
Keeps-trans p q = record {
  sized = q.sized ∙ p.sized;
  live = q.live ∙ p.live;
  more = omega (arith, p.more, q.more);
}

-- `notify` copes with every awaitable that ends while more than `size - k` have ended.
abbrev pub Works : ℕ → (Option Exception → Mux → Mux) → Type 0
Works k notify =
    (ex : Option Exception) (m : Mux) (d : ℕ)
    → Pending d m
    → size m < done m + k
    → Inv d (notify ex m) × Keeps m (notify ex m)

pub undone_parent : (d : ℕ) (m : Mux) → Inv d m → done m < size m → m.parent_resumed ≡ 0
undone_parent d m v h = ground (arith, v.parent)

pub full_flag :
    (n k c d : ℕ) (live : Bool)
    → c + d ≡ k
    → k ≤ n
    → (c == n) ≡ true
    → (live && ((d == 0) && (k == n))) ≡ live
full_flag n k c d live e le full = ground arith

pub nested_flag : (d : ℕ) (live b : Bool) → (live && ((suc d == 0) && b)) ≡ false
nested_flag d live b = ground arith

pub as_count : {a b : Bool} → a ≡ b → ◌≡◌ {A = ℕ} (if a then 1 else 0) (if b then 1 else 0)
as_count e = ap (λ (c : Bool). if c then 1 else 0) e

pub less_flag :
    (n k c d : ℕ) (live : Bool)
    → c + d ≡ k
    → (c == n) ≡ false
    → (live && ((d == 0) && (k == n))) ≡ false
less_flag n k c d live e less = ground arith

pub waiting_flag : (k n : ℕ) (live : Bool) → k < n → (live && ((0 == 0) && (k == n))) ≡ false
waiting_flag k n live h = ground arith

pub full_live : (live b : Bool) → live ≡ true → b ≡ true → (live && ((0 == 0) && b)) ≡ true
full_live live b p q = ground arith

pub less_live : (live b : Bool) → b ≡ false → (live && ((0 == 0) && b)) ≡ false
less_live live b q = ground arith

pub below : (k n : ℕ) → k ≤ n → (k == n) ≡ false → k < n
below k n h e = ground arith
