-- ===== src/IntrusivePtr/Counts.antt =====
-- The reference count of an object, by the pointers that there are (IntrusivePtr.h).
use hf_qcorral.Prelude.{
  ℕ, zero, suc, ◌+◌, ◌<◌, ◌≤◌, ◌^◌, ◌≡◌, refl, Bool, true, false, ◌||◌, Option, none, some, List,
  [], ◌∷◌, ◌++◌, ◌==◌, ltb, if◌then◌else◌, get_elem?, set, length, inc_size, dec_size, arith,
}
use hf_qcorral.IntrusivePtr.{Object, Objects, count_up, count_down, ref, deref, held}

abbrev pub hits : ℕ → Option ℕ → Bool
hits q none = false
hits q (some p) = q == p

abbrev pub one : Bool → ℕ
one b = if b then 1 else 0

-- How many of the variables hold a pointer to an object.
abbrev pub refers : ℕ → List (Option ℕ) → ℕ
refers q [] = 0
refers q (p ∷ ps) = one (hits q p) + refers q ps

pub refers-append :
    (q : ℕ) (ps rs : List (Option ℕ)) → refers q (ps ++ rs) ≡ refers q ps + refers q rs
refers-append q [] rs = omega arith
refers-append q (p ∷ ps) rs = omega (arith, refers-append q ps rs)

pub refers-set :
    (q : ℕ) (ps : List (Option ℕ)) (i : ℕ) (p : Option ℕ)
    → i < length ps
    → refers q (set ps i p) + one (hits q (held (get_elem? ps i))) ≡ refers q ps + one (hits q p)
refers-set q [] i p h = absurd (omega (arith, h))
refers-set q (r ∷ ps) zero p h = omega arith
refers-set q (r ∷ ps) (suc i) p h = omega (arith, refers-set q ps i p (omega (arith, h)))

pub refers-le-length : (q : ℕ) (ps : List (Option ℕ)) → refers q ps ≤ length ps
refers-le-length q [] = omega arith
refers-le-length q (p ∷ ps) = omega (arith, refers-le-length q ps, one_le (hits q p))
  where
    one_le : (b : Bool) → one b ≤ 1
    one_le true = omega arith
    one_le false = omega arith

pub ref_at :
    (q : ℕ) (p : Option ℕ) (m : Objects) → ref p m q ≡ (if hits q p then count_up (m q) else m q)
unfolding ref
ref_at q none m = refl
ref_at q (some p) m = refl

pub deref_at :
    (q : ℕ) (p : Option ℕ) (m : Objects)
    → deref p m q ≡ (if hits q p then count_down (m q) else m q)
unfolding deref
deref_at q none m = refl
deref_at q (some p) m = refl

inc_size_lem : (k n : ℕ) → k ≡ n → n + 1 < 2 ^ 64 → inc_size k ≡ n + 1
inc_size_lem k n e h = omega (arith, e, h)

dec_size_lem : (k n : ℕ) → k ≡ n + 1 → n + 1 < 2 ^ 64 → dec_size k ≡ n
dec_size_lem k n e h = omega (arith, e, h)

-- An object with `n` pointers to it; `seen` is whether there ever was one.
pub record IsCounted (seen : Bool) (n : ℕ) (o : Object) : Type 0 where
  pub count : o.ref_count ≡ n
  pub no_fault : o.fault ≡ false
  pub deleted : o.deleted ≡ (if ltb 0 n then 0 else one seen)
  pub unseen : seen ≡ false → n ≡ 0

pub up-IsCounted :
    (b seen : Bool) (n : ℕ) (o : Object)
    → IsCounted seen n o
    → (b ≡ true → o.deleted ≡ 0)
    → n + 1 < 2 ^ 64
    → IsCounted (seen || b) (n + one b) (if b then count_up o else o)
up-IsCounted true true n o c d h = record {
  count = inc_size_lem o.ref_count n c.count h;
  no_fault = ground (arith, c.no_fault, d refl);
  deleted = ground (arith, d refl);
  unseen = λ e. cc e;
}
up-IsCounted true false n o c d h = record {
  count = inc_size_lem o.ref_count n c.count h;
  no_fault = ground (arith, c.no_fault, d refl);
  deleted = ground (arith, d refl);
  unseen = λ e. cc e;
}
up-IsCounted false true n o c d h = record {
  count = omega (arith, c.count);
  no_fault = c.no_fault;
  deleted = ground (arith, c.deleted);
  unseen = λ e. cc e;
}
up-IsCounted false false n o c d h = record {
  count = omega (arith, c.count);
  no_fault = c.no_fault;
  deleted = ground (arith, c.deleted);
  unseen = λ e. omega (arith, c.unseen refl);
}

pub down-IsCounted :
    (b seen : Bool) (n : ℕ) (o : Object)
    → IsCounted seen (n + one b) o
    → n + 1 < 2 ^ 64
    → IsCounted seen n (if b then count_down o else o)
down-IsCounted false seen n o c h = record {
  count = omega (arith, c.count);
  no_fault = c.no_fault;
  deleted = ground (arith, c.deleted);
  unseen = λ e. omega (arith, c.unseen e);
}
down-IsCounted true false n o c h = absurd (omega (arith, c.unseen refl))
down-IsCounted true true n o c h =
    let d : dec_size o.ref_count ≡ n = dec_size_lem o.ref_count n c.count h in
    let e : o.deleted ≡ 0 = ground (arith, c.deleted) in
    record {
      count = d;
      no_fault = ground (arith, c.no_fault, e);
      deleted = ground (arith, d, e);
      unseen = λ z. cc z;
    }
