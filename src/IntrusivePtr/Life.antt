-- ===== src/IntrusivePtr/Life.antt =====
-- An object is deleted when the last pointer to it goes (IntrusivePtr.h).
use hf_qcorral.Prelude.{
  ℕ, zero, suc, ◌+◌, ◌<◌, ◌≤◌, ◌^◌, ◌≡◌, refl, sym, subst, inl, inr, Bool, true, false, ◌||◌, ◌&&◌,
  Bool-cases, Option, none, some, List, [], ◌∷◌, ◌++◌, ◌==◌, ltb, ltb→lt, if◌then◌else◌, if_cases,
  get_elem?, set, length, length-set, length-append, arith,
}
use hf_qcorral.IntrusivePtr.{
  Object, make, Objects, count_up, ref, deref, Program, held, pointer, construct, copy, move,
  assign_copy, assign_move, destroy, Use, adopts, copies, moves, destroys, assigns, move_assigns,
  is_there, is_possible, apply, run,
}
use hf_qcorral.IntrusivePtr.Counts.{
  hits, one, refers, refers-append, refers-set, refers-le-length, ref_at, deref_at, IsCounted,
  up-IsCounted, down-IsCounted,
}

-- The object `q`, with as many pointers as the variables hold; there is room for `k` more variables.
record IsShared (q : ℕ) (seen : Bool) (k : ℕ) (s : Program) : Type 0 where
  counted : IsCounted seen (refers q s.vars) (s.objects q)
  room : length s.vars + k + 1 < 2 ^ 64

-- One more pointer to what is there.
construct-IsShared :
    (q k : ℕ) (seen : Bool) (p : Option ℕ) (s : Program)
    → IsShared q seen (suc k) s
    → (hits q p ≡ true → (s.objects q).deleted ≡ 0)
    → IsShared q (seen || hits q p) k (construct p s)
unfolding construct
construct-IsShared q k seen p s i d =
    let b = hits q p in
    let n : refers q s.vars + one b ≡ refers q (s.vars ++ p ∷ []) =
      omega (arith, refers-append q s.vars (p ∷ [])) in
    let up =
      up-IsCounted b seen (refers q s.vars) (s.objects q) i.counted d
        (omega (arith, i.room, refers-le-length q s.vars)) in
    record {
      counted =
          subst (IsCounted (seen || b) (refers q (s.vars ++ p ∷ []))) (sym (ref_at q p s.objects)) (
            subst (λ m. IsCounted (seen || b) m (if b then count_up (s.objects q) else s.objects q))
              n up);
      room = omega (arith, i.room, length-append s.vars (p ∷ []));
    }

pointed : (q i : ℕ) (ps : List (Option ℕ)) → one (hits q (held (get_elem? ps i))) ≤ refers q ps
pointed q i [] = omega arith
pointed q zero (p ∷ ps) = omega arith
pointed q (suc i) (p ∷ ps) = omega (arith, pointed q i ps)

-- What a variable points to was not deleted, and has been pointed to.
alive :
    (b seen : Bool) (n : ℕ) (o : Object)
    → IsCounted seen n o
    → one b ≤ n
    → (b ≡ true → o.deleted ≡ 0) × ((seen || b) ≡ seen)
alive true true n o c h = (λ _. ground (arith, c.deleted, h), refl)
alive true false n o c h = absurd (omega (arith, c.unseen refl, h))
alive false true n o c h = (λ e. cc e, refl)
alive false false n o c h = (λ e. cc e, refl)

copy-IsShared :
    (q k : ℕ) (seen : Bool) (i : ℕ) (s : Program)
    → IsShared q seen (suc k) s
    → IsShared q seen k (copy i s)
unfolding copy
copy-IsShared q k seen i s h =
    let (a, e) =
      alive (hits q (pointer i s)) seen (refers q s.vars) (s.objects q) h.counted
        (pointed q i s.vars) in
    subst (λ b. IsShared q b k (construct (pointer i s) s)) e
      (construct-IsShared q k seen (pointer i s) s h a)

move-IsShared :
    (q k : ℕ) (seen : Bool) (i : ℕ) (s : Program)
    → i < length s.vars
    → IsShared q seen (suc k) s
    → IsShared q seen k (move i s)
unfolding move
move-IsShared q k seen i s l h =
    let p = pointer i s in
    let n : refers q s.vars ≡ refers q (set s.vars i none ++ p ∷ []) =
      omega (arith, refers-append q (set s.vars i none) (p ∷ []), refers-set q s.vars i none l) in
    record {
      counted = subst (λ m. IsCounted seen m (s.objects q)) n h.counted;
      room =
          omega
            (arith, h.room, length-append (set s.vars i none) (p ∷ []), length-set s.vars i none);
    }

-- A variable gets another pointer, which was counted, and the old one is counted down.
replace-IsShared :
    (q k : ℕ) (seen : Bool) (i : ℕ) (p : Option ℕ) (ps : List (Option ℕ)) (m : Objects)
    → i < length ps
    → length ps + k + 2 < 2 ^ 64
    → IsCounted seen (refers q ps + one (hits q p)) (m q)
    → IsShared q seen k (record { vars = set ps i p; objects = deref (held (get_elem? ps i)) m })
replace-IsShared q k seen i p ps m l r c =
    let old = held (get_elem? ps i) in
    let e = refers-set q ps i p l in
    let n : refers q ps + one (hits q p) ≡ refers q (set ps i p) + one (hits q old) =
      omega (arith, e) in
    record {
      counted = subst (IsCounted seen (refers q (set ps i p))) (sym (deref_at q old m)) (
          down-IsCounted (hits q old) seen (refers q (set ps i p)) (m q)
            (subst (λ x. IsCounted seen x (m q)) n c)
            (omega (arith, r, refers-le-length q (set ps i p), length-set ps i p)));
      room = omega (arith, r, length-set ps i p);
    }

destroy-IsShared :
    (q k : ℕ) (seen : Bool) (i : ℕ) (s : Program)
    → i < length s.vars
    → IsShared q seen (suc k) s
    → IsShared q seen k (destroy i s)
unfolding destroy
destroy-IsShared q k seen i s l h =
    replace-IsShared q k seen i none s.vars s.objects l (omega (arith, h.room))
      (subst (λ n. IsCounted seen n (s.objects q)) (omega arith) h.counted)

assign_copy-IsShared :
    (q k : ℕ) (seen : Bool) (i j : ℕ) (s : Program)
    → i < length s.vars
    → IsShared q seen (suc k) s
    → IsShared q seen k (assign_copy i j s)
unfolding assign_copy
assign_copy-IsShared q k seen i j s l h =
    let p = pointer j s in
    let (a, e) =
      alive (hits q p) seen (refers q s.vars) (s.objects q) h.counted (pointed q j s.vars) in
    let up =
      up-IsCounted (hits q p) seen (refers q s.vars) (s.objects q) h.counted a
        (omega (arith, h.room, refers-le-length q s.vars)) in
    replace-IsShared q k seen i p s.vars (ref p s.objects) l (omega (arith, h.room)) (
      subst (IsCounted seen (refers q s.vars + one (hits q p))) (sym (ref_at q p s.objects)) (
        subst
          (λ b.
            IsCounted b (refers q s.vars + one (hits q p))
              (if hits q p then count_up (s.objects q) else s.objects q))
          e up))

assign_move-IsShared :
    (q k : ℕ) (seen : Bool) (i j : ℕ) (s : Program)
    → i < length s.vars
    → j < length s.vars
    → IsShared q seen (suc k) s
    → IsShared q seen k (assign_move i j s)
unfolding assign_move
assign_move-IsShared q k seen i j s l r h =
    let p = pointer j s in
    let ps = set s.vars j none in
    let n : refers q s.vars ≡ refers q ps + one (hits q p) =
      omega (arith, refers-set q s.vars j none r) in
    replace-IsShared q k seen i p ps s.objects (omega (arith, l, length-set s.vars j none))
      (omega (arith, h.room, length-set s.vars j none))
      (subst (λ m. IsCounted seen m (s.objects q)) n h.counted)

-- Whether a pointer to the object was ever made from what `new` gives.
abbrev pub is_adopted : ℕ → List Use → Bool
is_adopted q [] = false
is_adopted q (u ∷ us) = elim u [ adopts p ↦ hits q p | _ ↦ false ] || is_adopted q us

less_room : (q k : ℕ) (seen : Bool) (s : Program) → IsShared q seen (suc k) s → IsShared q seen k s
less_room q k seen s h = record { counted = h.counted; room = omega (arith, h.room) }

-- What a pointer may be made from was not deleted.
fresh_to :
    (q : ℕ) (p : Option ℕ) (m : Objects) → is_there m p ≡ true → hits q p ≡ true → (m q).deleted ≡ 0
fresh_to q none m t e = cc e
fresh_to q (some p) m t e =
    let same : q ≡ p = ground (arith, e) in
    subst (λ v. (m v).deleted ≡ 0) (sym same) (ground (arith, t))

-- What is deleted was pointed to.
gone_seen :
    (q : ℕ) (p : Option ℕ) (seen : Bool) (n : ℕ) (m : Objects)
    → IsCounted seen n (m q)
    → is_there m p ≡ false
    → (seen || hits q p) ≡ seen
gone_seen q none seen n m c f = cc f
gone_seen q (some p) true n m c f = refl
gone_seen q (some p) false n m c f = elim (Bool-cases (q == p)) [
  | inl e ↦
      let same : q ≡ p = ground (arith, e) in
      absurd (
        ground
          (arith, c.deleted, c.unseen refl, subst (λ v. ((m v).deleted == 0) ≡ false) (sym same) f))
  | inr e ↦ e
]

adopt-IsShared :
    (q k : ℕ) (seen : Bool) (p : Option ℕ) (s : Program)
    → IsShared q seen (suc k) s
    → IsShared q (seen || hits q p) k (if is_there s.objects p then construct p s else s)
adopt-IsShared q k seen p s h =
    if_cases (IsShared q (seen || hits q p) k) (is_there s.objects p) _ _
      (λ t. construct-IsShared q k seen p s h (fresh_to q p s.objects t))
      (λ f.
        subst (λ b. IsShared q b k s) (sym (gone_seen q p seen _ s.objects h.counted f))
          (less_room q k seen s h))

or_false :
    {q k : ℕ} {s : Program} (seen : Bool) → IsShared q seen k s → IsShared q (seen || false) k s
or_false true h = h
or_false false h = h

step-IsShared :
    (q k : ℕ) (seen : Bool) (u : Use) (s : Program)
    → IsShared q seen (suc k) s
    → IsShared q
        (seen || elim u [ adopts p ↦ hits q p | _ ↦ false ])
        k
        (if is_possible u s then apply u s else s)
unfolding apply
step-IsShared q k seen (adopts p) s h = adopt-IsShared q k seen p s h
step-IsShared q k seen (copies i) s h = or_false seen (
    if_cases (IsShared q seen k) (ltb i (length s.vars)) _ _ (λ _. copy-IsShared q k seen i s h)
      (λ _. less_room q k seen s h))
step-IsShared q k seen (moves i) s h = or_false seen (
    if_cases (IsShared q seen k) (ltb i (length s.vars)) _ _
      (λ l. move-IsShared q k seen i s (ltb→lt i _ l) h) (λ _. less_room q k seen s h))
step-IsShared q k seen (destroys i) s h = or_false seen (
    if_cases (IsShared q seen k) (ltb i (length s.vars)) _ _
      (λ l. destroy-IsShared q k seen i s (ltb→lt i _ l) h) (λ _. less_room q k seen s h))
step-IsShared q k seen (assigns i j) s h = or_false seen (
    if_cases (IsShared q seen k) (ltb i (length s.vars) && ltb j (length s.vars)) _ _
      (λ l. assign_copy-IsShared q k seen i j s (ground (arith, l)) h)
      (λ _. less_room q k seen s h))
step-IsShared q k seen (move_assigns i j) s h = or_false seen (
    if_cases (IsShared q seen k) (ltb i (length s.vars) && ltb j (length s.vars)) _ _
      (λ l. assign_move-IsShared q k seen i j s (ground (arith, l)) (ground (arith, l)) h)
      (λ _. less_room q k seen s h))

run-IsShared :
    (q : ℕ) (seen : Bool) (us : List Use) (s : Program)
    → IsShared q seen (length us) s
    → IsShared q (seen || is_adopted q us) 0 (run s us)
unfolding run
run-IsShared q seen [] s h = or_false seen h
run-IsShared q seen (u ∷ us) s h =
    let now : Bool = elim u [ adopts p ↦ hits q p | _ ↦ false ] in
    subst (λ b. IsShared q b 0 (run s (u ∷ us))) (or_assoc seen now (is_adopted q us))
      (run-IsShared q (seen || now) us _ (step-IsShared q (length us) seen u s h))
  where
    or_assoc : (a b c : Bool) → ((a || b) || c) ≡ (a || (b || c))
    or_assoc true b c = refl
    or_assoc false b c = refl

abbrev pub no_pointers : Program
no_pointers = record { vars = []; objects = λ q. make }

-- Whatever a program does with pointers (fewer than 2^63 operations, making none from an object that
-- was deleted): for each object, the reference count is the number of pointers to it; it is
-- deleted once as soon as there was a pointer to it and there is none any more, and not before; and
-- no object is used after it was deleted.
pub run_counts :
    (us : List Use) (q : ℕ)
    → length us < 2 ^ 63
    → let s = run no_pointers us in
      ((s.objects q).ref_count ≡ refers q s.vars)
      × ((s.objects q).deleted
          ≡ (if ltb 0 (refers q s.vars) then 0 else (if is_adopted q us then 1 else 0)))
      × ((s.objects q).fault ≡ false)
unfolding make
run_counts us q h =
    let s = run no_pointers us in
    let i = run-IsShared q false us no_pointers record {
      counted = record { count = refl; no_fault = refl; deleted = refl; unseen = λ _. refl };
      room = omega (arith, h);
    } in
    (i.counted.count, i.counted.deleted, i.counted.no_fault)
