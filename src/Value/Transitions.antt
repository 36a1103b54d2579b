-- ===== src/Value/Transitions.antt =====
-- Whom an assignment wakes, with what, and in which order.
use hf_qcorral.Prelude.{
  ℕ, ◌≡◌, refl, sym, ap, ◌∙◌, ◌⊎◌, inl, inr, Bool, Bool-cases, none, some, List, [], ◌∷◌, ◌++◌,
  append-nil, append_assoc, ◌==◌, ==_iff, if◌then◌else◌,
}
use hf_qcorral.Value.{
  Awaited, matches, changes, Outcome, matched, changed, Waiter, Value, unlink, park, on_changed,
  notify, set,
}

module _ {T : Type 0} where
  -- The predicate of a waiter, asked of a transition.
  abbrev pub holds : Awaited T → T → T → Bool
  holds (matches fn) from to = fn to
  holds (changes fn) from to = fn from to

  abbrev pub yields : Awaited T → T → T → Outcome T
  yields (matches fn) from to = matched to
  yields (changes fn) from to = changed from to

  -- The waiters whose predicate fails, in order.
  abbrev pub refusing : T → T → List (Waiter T) → List (Waiter T)
  refusing from to [] = []
  refusing from to (w ∷ ws) =
      if holds w.awaited from to then refusing from to ws else w ∷ refusing from to ws

  -- The handles of those whose predicate holds, in order, each with the transition.
  abbrev pub accepting : T → T → List (Waiter T) → List (ℕ × Outcome T)
  accepting from to [] = []
  accepting from to (w ∷ ws) =
      if holds w.awaited from to
      then (w.handle, yields w.awaited from to) ∷ accepting from to ws
      else accepting from to ws

  abbrev pub IsLinked : ℕ → List (Waiter T) → Type 0
  IsLinked i [] = ⊥
  IsLinked i (w ∷ ws) = (w.item ≡ i) ⊎ IsLinked i ws

  abbrev pub Distinct : List (Waiter T) → Type 0
  Distinct [] = Unit {0}
  Distinct (w ∷ ws) = (¬ IsLinked w.item ws) × Distinct ws

  unlink-absent : (i : ℕ) (ws : List (Waiter T)) → ¬ IsLinked i ws → unlink i ws ≡ ws
  unfolding unlink
  unlink-absent i [] n = refl
  unlink-absent i (w ∷ ws) n = elim (Bool-cases (w.item == i)) [
    | inl e ↦ absurd (n (inl ((==_iff w.item i).0 e)))
    | inr e ↦ rw e (ap (◌∷◌ w) (unlink-absent i ws (λ l. n (inr l))))
  ]

  on_changed_lem :
      (a : Awaited T) (from to : T)
      → on_changed from to a ≡ (if holds a from to then some (yields a from to) else none)
  unfolding on_changed
  on_changed_lem (matches fn) from to = refl
  on_changed_lem (changes fn) from to = refl

  -- None of the waiters still to be asked is linked again already.
  abbrev Apart : List (Waiter T) → List (Waiter T) → Type 0
  Apart [] kept = Unit {0}
  Apart (w ∷ ws) kept = (¬ IsLinked w.item kept) × Apart ws kept

  IsLinked-snoc :
      (i : ℕ) (w : Waiter T) (ws : List (Waiter T))
      → IsLinked i (ws ++ w ∷ [])
      → (w.item ≡ i) ⊎ IsLinked i ws
  IsLinked-snoc i w [] l = l
  IsLinked-snoc i w (x ∷ xs) (inl e) = inr (inl e)
  IsLinked-snoc i w (x ∷ xs) (inr l) = elim (IsLinked-snoc i w xs l) [
    | inl e ↦ inl e
    | inr m ↦ inr (inr m)
  ]

  Apart-snoc :
      (ws kept : List (Waiter T)) (w : Waiter T)
      → ¬ IsLinked w.item ws
      → Apart ws kept
      → Apart ws (kept ++ w ∷ [])
  Apart-snoc [] kept w n a = tt
  Apart-snoc (x ∷ xs) kept w n a = (
    (λ l. elim (IsLinked-snoc x.item w kept l) [ inl e ↦ n (inl (sym e)) | inr m ↦ a.0 m ]),
    Apart-snoc xs kept w (λ l. n (inr l)) a.1,
  )

  notify_lem :
      (from to : T) (ws kept : List (Waiter T))
      → Distinct ws
      → Apart ws kept
      → notify from to ws kept ≡ (kept ++ refusing from to ws, accepting from to ws)
  unfolding notify park
  notify_lem from to [] kept d a = rw (append-nil kept)
  notify_lem from to (w ∷ ws) kept d a = elim (Bool-cases (holds w.awaited from to)) [
    | inl e ↦
        rw (on_changed_lem w.awaited from to, e, notify)
          (ap (λ r. (r.0, (w.handle, yields w.awaited from to) ∷ r.1))
            (notify_lem from to ws kept d.1 a.1))
    | inr e ↦
        rw (on_changed_lem w.awaited from to, e, notify)
          (ap (λ k. notify from to ws (k ++ w ∷ [])) (unlink-absent w.item kept a.0)
            ∙ notify_lem from to ws (kept ++ w ∷ []) d.1 (Apart-snoc ws kept w d.0 a.1)
            ∙ ap (λ k. (k, accepting from to ws))
                (append_assoc kept (w ∷ []) (refusing from to ws)))
  ]

  Apart-nil : (ws : List (Waiter T)) → Apart ws []
  Apart-nil [] = tt
  Apart-nil (w ∷ ws) = ((λ l. l), Apart-nil ws)

  -- An assignment that is made from within a task, so that the woken tasks run only after it, stores
  -- the value, resumes exactly the waiters whose predicate holds of the transition, in the
  -- order in which they wait and each with that transition, and leaves the others waiting in
  -- the order that they had. (The waiters have distinct addresses.)
  pub set_lem :
      (to : T) (v : Value T)
      → Distinct v.parked
      → set to v ≡ (
        record { value = to; parked = refusing v.value to v.parked },
        accepting v.value to v.parked,
      )
  unfolding set
  set_lem to v d =
      ap (λ r. (record { value = to; parked = r.0 }, r.1))
        (notify_lem v.value to v.parked [] d (Apart-nil v.parked))

  refusing-IsLinked :
      (from to : T) (i : ℕ) (ws : List (Waiter T))
      → IsLinked i (refusing from to ws)
      → IsLinked i ws
  refusing-IsLinked from to i [] l = l
  refusing-IsLinked from to i (w ∷ ws) l = elim (Bool-cases (holds w.awaited from to)) [
    | inl e ↦ inr (refusing-IsLinked from to i ws (simp e at l))
    | inr e ↦ elim (let m : (w.item ≡ i) ⊎ IsLinked i (refusing from to ws) = simp e at l in m) [
      | inl x ↦ inl x
      | inr x ↦ inr (refusing-IsLinked from to i ws x)
    ]
  ]

  refusing-Distinct :
      (from to : T) (ws : List (Waiter T)) → Distinct ws → Distinct (refusing from to ws)
  refusing-Distinct from to [] d = tt
  refusing-Distinct from to (w ∷ ws) d = elim (Bool-cases (holds w.awaited from to)) [
    | inl e ↦ rw e (refusing-Distinct from to ws d.1)
    | inr e ↦
        rw e ((λ l. d.0 (refusing-IsLinked from to w.item ws l)), refusing-Distinct from to ws d.1)
  ]

  -- A history of assignments, with all that they resume.
  unfoldable pub sets : List T → Value T → Value T × List (ℕ × Outcome T)
  sets [] v = (v, [])
  sets (to ∷ tos) v =
      let (v', woken) = set to v in let (v'', more) = sets tos v' in (v'', woken ++ more)

  -- What a waiter of handle `h` gets out of a history that starts at `from`.
  abbrev pub first_hit : ℕ → Awaited T → T → List T → List (ℕ × Outcome T)
  first_hit h a from [] = []
  first_hit h a from (to ∷ tos) =
      if holds a from to then (h, yields a from to) ∷ [] else first_hit h a to tos

  sets_none : (tos : List T) (from : T) → (sets tos (record { value = from; parked = [] })).1 ≡ []
  unfolding sets set notify
  sets_none [] from = refl
  sets_none (to ∷ tos) from = sets_none tos to

  -- A single waiter is resumed by the first assignment whose transition satisfies its predicate,
  -- once, with that transition, and never if there is none.
  pub sets-first_hit :
      (tos : List T) (from : T) (w : Waiter T)
      → (sets tos (record { value = from; parked = w ∷ [] })).1
        ≡ first_hit w.handle w.awaited from tos
  unfolding sets set notify park unlink
  sets-first_hit [] from w = refl
  sets-first_hit (to ∷ tos) from w = elim (Bool-cases (holds w.awaited from to)) [
    | inl e ↦
        rw (on_changed_lem w.awaited from to, e, notify)
          (ap (◌∷◌ (w.handle, yields w.awaited from to)) (sets_none tos to))
    | inr e ↦ rw (on_changed_lem w.awaited from to, e, notify) (sets-first_hit tos to w)
  ]
