-- ===== src/Nursery/Joined.antt =====
-- A parent joins a nursery or has it closed (Nursery.h).
use hf_qcorral.Prelude.{
  ℕ, ◌+◌, ◌≡◌, refl, inl, inr, Bool, true, false, not, ◌&&◌, ◌||◌, if_cases, Option, none, some,
  List, [], ◌∷◌, arith,
}
use hf_qcorral.Nursery.{
  Parent, awaiting, closing, Nursery, is_set, is_none, cancel, join_suspend, async_close,
}
use hf_qcorral.Nursery.History.{joins, closes, Log, is_possible, goes_on, apply, resumptions}
use hf_qcorral.Nursery.Stage.{IsSound, Unmoved-refl, Unmoved-IsSound, cancel-Unmoved}

-- Who may join a nursery is alone with it.
pub alone :
    (l : Log)
    → (l.nursery.executor && not (is_set l.nursery.parent)) ≡ true
    → IsSound l
    → (l.nursery.parent ≡ none) × (l.resumed + resumptions l.nursery.scheduled ≡ 0)
alone l e s = elim s.stage [
  | inl (x, y, w) ↦ (y, w)
  | inr (inl v) ↦ absurd (ground (arith, e, v.1))
  | inr (inr v) ↦ absurd (ground (arith, e, v.0))
]

pub none-nil : (ts : List ℕ) → is_none ts ≡ true → ts ≡ []
none-nil [] h = refl
none-nil (t ∷ ts) h = cc

pub no_parent : (p : Option Parent) → p ≡ none → is_set p ≡ false
no_parent none e = refl
no_parent (some q) e = cc

-- The parent goes on at once, and the nursery is closed.
pub shut-IsSound :
    (l : Log)
    → (l.nursery.executor && not (is_set l.nursery.parent)) ≡ true
    → is_none l.nursery.tasks ≡ true
    → IsSound l
    → IsSound (record l {
      nursery = record l.nursery {
        fault = l.nursery.fault || is_set l.nursery.parent;
        executor = false;
      };
      resumed = l.resumed + 1;
    })
shut-IsSound l e h s =
    let (single, quiet) = alone l e s in
    record {
      stage = inr (inr (refl, single, none-nil l.nursery.tasks h, omega (arith, quiet)));
      counted = s.counted;
      no_fault = ground (arith, s.no_fault, no_parent l.nursery.parent single);
    }

-- The parent is suspended.
pub bound-IsSound :
    (p : Parent) (l : Log)
    → (l.nursery.executor && not (is_set l.nursery.parent)) ≡ true
    → is_none l.nursery.tasks ≡ false
    → IsSound l
    → IsSound (record l {
      nursery = record l.nursery {
        fault = l.nursery.fault || is_set l.nursery.parent;
        parent = some p;
      };
      resumed = l.resumed + 0;
    })
bound-IsSound p l e h s =
    let (single, quiet) = alone l e s in
    record {
      stage = inr (inl (ground (arith, e), refl, h, omega (arith, quiet)));
      counted = s.counted;
      no_fault = ground (arith, s.no_fault, no_parent l.nursery.parent single);
    }

pub joins-IsSound :
    (h : ℕ) (l : Log) → is_possible (joins h) l ≡ true → IsSound l → IsSound (apply (joins h) l)
unfolding apply join_suspend
joins-IsSound h l e s =
    if_cases
      (λ (r : Nursery × Bool).
        IsSound (record l { nursery = r.0; resumed = l.resumed + goes_on (not r.1) }))
      (is_none l.nursery.tasks) _ _ (λ v. shut-IsSound l e v s)
      (λ v. bound-IsSound (awaiting h) l e v s)

pub closes-IsSound :
    (c : ℕ) (l : Log) → is_possible (closes c) l ≡ true → IsSound l → IsSound (apply (closes c) l)
unfolding apply async_close
closes-IsSound c l e s =
    let shut = record l.nursery {
      fault = l.nursery.fault || is_set l.nursery.parent;
      executor = false;
    } in
    let bound = record l.nursery {
      fault = l.nursery.fault || is_set l.nursery.parent;
      parent = some (closing c);
    } in
    if_cases
      (λ (r : Nursery × Bool).
        IsSound (record l {
          nursery = r.0;
          resumed = l.resumed + goes_on r.1;
          asked = l.asked || not r.1;
        }))
      (is_none l.nursery.tasks) (shut, true) (cancel bound, false)
      (λ v.
        Unmoved-IsSound (record l { nursery = shut; resumed = l.resumed + 1 }) _ (Unmoved-refl shut)
          refl (shut-IsSound l e v s))
      (λ v.
        Unmoved-IsSound (record l { nursery = bound; resumed = l.resumed + 0 }) _
          (cancel-Unmoved bound) refl (bound-IsSound (closing c) l e v s))
