-- ===== src/Mux/Count.antt =====
-- The count of a mux whose awaitables have all been started, and when it resumes its parent.
use hf_qcorral.Prelude.{
  ℕ, zero, suc, ◌+◌, ◌-◌, ◌≤◌, ◌<◌, ◌≡◌, refl, sym, ap, ◌∙◌, inl, inr, true, false, ◌||◌,
  Bool-cases, if_cases, ◌⊎◌, arith, ◌==◌, ==_iff,
}
use hf_qcorral.Mux.State.{running, cancelling, Mux, size, status_of}
use hf_qcorral.Mux.Helper.{resumed}
use hf_qcorral.Mux.Combiner.{resume_parent, cancel_from, note, first_fail, recount, invoke, depth}
use hf_qcorral.Mux.Done.{AreStarted, count_done-le}
use hf_qcorral.Mux.Inv.{
  done, Inv, Keeps, Keeps-refl, Keeps-trans, Works, full_flag, nested_flag, as_count, less_flag,
  waiting_flag, full_live, less_live, below,
}
use hf_qcorral.Mux.Works.{resumed-Inv, cancel_from-Inv}

-- All awaitables have ended and are counted: the parent is resumed, if it may be.
full-Inv :
    (d : ℕ) (m : Mux)
    → AreStarted m.helpers
    → m.count + d ≡ done m
    → m.fault ≡ false
    → m.parent_resumed ≡ 0
    → (m.count == size m) ≡ true
    → Inv d (resume_parent m) × Keeps m (resume_parent m)
unfolding resume_parent
full-Inv d m s c f p full =
    if_cases (λ n. Inv d n × Keeps m n) m.parent_live _ m
      (λ live. (
        record {
          started = s;
          counted = c;
          no_fault = f;
          parent =
              ap (λ n. n + 1) p
              ∙ sym (
                  as_count (
                    full_flag (size m) (done m) m.count d m.parent_live c (count_done-le m.helpers)
                      full
                    ∙ live));
        },
        record { sized = refl; live = refl; more = omega arith },
      ))
      (λ dead. (
        record {
          started = s;
          counted = c;
          no_fault = f;
          parent =
              p
              ∙ sym (
                  as_count (
                    full_flag (size m) (done m) m.count d m.parent_live c (count_done-le m.helpers)
                      full
                    ∙ dead));
        },
        Keeps-refl m,
      ))

-- Not all are counted: the parent waits.
less-Inv :
    (d : ℕ) (m : Mux)
    → AreStarted m.helpers
    → m.count + d ≡ done m
    → m.fault ≡ false
    → m.parent_resumed ≡ 0
    → (m.count == size m) ≡ false
    → Inv d m
less-Inv d m s c f p less = record {
  started = s;
  counted = c;
  no_fault = f;
  parent = p ∙ sym (as_count (less_flag (size m) (done m) m.count d m.parent_live c less));
}

recount-Inv : (d : ℕ) (m : Mux) → Inv (suc d) m → Inv d (recount m) × Keeps m (recount m)
unfolding recount
recount-Inv d m v =
    let m' : Mux = record m { count = m.count + 1 } in
    let counted : m'.count + d ≡ done m' = omega (arith, v.counted) in
    let idle : m'.parent_resumed ≡ 0 =
      v.parent ∙ as_count (nested_flag d m.parent_live (done m == size m)) in
    if_cases (λ n. Inv d n × Keeps m n) (m'.count == size m') (resume_parent m') m'
      (λ full.
        let (w, kept) = full-Inv d m' v.started counted v.no_fault idle full in
        (w, record { sized = kept.sized; live = kept.live; more = kept.more }))
      (λ less. (
        less-Inv d m' v.started counted v.no_fault idle less,
        record { sized = refl; live = refl; more = omega arith },
      ))

-- With fuel for the awaitables that have not ended, `invoke` does not run out of it.
pub invoke-Works : (k : ℕ) → Works k (invoke k)
unfolding invoke note
invoke-Works zero ex m d v room = absurd (omega (arith, count_done-le m.helpers))
invoke-Works (suc k) ex m d v room =
    let m' : Mux = note ex m in
    let counted : m'.count + d ≡ done m' = omega (arith, v.counted) in
    let back : Mux = record m' { count = m'.count - 1 } in
    let same : Keeps m back = record { sized = refl; live = refl; more = omega arith } in
    let over : Mux = (cancel_from (invoke k) (size m') 0 back).0 in
    if_cases (λ n. Inv d n × Keeps m n) (m'.count == size m') (resume_parent m') _
      (λ full.
        let (w, kept) = full-Inv d m' v.started counted v.no_fault v.parent full in
        (w, record { sized = kept.sized; live = kept.live; more = kept.more }))
      (λ less.
        if_cases (λ n. Inv d n × Keeps m n) (first_fail ex m || m'.count == m'.min_ready)
          (recount over) m'
          (λ _.
            let (w, kept) =
              cancel_from-Inv k (invoke k) (invoke-Works k) (size m') 0 (suc d) back
                (record {
                  started = v.started;
                  counted = omega (arith, v.counted);
                  no_fault = v.no_fault;
                  parent =
                      v.parent ∙ sym (as_count (nested_flag d m.parent_live (done m == size m)));
                })
                (omega (arith, room)) in
            let (w', kept') = recount-Inv d over w in
            (w', Keeps-trans same (Keeps-trans kept kept')))
          (λ _. (
            less-Inv d m' v.started counted v.no_fault v.parent less,
            record { sized = refl; live = refl; more = omega arith },
          )))

-- The mux while its awaitables run: all started, some ended and counted, the parent still waiting.
pub record IsRunning (m : Mux) : Type 0 where
  pub started : AreStarted m.helpers
  pub counted : m.count ≡ done m
  pub waiting : done m < size m
  pub no_fault : m.fault ≡ false
  pub live : m.parent_live ≡ true
  pub not_resumed : m.parent_resumed ≡ 0

-- All awaitables have ended, and the parent was resumed once.
pub record IsFinished (m : Mux) : Type 0 where
  pub counted : m.count ≡ size m
  pub ended : done m ≡ size m
  pub no_fault : m.fault ≡ false
  pub resumed_once : m.parent_resumed ≡ 1

IsRunning-Inv : (m : Mux) → IsRunning m → Inv 0 m
IsRunning-Inv m r = record {
  started = r.started;
  counted = omega (arith, r.counted);
  no_fault = r.no_fault;
  parent = r.not_resumed ∙ sym (as_count (waiting_flag (done m) (size m) m.parent_live r.waiting));
}

Inv-outcome : (m : Mux) → Inv 0 m → m.parent_live ≡ true → IsRunning m ⊎ IsFinished m
Inv-outcome m v live = elim (Bool-cases (done m == size m)) [
  | inl full ↦ inr (record {
    counted = omega (arith, v.counted, (==_iff (done m) (size m)).0 full);
    ended = (==_iff (done m) (size m)).0 full;
    no_fault = v.no_fault;
    resumed_once = v.parent ∙ as_count (full_live m.parent_live _ live full);
  })
  | inr less ↦ inl (record {
    started = v.started;
    counted = omega (arith, v.counted);
    waiting = below (done m) (size m) (count_done-le m.helpers) less;
    no_fault = v.no_fault;
    live = live;
    not_resumed = v.parent ∙ as_count (less_live m.parent_live _ less);
  })
]

-- Whenever one of the awaitables resumes its handle, and whatever the awaitables answer to the
-- cancellations that follow, the mux goes on running, or all its awaitables have ended and it has
-- resumed its parent exactly once; no assertion fails, and `invoke` never nests deeper than there
-- are awaitables.
pub resumed-outcome :
    (m : Mux) (i : ℕ)
    → IsRunning m
    → (status_of i m ≡ running) ⊎ (status_of i m ≡ cancelling)
    → let m' = resumed (invoke (depth m)) i m in (IsRunning m' ⊎ IsFinished m') × (done m ≤ done m')
resumed-outcome m i r s =
    let (w, kept) =
      resumed-Inv (depth m) (invoke (depth m)) (invoke-Works (depth m)) i 0 (status_of i m) m refl s
        (IsRunning-Inv m r) (omega arith) in
    (Inv-outcome _ w (kept.live ∙ r.live), kept.more)
