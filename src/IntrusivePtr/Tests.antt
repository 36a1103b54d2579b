-- ===== src/IntrusivePtr/Tests.antt =====
-- Two objects and their pointers (IntrusivePtr.h).
use hf_qcorral.Prelude.{◌≡◌, refl, false, some, List, [], ◌∷◌, ltb, if◌then◌else◌, arith}
use hf_qcorral.IntrusivePtr.{Use, adopts, copies, destroys, assigns, move_assigns, run}
use hf_qcorral.IntrusivePtr.Counts.{refers}
use hf_qcorral.IntrusivePtr.Life.{is_adopted, no_pointers, run_counts}

abbrev uses : List Use
uses =
    adopts (some 5) ∷ copies 0 ∷ adopts (some 6) ∷ assigns 0 2 ∷ move_assigns 1 0 ∷ destroys 2 ∷ []

run_counts_example :
    let s = run no_pointers uses in
    ((s.objects 5).ref_count ≡ refers 5 s.vars)
    × ((s.objects 5).deleted
        ≡ (if ltb 0 (refers 5 s.vars) then 0 else (if is_adopted 5 uses then 1 else 0)))
    × ((s.objects 5).fault ≡ false)
run_counts_example = run_counts uses 5 (omega arith)

uses_delete :
    (run no_pointers uses).objects 5 ≡ record { ref_count = 0; deleted = 1; fault = false }
unfolding run hf_qcorral.IntrusivePtr.make
uses_delete = refl
