-- ===== src/Channel/Tests.antt =====
-- A channel of two cells.
use hf_qcorral.Prelude.{ℕ, ◌≤◌, ◌≡◌, refl, true, false, List, [], ◌∷◌, ◌++◌, none, some, arith}
use hf_qcorral.Queue
use hf_qcorral.Queue.Refine.{make-Holds}
use hf_qcorral.ParkingLot.Order.{handles}
use hf_qcorral.Channel.{Channel, closed, try_send, try_receive, close, may_destroy}
use hf_qcorral.Channel.Order.{
  Call, send, receive, shut, park_reader, drop_reader, Log, run, Carries, run-Carries,
}
use hf_qcorral.Channel.Bounds.{IsBounded, run_within_bound, Refuses, close_lem, receive_barged}

abbrev two_cells : Channel ℕ
two_cells = record {
  buf = Queue.make 2;
  is_closed = false;
  bounded = true;
  readers = [];
  writers = [];
}

abbrev start : Log ℕ
start = record { channel = two_cells; sent = []; received = [] }

abbrev calls : List (Call ℕ)
calls = park_reader 1 10 ∷ send 5 ∷ send 6 ∷ send 7 ∷ receive ∷ send 8 ∷ drop_reader 1 ∷ shut ∷ []

start-Carries : Carries start []
unfolding Queue.make
start-Carries = record { holds = make-Holds 2 (omega arith); small = omega arith; split = refl }

run-Carries_example : (ys : List ℕ) × Carries (run start calls) ys
run-Carries_example = run-Carries start calls [] start-Carries (omega arith)

two_cells-IsBounded : IsBounded 2 two_cells
unfolding Queue.make
two_cells-IsBounded = (refl, refl)

run_within_bound_example :
    ((run start calls).channel.buf.capacity ≡ 2) × ((run start calls).channel.buf.size ≤ 2)
run_within_bound_example =
    run_within_bound 2 start calls [] two_cells-IsBounded start-Carries (omega arith)

abbrev awaited : Channel ℕ
awaited = record two_cells { readers = record { item = 1; handle = 10 } ∷ [] }

close_lem_example :
    let (c', woken) = close awaited in
    (woken ≡ handles awaited.readers ++ handles awaited.writers)
    × (may_destroy c' ≡ true)
    × (c'.buf ≡ awaited.buf)
    × Refuses 5 (run (record start { channel = awaited }) (shut ∷ send 4 ∷ receive ∷ [])).channel
close_lem_example = close_lem (record start { channel = awaited }) (send 4 ∷ receive ∷ []) 5

receive_barged_example :
    let (sent, c₁, woken) = try_send 5 awaited in
    let (got, c₂, more) = try_receive c₁ in
    (sent ≡ true)
    × (woken ≡ 10 ∷ [])
    × (got ≡ some 5)
    × ((try_receive c₂).0 ≡ none)
    × (closed c₂ ≡ false)
    × ((try_receive c₂).1.readers ≡ [])
unfolding Queue.make
receive_barged_example =
    receive_barged awaited 5 (record { item = 1; handle = 10 }) [] refl (make-Holds 2 (omega arith))
      refl refl (omega arith)
