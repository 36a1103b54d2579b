-- ===== src/Channel/Bounds.antt =====
-- The capacity of a bounded channel, and what `space()`, `full()` and `close()` promise.
use hf_qcorral.Prelude.{
  ℕ, suc, ◌+◌, ◌-◌, ◌%◌, ◌^◌, ◌≤◌, ◌<◌, ◌≡◌, ◌≢◌, refl, sym, ap, ◌∙◌, Bool, true, false, not, ◌&&◌,
  ◌||◌, Bool-cases, if_cases, inl, inr, Option, none, some, List, [], ◌∷◌, ◌++◌, arith, length,
  length-append, min, ◌==◌, suc-eqb-zero, ==_iff, if◌then◌else◌, size_mod,
}
use hf_qcorral.Queue.{push_back}
use hf_qcorral.Queue.Refine.{
  Holds, push_back-Holds, capacity-push_back_room, capacity-pop_front, is_empty-Holds, front-Holds,
  pop_front-Holds,
}
use hf_qcorral.ParkingLot.{Lot, Parked, unpark_one}
use hf_qcorral.ParkingLot.Order.{handles, unpark_all-handles}
use hf_qcorral.Channel.{
  Channel, closed, full, space, is_empty, try_receive, try_send, close, read_ready, read_suspend,
  read_cancel, write_ready, write_suspend, write_cancel, may_destroy,
}
use hf_qcorral.Channel.Order.{
  Call, send, receive, shut, park_reader, park_writer, drop_reader, drop_writer, Log, step, run,
  Carries, run-Carries,
}

eqb_sym : (n m : ℕ) → (n == m) ≡ false → (m == n) ≡ false
eqb_sym n m e = ground arith

eqb_ne : (n m : ℕ) → (n == m) ≡ false → n ≢ m
eqb_ne n m e = ground arith

min_zero : (n : ℕ) → 0 ≡ min n 0
min_zero n = omega arith

room_both :
    (is_closed is_full : Bool)
    → is_closed ≡ false
    → is_full ≡ false
    → (is_closed || is_full) ≡ false
room_both is_closed is_full a b = ground arith

or_true : (b : Bool) → (b || true) ≡ true
or_true true = refl
or_true false = refl

-- The unsigned difference does not wrap.
free :
    (n m : ℕ) (is_closed bounded : Bool)
    → is_closed ≡ false
    → bounded ≡ true
    → m ≤ n
    → n < size_mod
    → n - m ≡ (
        if is_closed
        then 0
        else if not bounded && not is_closed
        then size_mod - 1
        else (n + size_mod - m) % size_mod)
free n m is_closed bounded e b le small = ground arith

room_left :
    (n m : ℕ) (is_closed bounded : Bool)
    → (is_closed || ((bounded && (m == n)) || is_closed)) ≡ false
    → bounded ≡ true
    → (n == m) ≡ false
room_left n m is_closed bounded e b = ground arith

module _ {A : Type 0} where
  -- A bounded channel whose capacity is `n`.
  abbrev pub IsBounded : ℕ → Channel A → Type 0
  IsBounded n c = (c.bounded ≡ true) × (c.buf.capacity ≡ n)

  try_send-IsBounded :
      (n : ℕ) (u : A) (c : Channel A) → IsBounded n c → IsBounded n (try_send u c).1
  unfolding try_send
  try_send-IsBounded n u c b = elim (Bool-cases (closed c || full c)) [
    | inl e ↦ rw (e, try_send) b
    | inr e ↦
        rw (e, try_send)
          (
            b.0,
            capacity-push_back_room u c.buf
                  (room_left c.buf.size c.buf.capacity c.is_closed c.bounded e b.0)
                ∙ b.1,
          )
  ]

  try_receive-IsBounded : (n : ℕ) (c : Channel A) → IsBounded n c → IsBounded n (try_receive c).1
  unfolding try_receive
  try_receive-IsBounded n c b = elim (Bool-cases (is_empty c)) [
    | inl e ↦ rw (e, try_receive) b
    | inr e ↦ rw (e, try_receive) (b.0, capacity-pop_front c.buf ∙ b.1)
  ]

  step-IsBounded :
      (n : ℕ) (s : Log A) (c : Call A) → IsBounded n s.channel → IsBounded n (step s c).channel
  unfolding step close read_suspend read_cancel write_suspend write_cancel
  step-IsBounded n s (send u) b = try_send-IsBounded n u s.channel b
  step-IsBounded n s receive b = try_receive-IsBounded n s.channel b
  step-IsBounded n s shut b = b
  step-IsBounded n s (park_reader i h) b = b
  step-IsBounded n s (park_writer i h) b = b
  step-IsBounded n s (drop_reader i) b = b
  step-IsBounded n s (drop_writer i) b = b

  run-IsBounded :
      (n : ℕ) (s : Log A) (cs : List (Call A))
      → IsBounded n s.channel
      → IsBounded n (run s cs).channel
  unfolding run
  run-IsBounded n s [] b = b
  run-IsBounded n s (c ∷ cs) b = run-IsBounded n (step s c) cs (step-IsBounded n s c b)

  -- No history makes a bounded channel allocate more cells or hold more objects than it was made
  -- for.
  pub run_within_bound :
      (n : ℕ) (s : Log A) (cs : List (Call A)) (xs : List A)
      → IsBounded n s.channel
      → Carries s xs
      → length xs + length cs < 2 ^ 60
      → ((run s cs).channel.buf.capacity ≡ n) × ((run s cs).channel.buf.size ≤ n)
  run_within_bound n s cs xs b v few =
      let (ys, w) = run-Carries s cs xs v few in
      let bounded = run-IsBounded n s cs b in
      (bounded.1, omega (arith, bounded.1, w.holds.counted, w.holds.fits))

  -- How many of the objects a row of `trySend` calls accepts before one fails.
  unfoldable pub send_row : List A → Channel A → ℕ
  send_row [] c = 0
  send_row (u ∷ us) c =
      let more = suc (send_row us (try_send u c).1) in if (try_send u c).0 then more else 0

  closed_row : (us : List A) (c : Channel A) → c.is_closed ≡ true → send_row us c ≡ 0
  unfolding send_row try_send
  closed_row [] c e = refl
  closed_row (u ∷ us) c e = rw (e, try_send)

  open_row :
      (us : List A) (c : Channel A) (xs : List A)
      → Holds c.buf xs
      → c.is_closed ≡ false
      → c.bounded ≡ true
      → c.buf.capacity < 2 ^ 61
      → send_row us c ≡ min (length us) (c.buf.capacity - length xs)
  unfolding send_row try_send
  open_row [] c xs v live b small = omega arith
  open_row (u ∷ us) c xs v live b small = elim (Bool-cases (c.buf.capacity == c.buf.size)) [
    | inl full ↦
        rw (live, b, full, try_send)
          (omega (arith, v.counted, (==_iff c.buf.capacity c.buf.size).0 full))
    | inr room ↦
        let kept = capacity-push_back_room u c.buf (eqb_sym c.buf.capacity c.buf.size room) in
        let later =
          open_row us
            (record c {
              buf = push_back u c.buf;
              is_closed = false;
              bounded = true;
              readers = (unpark_one c.readers).0;
            })
            (xs ++ u ∷ []) (push_back-Holds u c.buf xs v small) refl refl (rw kept small) in
        rw (live, b, room, try_send)
          (omega (
            arith,
            later,
            kept,
            length-append xs (u ∷ []),
            v.counted,
            v.fits,
            eqb_ne c.buf.capacity c.buf.size room,
          ))
  ]

  -- `space()` of a bounded channel is the number of `trySend` calls in a row that succeed: of any
  -- row of calls exactly that many do, if it is so long, and none if the channel is closed.
  pub send_row-space :
      (us : List A) (c : Channel A) (xs : List A)
      → Holds c.buf xs
      → c.bounded ≡ true
      → c.buf.capacity < 2 ^ 61
      → send_row us c ≡ min (length us) (space c)
  send_row-space us c xs v b small = elim (Bool-cases c.is_closed) [
    | inl e ↦ closed_row us c e ∙ min_zero (length us) ∙ ap (min (length us)) (simp e)
    | inr e ↦
        open_row us c xs v e b small
        ∙ ap (min (length us)) (
            ap (λ k. c.buf.capacity - k) (sym v.counted)
            ∙ free c.buf.capacity c.buf.size c.is_closed c.bounded e b
                (omega (arith, v.counted, v.fits)) (omega arith))
  ]

  closed-step :
      (s : Log A) (k : Call A) → s.channel.is_closed ≡ true → (step s k).channel.is_closed ≡ true
  unfolding step try_send try_receive close read_suspend read_cancel write_suspend write_cancel
  closed-step s (send u) e = rw e refl
  closed-step s receive e =
      if_cases (λ (r : Option A × Channel A × List ℕ). r.1.is_closed ≡ true)
        (not (is_empty s.channel)) _ _ (λ _. e) (λ _. e)
  closed-step s shut e = refl
  closed-step s (park_reader i h) e = e
  closed-step s (park_writer i h) e = e
  closed-step s (drop_reader i) e = e
  closed-step s (drop_writer i) e = e

  closed-run :
      (s : Log A) (ks : List (Call A))
      → s.channel.is_closed ≡ true
      → (run s ks).channel.is_closed ≡ true
  unfolding run
  closed-run s [] e = e
  closed-run s (k ∷ ks) e = closed-run (step s k) ks (closed-step s k e)

  -- What a closed channel answers.
  abbrev pub Refuses : A → Channel A → Type 0
  Refuses u c =
      (try_send u c ≡ (false, c, []))
      × (space c ≡ 0)
      × (read_ready c ≡ true)
      × (write_ready c ≡ true)

  closed-Refuses : (u : A) (c : Channel A) → c.is_closed ≡ true → Refuses u c
  unfolding try_send
  closed-Refuses u c e = (rw e refl, rw e refl, rw e (or_true (not (is_empty c))), rw e refl)

  -- Closing wakes every reader and then every writer, each half in the order in which they parked,
  -- leaves nobody waiting, so that the channel may be destroyed, and keeps the objects that wait.
  -- Whatever history of calls comes after it, every `trySend` fails and changes nothing, there is no
  -- space, and an awaiting reader or writer is ready.
  pub close_lem :
      (s : Log A) (later : List (Call A)) (u : A)
      → let (c', woken) = close s.channel in
        (woken ≡ handles s.channel.readers ++ handles s.channel.writers)
        × (may_destroy c' ≡ true)
        × (c'.buf ≡ s.channel.buf)
        × Refuses u (run s (shut ∷ later)).channel
  unfolding close run step
  close_lem s later u =
      rw (unpark_all-handles s.channel.readers, unpark_all-handles s.channel.writers)
        (refl, refl, refl, closed-Refuses u _ (closed-run (step s shut) later refl))

  try_receive-Holds :
      (c : Channel A) (x : A) (xs : List A)
      → Holds c.buf (x ∷ xs)
      → ((try_receive c).0 ≡ some x)
        × Holds (try_receive c).1.buf xs
        × (closed (try_receive c).1 ≡ closed c)
  unfolding try_receive
  try_receive-Holds c x xs v =
      rw (try_receive, is_empty-Holds c.buf (x ∷ xs) v, suc-eqb-zero (length xs))
        (front-Holds c.buf x xs v, pop_front-Holds c.buf x xs v, refl)

  try_receive-none : (c : Channel A) → Holds c.buf [] → (try_receive c).0 ≡ none
  unfolding try_receive
  try_receive-none c v = rw (try_receive, is_empty-Holds c.buf [] v)

  try_send-Holds :
      (c : Channel A) (u : A) (xs : List A)
      → Holds c.buf xs
      → c.is_closed ≡ false
      → full c ≡ false
      → c.buf.capacity < 2 ^ 61
      → ((try_send u c).0 ≡ true)
        × Holds (try_send u c).1.buf (xs ++ u ∷ [])
        × (closed (try_send u c).1 ≡ false)
  unfolding try_send
  try_send-Holds c u xs v live room small =
      rw (try_send, room_both c.is_closed _ live room)
        (refl, push_back-Holds u c.buf xs v small, live)

  try_receive-readers : (c : Channel A) → (try_receive c).1.readers ≡ c.readers
  unfolding try_receive
  try_receive-readers c =
      if_cases (λ (r : Option A × Channel A × List ℕ). r.1.readers ≡ c.readers) (not (is_empty c)) _
        _ (λ _. refl) (λ _. refl)

  try_send-wakes :
      (c : Channel A) (u : A) (r : Parked) (rs : Lot)
      → c.readers ≡ r ∷ rs
      → c.is_closed ≡ false
      → full c ≡ false
      → ((try_send u c).2 ≡ r.handle ∷ []) × ((try_send u c).1.readers ≡ rs)
  unfolding try_send unpark_one
  try_send-wakes c u r rs e live room =
      rw (try_send, room_both c.is_closed _ live room, e, unpark_one) (refl, refl)

  -- An object that is sent into an empty open channel wakes the first parked reader and unparks it;
  -- if another task receives the object before the executor runs that reader, then there is nothing
  -- for it: its `await_resume` (which is `tryReceive`) yields `nullopt`, though the channel is still
  -- open, and it waits no more.
  pub receive_barged :
      (c : Channel A) (u : A) (r : Parked) (rs : Lot)
      → c.readers ≡ r ∷ rs
      → Holds c.buf []
      → c.is_closed ≡ false
      → full c ≡ false
      → c.buf.capacity < 2 ^ 61
      → let (sent, c₁, woken) = try_send u c in
        let (got, c₂, more) = try_receive c₁ in
        (sent ≡ true)
        × (woken ≡ r.handle ∷ [])
        × (got ≡ some u)
        × ((try_receive c₂).0 ≡ none)
        × (closed c₂ ≡ false)
        × ((try_receive c₂).1.readers ≡ rs)
  receive_barged c u r rs e v live room small =
      let (sent, w₁, open₁) = try_send-Holds c u [] v live room small in
      let (woken, left) = try_send-wakes c u r rs e live room in
      let c₁ = (try_send u c).1 in
      let (got, w₂, same) = try_receive-Holds c₁ u [] w₁ in
      let c₂ = (try_receive c₁).1 in
      (
        sent,
        woken,
        got,
        try_receive-none c₂ w₂,
        same ∙ open₁,
        try_receive-readers c₂ ∙ try_receive-readers c₁ ∙ left,
      )
