-- ===== src/Channel/Order.antt =====
-- The objects that go through a channel, and their order (Channel.h).
use hf_qcorral.Prelude.{
  ℕ, ◌+◌, ◌^◌, ◌≤◌, ◌<◌, ◌≡◌, sym, ap, ◌∙◌, Bool, true, false, ◌||◌, Bool-cases, inl, inr, Option,
  none, some, List, [], ◌∷◌, ◌++◌, append-nil, append_assoc, arith, length, length-append,
  suc-eqb-zero,
}
use hf_qcorral.Queue.Refine.{
  Holds, push_back-Holds, pop_front-Holds, front-Holds, is_empty-Holds, capacity-push_back,
  capacity-pop_front,
}
use hf_qcorral.Channel.{
  Channel, closed, full, try_receive, try_send, close, read_suspend, read_cancel, write_suspend,
  write_cancel,
}

pub data Call (A : Type 0) : Type 0 where
  send : A → Call A
  receive : Call A
  shut : Call A
  park_reader park_writer : ℕ → ℕ → Call A
  drop_reader drop_writer : ℕ → Call A

-- A channel with the objects that it accepted and those that it gave out, both in order.
pub record Log (A : Type 0) : Type 0 where
  pub channel : Channel A
  pub sent : List A
  pub received : List A

module _ {A : Type 0} where
  abbrev pub accepted : A → Bool → List A
  accepted u true = u ∷ []
  accepted u false = []

  abbrev pub given : Option A → List A
  given none = []
  given (some a) = a ∷ []

  unfoldable pub step : Log A → Call A → Log A
  step s (send u) =
      let (done, c, woken) = try_send u s.channel in
      record s { channel = c; sent = s.sent ++ accepted u done }
  step s receive =
      let (got, c, woken) = try_receive s.channel in
      record s { channel = c; received = s.received ++ given got }
  step s shut = record s { channel = (close s.channel).0 }
  step s (park_reader i h) = record s { channel = read_suspend i h s.channel }
  step s (park_writer i h) = record s { channel = write_suspend i h s.channel }
  step s (drop_reader i) = record s { channel = read_cancel i s.channel }
  step s (drop_writer i) = record s { channel = write_cancel i s.channel }

  unfoldable pub run : Log A → List (Call A) → Log A
  run s [] = s
  run s (c ∷ cs) = run (step s c) cs

  -- The buffer holds `xs`, and what was sent is what was received and then `xs`.
  pub record Carries (s : Log A) (xs : List A) : Type 0 where
    pub holds : Holds s.channel.buf xs
    pub small : s.channel.buf.capacity < 2 ^ 61
    pub split : s.sent ≡ s.received ++ xs

  abbrev Carrying : Log A → ℕ → Type 0
  Carrying s n = (xs : List A) × Carries s xs × (length xs ≤ n)

  send-Carries :
      (s : Log A) (u : A) (xs : List A)
      → Carries s xs
      → length xs < 2 ^ 60
      → Carrying (step s (send u)) (length xs + 1)
  unfolding step try_send
  send-Carries s u xs v few = elim (Bool-cases (closed s.channel || full s.channel)) [
    | inl no_room ↦
        rw (step, try_send, no_room)
          (
            xs,
            record { holds = v.holds; small = v.small; split = simp append-nil v.split },
            omega arith,
          )
    | inr room ↦
        rw (step, try_send, room)
          (
            xs ++ u ∷ [],
            record {
              holds = push_back-Holds u s.channel.buf xs v.holds v.small;
              small = capacity-push_back u s.channel.buf xs v.holds v.small few;
              split = ap (λ l. l ++ u ∷ []) v.split ∙ append_assoc s.received xs (u ∷ []);
            },
            omega (arith, length-append xs (u ∷ [])),
          )
  ]

  receive-Carries : (s : Log A) (xs : List A) → Carries s xs → Carrying (step s receive) (length xs)
  unfolding step try_receive
  receive-Carries s [] v =
      rw (step, try_receive, is_empty-Holds s.channel.buf [] v.holds)
        (
          [],
          record {
            holds = v.holds;
            small = v.small;
            split = simp append-nil (simp append-nil at v.split);
          },
          omega arith,
        )
  receive-Carries s (x ∷ xs) v =
      rw
        (
          step,
          try_receive,
          is_empty-Holds s.channel.buf (x ∷ xs) v.holds,
          suc-eqb-zero (length xs),
          front-Holds s.channel.buf x xs v.holds,
        )
        (
          xs,
          record {
            holds = pop_front-Holds s.channel.buf x xs v.holds;
            small = rw (capacity-pop_front s.channel.buf) v.small;
            split = v.split ∙ sym (append_assoc s.received (x ∷ []) xs);
          },
          omega arith,
        )

  step-Carries :
      (s : Log A) (c : Call A) (xs : List A)
      → Carries s xs
      → length xs < 2 ^ 60
      → Carrying (step s c) (length xs + 1)
  unfolding step close read_suspend read_cancel write_suspend write_cancel
  step-Carries s (send u) xs v few = send-Carries s u xs v few
  step-Carries s receive xs v few = let (ys, w, le) = receive-Carries s xs v in (ys, w, omega arith)
  step-Carries s shut xs v few =
      (xs, record { holds = v.holds; small = v.small; split = v.split }, omega arith)
  step-Carries s (park_reader i h) xs v few =
      (xs, record { holds = v.holds; small = v.small; split = v.split }, omega arith)
  step-Carries s (park_writer i h) xs v few =
      (xs, record { holds = v.holds; small = v.small; split = v.split }, omega arith)
  step-Carries s (drop_reader i) xs v few =
      (xs, record { holds = v.holds; small = v.small; split = v.split }, omega arith)
  step-Carries s (drop_writer i) xs v few =
      (xs, record { holds = v.holds; small = v.small; split = v.split }, omega arith)

  -- After any history of sends, receives, suspensions, cancellations and closings (of fewer than
  -- 2^60 calls and objects together), what the channel has accepted is what it has given out
  -- followed by what its buffer holds, in the order in which it was sent.
  pub run-Carries :
      (s : Log A) (cs : List (Call A)) (xs : List A)
      → Carries s xs
      → length xs + length cs < 2 ^ 60
      → (ys : List A) × Carries (run s cs) ys
  unfolding run
  run-Carries s [] xs v few = (xs, v)
  run-Carries s (c ∷ cs) xs v few =
      let (ys, w, le) = step-Carries s c xs v (omega arith) in
      run-Carries (step s c) cs ys w (omega arith)
