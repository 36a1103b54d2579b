-- ===== src/Xmodem/Failed.antt =====
-- What `download` makes of a bad block (corralXModem.cpp).
use hf_qcorral.Prelude.{
  ℕ, ◌+◌, ◌≡◌, refl, ap, ◌∙◌, Bool, true, false, ◌&&◌, Option, none, some, List, [], ◌∷◌, arith,
  ◌==◌, ==_iff, if_cases, length,
}
use hf_qcorral.Xmodem.{
  Round, Stage, going, stopped, settle, switch, take_block, take_chunk, receive, is_good,
  read_command, finish_download, soh, eot, can, block_size,
}

-- Nothing can succeed any more.
abbrev IsLost : Stage → Type 0
IsLost (going number ret c) = ret ≡ false
IsLost (stopped ret reply) = ret ≡ false

switch-IsLost : (number c : ℕ) → IsLost (switch number false c)
unfolding switch
switch-IsLost number c =
    if_cases IsLost (c == soh) _ _ (λ _. refl)
      (λ _.
        if_cases IsLost (c == eot) _ _ (λ _. refl)
          (λ _. if_cases IsLost (c == can) _ _ (λ _. refl) (λ _. refl)))

settle-IsLost : (s : Stage) → IsLost s → IsLost (settle s)
unfolding settle
settle-IsLost (going number ret c) e = rw e (switch-IsLost number c)
settle-IsLost (stopped ret reply) e = e

read_command-IsLost : (number : ℕ) (o : Option ℕ) → IsLost (read_command number false o)
unfolding read_command
read_command-IsLost number none = refl
read_command-IsLost number (some c) = refl

finish_lost : (reply : Bool) → (finish_download false reply).0 ≡ false
unfolding finish_download
finish_lost true = refl
finish_lost false = refl

-- A bad block, or any block after one.
take_bad :
    (keeps : ℕ → List ℕ → Bool) (number : ℕ) (ret : Bool) (bs : List ℕ) (o : Option ℕ)
    → (ret && is_good number bs) ≡ false
    → let (w, d, s) = take_block keeps number ret bs o in IsLost s × (d ≡ [])
unfolding take_block
take_bad keeps number ret bs o e = rw e (read_command-IsLost number o, refl)

take-IsLost :
    (keeps : ℕ → List ℕ → Bool) (number : ℕ) (r : Round)
    → let (w, d, s) = take_chunk keeps number false r in IsLost s × (d ≡ [])
unfolding take_chunk
take-IsLost keeps number r = by_chunk r.chunk
  where
    by_chunk :
        (o : Option (List ℕ))
        → let (w, d, s) = take_chunk keeps number false (record r { chunk = o }) in
          IsLost s × (d ≡ [])
    by_chunk none = (refl, refl)
    by_chunk (some bs) =
        if_cases (λ (x : List ℕ × List (List ℕ) × Stage). IsLost x.2 × (x.1 ≡ []))
          (length bs == block_size + 4) _ _ (λ _. take_bad keeps number false bs r.command refl)
          (λ _. (refl, refl))

receive_lost :
    (keeps : ℕ → List ℕ → Bool) (rs : List Round) (s : Stage)
    → IsLost s
    → let (v, out, ds) = receive keeps rs s in (v ≡ false) × (ds ≡ [])
unfolding receive
receive_lost keeps [] (going number ret c) e = (finish_lost true, refl)
receive_lost keeps [] (stopped ret reply) e =
    (ap (λ b. (finish_download b reply).0) e ∙ finish_lost reply, refl)
receive_lost keeps (r ∷ rs) (stopped ret reply) e =
    (ap (λ b. (finish_download b reply).0) e ∙ finish_lost reply, refl)
receive_lost keeps (r ∷ rs) (going number true c) e = cc
receive_lost keeps (r ∷ rs) (going number false c) e =
    let (lost, none_kept) = take-IsLost keeps number r in
    let (v, ds) =
      receive_lost keeps rs _ (settle-IsLost (take_chunk keeps number false r).2 lost) in
    (v, rw (none_kept, ds) refl)

-- After one bad block (its sequence number, the complement of it or its crc is wrong) a download
-- has failed, whatever comes next, also if the sender repeats the block as NAK asks it to: the
-- result is false, and `dataFunction` is given no further block.
pub bad_block_fails :
    (keeps : ℕ → List ℕ → Bool) (number c : ℕ) (bs : List ℕ) (o : Option ℕ) (rs : List Round)
    → length bs ≡ block_size + 4
    → is_good number bs ≡ false
    → let r : Round = record { chunk = some bs; command = o } in
      let (v, out, ds) = receive keeps (r ∷ rs) (going number true c) in (v ≡ false) × (ds ≡ [])
unfolding receive take_chunk
bad_block_fails keeps number c bs o rs l e =
    let fits : (length bs == block_size + 4) ≡ true = (==_iff _ _).1 l in
    let (lost, none_kept) = take_bad keeps number true bs o (ground (arith, e)) in
    let (v, ds) =
      receive_lost keeps rs (settle (take_block keeps number true bs o).2) (settle-IsLost _ lost) in
    rw (fits, none_kept, v, ds) (refl, refl)
