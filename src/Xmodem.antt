-- ===== src/Xmodem.antt =====
-- corral/corral/qt/corralXModem.cpp and corralXModem.h: the XMODEM protocol over a device of Qt.
-- Bytes are numbers below 256. What the device answers is given, as a list of replies, one for each
-- `readChar` (none is a timeout); a device that has given them all answers no more. What is written
-- to the device is returned, in order. The functions of the caller are parameters.
pub mod Frame
pub mod Transfer
pub mod Failed
mod Tests
use Prim.Native.Nat.{bit_and, bit_or, bit_xor}
use hf_qcorral.Prelude.{
  ℕ, zero, suc, ◌+◌, ◌-◌, ◌*◌, ◌/◌, ◌%◌, ◌^◌, Bool, true, false, not, ◌&&◌, ◌⊎◌, inl, inr, Option,
  none, some, List, [], ◌∷◌, ◌++◌, ◌==◌, if◌then◌else◌, ltb, leb, length, take, drop, replicate,
  get_elem?,
}

abbrev pub soh : ℕ
soh = 0x01

abbrev pub eot : ℕ
eot = 0x04

abbrev pub ack : ℕ
ack = 0x06

abbrev pub nak : ℕ
nak = 0x15

abbrev pub can : ℕ
can = 0x18

abbrev pub ncg : ℕ
ncg = 0x43

abbrev pub block_size : ℕ
block_size = 128

-- The body of the loop of `crc16`; `crc` is a uint16_t.
unfoldable pub crc_byte : ℕ → ℕ → ℕ
crc_byte crc byte =
    let swapped = bit_or (crc / 256) (crc * 256 % 2 ^ 16) in
    let mixed = bit_xor swapped byte in
    let mixed' = bit_xor mixed (bit_and mixed 0xff / 16) in
    let mixed'' = bit_xor mixed' (mixed' * 4096) % 2 ^ 16 in
    bit_xor mixed'' (bit_and mixed'' 0xff * 32) % 2 ^ 16

unfoldable pub crc_bytes : ℕ → List ℕ → ℕ
unfolding crc_byte
crc_bytes crc [] = crc
crc_bytes crc (b ∷ bs) = crc_bytes (crc_byte crc b) bs

unfoldable pub crc16 : List ℕ → ℕ
unfolding crc_bytes
crc16 bs = crc_bytes 0 bs

-- `sequenceNumber` is an unsigned of 32 bits.
abbrev pub inc_unsigned : ℕ → ℕ
inc_unsigned n = (n + 1) % 2 ^ 32

-- `~(sequenceNumber & 0xFFu)` as a byte.
abbrev pub complement : ℕ → ℕ
complement n = 255 - n % 256

-- `writeData`: the block with its header and its crc in big-endian order.
unfoldable pub frame : ℕ → List ℕ → List ℕ
unfolding crc16
frame number data' =
    soh ∷ number % 256 ∷ complement number ∷ data' ++ crc16 data' / 256 ∷ crc16 data' % 256 ∷ []

-- What `upload` does next: it sends a frame, with `sequenceNumber` and `transmitCount`, or has left
-- its loop with `ret`.
pub data Move : Type 0 where
  send : ℕ → ℕ → List ℕ → Move
  leave : Bool → Move

-- `dataFunction` yields a block, or whether the upload was completed.
abbrev pub Source : Type 0
Source = ℕ → List ℕ ⊎ Bool

unfoldable pub prepare : ℕ → List ℕ ⊎ Bool → Move
unfolding frame
prepare number (inr ret) = leave ret
prepare number (inl bs) =
    if length bs == block_size then send number 0 (frame number bs) else leave false

unfoldable pub next_block : Source → ℕ → Move
unfolding prepare
next_block source number = prepare number (source (if number == 0 then 4294967295 else number - 1))

-- What follows a reply.
unfoldable pub after_reply : Source → ℕ → ℕ → List ℕ → Option ℕ → Move
unfolding next_block
after_reply source number count bs none = leave false
after_reply source number count bs (some reply) =
    if reply == ack
    then next_block source (inc_unsigned number)
    else (if reply == ncg
        then next_block source number
        else (if reply == can
            then leave false
            else (if ltb count 4 then send number (count + 2) bs else leave false)))

abbrev pub reply_of : List (Option ℕ) → Option ℕ
reply_of [] = none
reply_of (r ∷ rs) = r

abbrev pub is_char : Option ℕ → ℕ → Bool
is_char none c = false
is_char (some d) c = d == c

unfoldable pub cancel_transfer : List ℕ
cancel_transfer = can ∷ can ∷ can ∷ can ∷ []

-- The end of `upload`, after its loop.
unfoldable pub finish_upload : Bool → Option ℕ → Bool × List ℕ
unfolding cancel_transfer
finish_upload false reply = (false, cancel_transfer)
finish_upload true reply =
    if is_char reply ack then (true, eot ∷ []) else (false, eot ∷ cancel_transfer)

unfoldable pub exchange : Source → List (Option ℕ) → Move → Bool × List ℕ
unfolding finish_upload after_reply cancel_transfer
exchange source rs (leave ret) = finish_upload ret (reply_of rs)
exchange source [] (send number count bs) = (false, bs ++ cancel_transfer)
exchange source (r ∷ rs) (send number count bs) =
    let (ret, out) = exchange source rs (after_reply source number count bs r) in (ret, bs ++ out)

-- `upload`, with a `dataFunction` that may be null.
unfoldable pub upload : Option Source → List (Option ℕ) → Bool × List ℕ
unfolding exchange next_block
upload none rs = (false, [])
upload (some source) [] = (false, [])
upload (some source) (r ∷ rs) =
    if is_char r ncg then exchange source rs (next_block source 1) else (false, [])

-- The blocks of the overload that uploads an array of bytes.
unfoldable pub block_of : List ℕ → Source
block_of bytes block =
    let offset = block * 128 % 2 ^ 32 in
    if leb (length bytes) offset
    then inr true
    else (let cur = take 128 (drop offset bytes) in inl (cur ++ replicate (128 - length cur) 0xff))

-- A round of the loop of `download`: what `read` gives, and the next command.
pub record Round : Type 0 where
  pub chunk : Option (List ℕ)
  pub command : Option ℕ

abbrev pub byte_at : List ℕ → ℕ → ℕ
byte_at bs i = elim (get_elem? bs i) [ some b ↦ b | none ↦ 0 ]

-- `data->mid(2, BLOCK_SIZE)`.
abbrev pub payload : List ℕ → List ℕ
payload bs = take block_size (drop 2 bs)

unfoldable pub is_good : ℕ → List ℕ → Bool
unfolding crc16
is_good number bs =
    (byte_at bs 0 == number % 256)
    && (byte_at bs 1 == complement number)
    && (byte_at bs 130 * 256 + byte_at bs 131 == crc16 (payload bs))

-- What is left of a download: `sequenceNumber`, `ret`, and the command that was read.
pub data Stage : Type 0 where
  going : ℕ → Bool → ℕ → Stage
  stopped : Bool → Bool → Stage

-- The end of `download`: its result and what it writes, by `ret` and `sendReply`.
unfoldable pub finish_download : Bool → Bool → Bool × List ℕ
unfolding cancel_transfer
finish_download ret false = (ret, [])
finish_download true true = (true, ack ∷ [])
finish_download false true = (false, cancel_transfer)

-- The next command.
unfoldable pub read_command : ℕ → Bool → Option ℕ → Stage
read_command number ret none = stopped false true
read_command number ret (some c) = going number ret c

-- A block that was read, of the right size: what is written, the block that goes to `dataFunction`
-- (`keeps` is its answer), and how the loop goes on.
unfoldable pub take_block :
    (ℕ → List ℕ → Bool) → ℕ → Bool → List ℕ → Option ℕ → List ℕ × List (List ℕ) × Stage
unfolding is_good read_command
take_block keeps number ret bs command =
    if not (ret && is_good number bs)
    then (nak ∷ [], [], read_command number false command)
    else (if keeps number (payload bs)
        then (ack ∷ [], payload bs ∷ [], read_command (inc_unsigned number) true command)
        else ([], payload bs ∷ [], stopped false true))

unfoldable pub take_chunk : (ℕ → List ℕ → Bool) → ℕ → Bool → Round → List ℕ × List (List ℕ) × Stage
unfolding take_block
take_chunk keeps number ret r = elim r.chunk [
  | none ↦ ([], [], stopped false true)
  | some bs ↦
      if length bs == block_size + 4
      then take_block keeps number ret bs r.command
      else ([], [], stopped false true)
]

-- The `switch` on the command: whether the loop goes on.
unfoldable pub switch : ℕ → Bool → ℕ → Stage
switch number ret c =
    if c == soh
    then going number ret c
    else (if c == eot
        then stopped ret true
        else (if c == can then stopped false false else stopped false true))

unfoldable pub settle : Stage → Stage
unfolding switch
settle (going number ret c) = switch number ret c
settle (stopped ret reply) = stopped ret reply

-- The loop of `download` and its end: the result, what is written, and the blocks that
-- `dataFunction` is given.
unfoldable pub receive : (ℕ → List ℕ → Bool) → List Round → Stage → Bool × List ℕ × List (List ℕ)
unfolding finish_download take_chunk settle
receive keeps [] (going number ret c) = let (v, out) = finish_download false true in (v, out, [])
receive keeps [] (stopped ret reply) = let (v, out) = finish_download ret reply in (v, out, [])
receive keeps (r ∷ rs) (going number ret c) =
    let (w, d, s) = take_chunk keeps number ret r in
    let (v, out, ds) = receive keeps rs (settle s) in (v, w ++ out, d ++ ds)
receive keeps (r ∷ rs) (stopped ret reply) =
    let (v, out) = finish_download ret reply in (v, out, [])

-- The first command: NCG is sent for each of the replies that come within the ten seconds.
unfoldable pub poll : List (Option ℕ) → Option ℕ × List ℕ
poll [] = (none, [])
poll (none ∷ rs) = let (c, out) = poll rs in (c, ncg ∷ out)
poll (some c ∷ rs) = (some c, ncg ∷ [])

unfoldable pub begin_download :
    (ℕ → List ℕ → Bool) → List Round → Option ℕ → Bool × List ℕ × List (List ℕ)
unfolding receive settle
begin_download keeps rs none = (false, [], [])
begin_download keeps rs (some c) = receive keeps rs (settle (going 1 true c))

unfoldable pub download :
    (ℕ → List ℕ → Bool) → List (Option ℕ) → List Round → Bool × List ℕ × List (List ℕ)
unfolding poll begin_download
download keeps polls rs =
    let (first, out) = poll polls in
    let (v, out', ds) = begin_download keeps rs first in (v, out ++ out', ds)
