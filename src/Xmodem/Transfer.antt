-- ===== src/Xmodem/Transfer.antt =====
-- A transfer without a fault (corralXModem.cpp).
use hf_qcorral.Prelude.{
  if◌then◌else◌, ℕ, suc, ◌+◌, ◌-◌, ◌^◌, ◌<◌, ◌≡◌, refl, sym, ap, ◌∙◌, true, inl, inr, Option, none,
  some, List, [], ◌∷◌, ◌++◌, append_assoc, arith, ◌==◌, ==_iff, length, replicate,
}
use hf_qcorral.Xmodem.{
  soh, eot, ack, ncg, block_size, frame, inc_unsigned, send, leave, Source, prepare, next_block,
  after_reply, exchange, upload, Round, going, settle, take_block, take_chunk, receive, download,
  begin_download, read_command, switch, poll, finish_download, finish_upload,
}
use hf_qcorral.Xmodem.Frame.{content, content-frame}

-- From its call with `k` on, the source yields these blocks, and then completes the upload.
abbrev pub Serves : Source → ℕ → List (List ℕ) → Type 0
Serves source k [] = source k ≡ inr true
Serves source k (d ∷ ds) = (source k ≡ inl d) × (length d ≡ block_size) × Serves source (k + 1) ds

abbrev pub frames : ℕ → List (List ℕ) → List ℕ
frames n [] = []
frames n (d ∷ ds) = frame n d ++ frames (n + 1) ds

abbrev pub first_of : List (List ℕ) → ℕ
first_of [] = eot
first_of (d ∷ ds) = soh

-- What the device gives `download` to read, a chunk and a command at a time.
abbrev pub rounds : ℕ → List (List ℕ) → List Round
rounds n [] = []
rounds n (d ∷ ds) =
    record { chunk = some (content n d); command = some (first_of ds) } ∷ rounds (n + 1) ds

abbrev pub char_of : Option ℕ → List ℕ
char_of none = []
char_of (some c) = c ∷ []

abbrev pub bytes_of : Option (List ℕ) → List ℕ
bytes_of none = []
bytes_of (some bs) = bs

abbrev pub bytes_read : List Round → List ℕ
bytes_read [] = []
bytes_read (r ∷ rs) = bytes_of r.chunk ++ (char_of r.command ++ bytes_read rs)

counted_up : (n m : ℕ) → n + suc m < 2 ^ 32 → inc_unsigned n ≡ n + 1
counted_up n m h = omega (arith, h)

before :
    (source : Source) (k : ℕ) → source (if k + 1 == 0 then 4294967295 else k + 1 - 1) ≡ source k
before source k = ap source (ground arith)

no_block : (source : Source) (k : ℕ) → source k ≡ inr true → next_block source (k + 1) ≡ leave true
unfolding next_block prepare
no_block source k e = ap (prepare (k + 1)) (before source k ∙ e)

one_block :
    (source : Source) (k : ℕ) (d : List ℕ)
    → source k ≡ inl d
    → length d ≡ block_size
    → next_block source (k + 1) ≡ send (k + 1) 0 (frame (k + 1) d)
unfolding next_block prepare
one_block source k d e l =
    let fits : (length d == block_size) ≡ true = (==_iff _ _).1 l in
    ap (prepare (k + 1)) (before source k ∙ e) ∙ rw fits refl

acknowledged :
    (source : Source) (n m count : ℕ) (bs : List ℕ)
    → n + suc m < 2 ^ 32
    → after_reply source n count bs (some ack) ≡ next_block source (n + 1)
unfolding after_reply
acknowledged source n m count bs h = ap (next_block source) (counted_up n m h)

send_all :
    (source : Source) (k : ℕ) (ds : List (List ℕ))
    → Serves source k ds
    → k + 1 + length ds < 2 ^ 32
    → exchange source (replicate (suc (length ds)) (some ack)) (next_block source (k + 1))
      ≡ (true, frames (k + 1) ds ++ eot ∷ [])
unfolding exchange finish_upload
send_all source k [] s h = rw (no_block source k s) refl
send_all source k (d ∷ ds) (e, l, s) h =
    let rest = send_all source (k + 1) ds s (omega (arith, h)) in
    rw
      (
        one_block source k d e l,
        acknowledged source (k + 1) (length ds) 0 (frame (k + 1) d) (omega (arith, h)),
        rest,
      )
      (ap (λ (bs : List ℕ). (true, bs))
        (sym (append_assoc (frame (k + 1) d) (frames (k + 1 + 1) ds) (eot ∷ []))))

take_content :
    (n : ℕ) (d : List ℕ) (c m : ℕ)
    → length d ≡ block_size
    → n + suc m < 2 ^ 32
    → take_chunk (λ i b. true) n true (record { chunk = some (content n d); command = some c })
      ≡ (ack ∷ [], d ∷ [], going (n + 1) true c)
unfolding take_chunk take_block read_command
take_content n d c m l h =
    let (size, good, same) = content-frame n d l in
    let fits : (length (content n d) == block_size + 4) ≡ true = (==_iff _ _).1 size in
    rw (fits, good, same, counted_up n m h) refl

receive_all :
    (n : ℕ) (source : Source) (k : ℕ) (ds : List (List ℕ))
    → Serves source k ds
    → n + length ds < 2 ^ 32
    → receive (λ m d. true) (rounds n ds) (settle (going n true (first_of ds)))
      ≡ (true, replicate (suc (length ds)) ack, ds)
unfolding receive settle switch finish_download
receive_all n source k [] s h = refl
receive_all n source k (d ∷ ds) (e, l, s) h =
    rw
      (
        take_content n d (first_of ds) (length ds) l h,
        receive_all (n + 1) source (k + 1) ds s (omega (arith, h)),
      )
      refl

reads :
    (n : ℕ) (source : Source) (k : ℕ) (ds : List (List ℕ))
    → Serves source k ds
    → first_of ds ∷ bytes_read (rounds n ds) ≡ frames n ds ++ eot ∷ []
unfolding frame
reads n source k [] s = refl
reads n source k (d ∷ ds) (e, l, s) =
    ap (λ bs. frame n d ++ bs) (reads (n + 1) source (k + 1) ds s)
    ∙ sym (append_assoc (frame n d) (frames (n + 1) ds) (eot ∷ []))

-- A transfer in which nothing is lost: if the source yields blocks of 128 bytes (fewer than 2^32)
-- and then completes, and the device answers with NCG and then with an ACK for each frame and for the
-- end, then `upload` succeeds; `download`, that reads exactly the bytes which `upload` has written,
-- succeeds too, and passes on the very blocks; and what it writes is NCG and those ACKs.
pub upload-download :
    (source : Source) (ds : List (List ℕ))
    → Serves source 0 ds
    → 1 + length ds < 2 ^ 32
    → let acks = replicate (suc (length ds)) ack in
      let sent = first_of ds ∷ bytes_read (rounds 1 ds) in
      (upload (some source) (some ncg ∷ replicate (suc (length ds)) (some ack)) ≡ (true, sent))
      × (download (λ n d. true) (some (first_of ds) ∷ []) (rounds 1 ds) ≡ (true, ncg ∷ acks, ds))
unfolding upload download poll begin_download
upload-download source ds s h = (
  send_all source 0 ds s h ∙ ap (λ (bs : List ℕ). (true, bs)) (sym (reads 1 source 0 ds s)),
  rw (receive_all 1 source 0 ds s h) refl,
)
