-- ===== src/Xmodem/Tests.antt =====
-- Transfers of a block of zeros.
use hf_qcorral.Prelude.{
  ℕ, ◌≡◌, refl, true, false, inl, inr, some, List, [], ◌∷◌, arith, replicate, ◌==◌, if◌then◌else◌,
}
use hf_qcorral.Xmodem.{
  crc16, ack, ncg, soh, Source, upload, download, frame, is_good, Round, going, receive,
}
use hf_qcorral.Xmodem.Frame.{content, content-frame}
use hf_qcorral.Xmodem.Transfer.{first_of, rounds, bytes_read, upload-download}
use hf_qcorral.Xmodem.Failed.{bad_block_fails}

-- The check value of CRC-16/XMODEM: the digits 1 to 9.
check_value : crc16 (0x31 ∷ 0x32 ∷ 0x33 ∷ 0x34 ∷ 0x35 ∷ 0x36 ∷ 0x37 ∷ 0x38 ∷ 0x39 ∷ []) ≡ 0x31c3
unfolding crc16
check_value = refl

abbrev zeros : List ℕ
zeros = replicate 128 0

abbrev one_block : Source
one_block n = if n == 0 then inl zeros else inr true

upload-download_example :
    (upload (some one_block) (some ncg ∷ replicate 2 (some ack))
      ≡ (true, first_of (zeros ∷ []) ∷ bytes_read (rounds 1 (zeros ∷ []))))
    × (download (λ n d. true) (some (first_of (zeros ∷ [])) ∷ []) (rounds 1 (zeros ∷ []))
        ≡ (true, ncg ∷ replicate 2 ack, zeros ∷ []))
upload-download_example = upload-download one_block (zeros ∷ []) (refl, refl, refl) (omega arith)

-- A block with a wrong sequence number, and then the right one.
abbrev wrong : List ℕ
wrong = content 2 zeros

wrong_is_bad : is_good 1 wrong ≡ false
unfolding is_good frame
wrong_is_bad = refl

abbrev right : Round
right = record { chunk = some (content 1 zeros); command = some 4 }

bad_block_fails_example :
    let r : Round = record { chunk = some wrong; command = some soh } in
    let (v, out, ds) = receive (λ n d. true) (r ∷ right ∷ []) (going 1 true soh) in
    (v ≡ false) × (ds ≡ [])
bad_block_fails_example =
    bad_block_fails (λ n d. true) 1 soh wrong (some soh) (right ∷ []) (content-frame 2 zeros refl).0
      wrong_is_bad
