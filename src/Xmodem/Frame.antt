-- ===== src/Xmodem/Frame.antt =====
-- A frame that was written is accepted (corralXModem.cpp).
use hf_qcorral.Prelude.{
  ℕ, suc, ◌+◌, ◌*◌, ◌/◌, ◌%◌, ◌≡◌, refl, sym, ap, ◌∙◌, true, some, List, [], ◌∷◌, ◌++◌, arith, ◌==◌,
  ==_iff, length, length-append, take, drop, get_elem?,
}
use hf_qcorral.Xmodem.{crc16, complement, frame, is_good, payload, byte_at, block_size}

get_append : (xs ys : List ℕ) → get_elem? (xs ++ ys) (length xs) ≡ get_elem? ys 0
get_append [] ys = refl
get_append (x ∷ xs) ys = get_append xs ys

get_append_next : (xs ys : List ℕ) → get_elem? (xs ++ ys) (suc (length xs)) ≡ get_elem? ys 1
get_append_next [] ys = refl
get_append_next (x ∷ xs) ys = get_append_next xs ys

pub take_append : (xs ys : List ℕ) → take (length xs) (xs ++ ys) ≡ xs
take_append [] ys = refl
take_append (x ∷ xs) ys = ap (◌∷◌ x) (take_append xs ys)

-- What follows the first byte of a frame.
abbrev pub content : ℕ → List ℕ → List ℕ
content number bs = drop 1 (frame number bs)

payload-content :
    (number : ℕ) (bs : List ℕ) → length bs ≡ block_size → payload (content number bs) ≡ bs
unfolding frame
payload-content number bs e =
    ap (λ n. take n (bs ++ crc16 bs / 256 ∷ crc16 bs % 256 ∷ [])) (sym e) ∙ take_append bs _

crc-content :
    (number : ℕ) (bs : List ℕ)
    → length bs ≡ block_size
    → byte_at (content number bs) 130 * 256 + byte_at (content number bs) 131 ≡ crc16 bs
unfolding frame
crc-content number bs e =
    let end = crc16 bs / 256 ∷ crc16 bs % 256 ∷ [] in
    let high : get_elem? (bs ++ end) 128 ≡ some (crc16 bs / 256) =
      ap (get_elem? (bs ++ end)) (sym e) ∙ get_append bs end in
    let low : get_elem? (bs ++ end) 129 ≡ some (crc16 bs % 256) =
      ap (λ n. get_elem? (bs ++ end) (suc n)) (sym e) ∙ get_append_next bs end in
    rw (high, low) (omega arith)

length-content :
    (number : ℕ) (bs : List ℕ)
    → length bs ≡ block_size
    → length (content number bs) ≡ block_size + 4
unfolding frame
length-content number bs e =
    omega (arith, e, length-append bs (crc16 bs / 256 ∷ crc16 bs % 256 ∷ []))

self : (n : ℕ) → (n == n) ≡ true
self n = ground arith

content-good :
    (number : ℕ) (bs : List ℕ) → length bs ≡ block_size → is_good number (content number bs) ≡ true
unfolding is_good frame
content-good number bs e =
    let sums : (byte_at (content number bs) 130 * 256 + byte_at (content number bs) 131
          == crc16 (payload (content number bs)))
        ≡ true =
      (==_iff _ _).1 (crc-content number bs e ∙ sym (ap crc16 (payload-content number bs e))) in
    rw (sums, self (number % 256), self (complement number)) refl

-- What `upload` writes for a block, `download` accepts: for every block of the right size and every
-- sequence number, what follows the first byte of the frame is as long as `download` reads, passes
-- its tests on the sequence number, its complement and the crc, and yields the block.
pub content-frame :
    (number : ℕ) (bs : List ℕ)
    → length bs ≡ block_size
    → (length (content number bs) ≡ block_size + 4)
      × (is_good number (content number bs) ≡ true)
      × (payload (content number bs) ≡ bs)
content-frame number bs e =
    let same = payload-content number bs e in
    (length-content number bs e, content-good number bs e, same)
