-- ===== src/Prelude/Words.antt =====
-- `size_t`: 64 bits, with the wrap-around written out.
use Prim.Native.Nat.{ℕ, ◌+◌, ◌-◌, ◌%◌, ◌^◌}

abbrev pub size_mod : ℕ
size_mod = 2 ^ 64

-- `++n` and `--n` of a `size_t`.
abbrev pub inc_size : ℕ → ℕ
inc_size n = (n + 1) % size_mod

abbrev pub dec_size : ℕ → ℕ
dec_size n = (n + size_mod - 1) % size_mod
