-- ===== src/Prelude/Word.antt =====
-- `size_t` and `uint32_t` as native numbers, with the wrap-around written out.
use Prim.Native.Nat.{ℕ, ◌+◌, ◌-◌, ◌*◌, ◌/◌, ◌%◌, ◌^◌}

-- `size_t`, `uintptr_t` and `intptr_t` have 64 bits.
abbrev pub word : ℕ
word = 2 ^ 64

abbrev pub add_size : ℕ → ℕ → ℕ
add_size a b = (a + b) % word

abbrev pub sub_size : ℕ → ℕ → ℕ
sub_size a b = (a + word - b) % word

abbrev pub mul_size : ℕ → ℕ → ℕ
mul_size a b = a * b % word

-- `(x + 63) & ~63`: the mask clears the low six bits.
abbrev pub round_up_64 : ℕ → ℕ
round_up_64 x = add_size x 63 / 64 * 64
