-- ===== src/TypeSet/Words.antt =====
-- One bit of a word array, read and written: `contains`, `add` and the bit sets of
-- src/requirements.c share it.
use Prim.Native.Nat.{bit_or}
use native.Mathlib.Nat.{one-le-pow}
use min_corehdr.Bits.{bit, bit-lt, bit-bit_or, bit-pow, bit_and-pow, bit-zero}
use min_corehdr.Prelude.{
  ℕ, ◌+◌, ◌/◌, ◌%◌, ◌^◌, ◌<◌, ◌≡◌, refl, false, ◌||◌, List, arith, ◌==◌, replicate, length,
  length-set, get_or-set, get_or-replicate,
}
use min_corehdr.TypeSet.{word_of, mask_of, has_bit, put_bit, word_count_for_bits}

-- `has_bit` reads the digit `id % 64` of the word of `id`.
pub has_bit-eq-bit : (ws : List ℕ) (id : ℕ) → has_bit ws id ≡ (bit (word_of ws id) (id % 64) == 1)
unfolding has_bit
has_bit-eq-bit ws id =
    let w = word_of ws id in
    let k = id % 64 in rw (bit_and-pow k w) (grind (arith, bit-lt w k, one-le-pow k 2))

pub has_bit-replicate : (n id : ℕ) → has_bit (replicate n 0) id ≡ false
has_bit-replicate n id =
    rw (has_bit-eq-bit, get_or-replicate {A = ℕ} n (id / 64) 0, bit-zero (id % 64)) refl

pub length-put_bit : (ws : List ℕ) (id : ℕ) → length (put_bit ws id) ≡ length ws
unfolding put_bit
length-put_bit ws id = length-set ws _ _

-- Within the array, writing one bit sets that bit and leaves every other alone.
pub has_bit-put_bit :
    (ws : List ℕ) (id j : ℕ)
    → id / 64 < length ws
    → has_bit (put_bit ws id) j ≡ (j == id || has_bit ws j)
unfolding put_bit
has_bit-put_bit ws id j h =
    let w = word_of ws id in
    rw
      (has_bit-eq-bit, has_bit-eq-bit, get_or-set ws (id / 64) (j / 64) (bit_or w (mask_of id)) 0 h)
      (ground (
        arith,
        bit-bit_or w (mask_of id) (j % 64),
        bit-pow (id % 64) (j % 64),
        bit-lt (word_of ws j) (j % 64),
      ))

-- The array that `init` makes has a word for every id below the count.
pub word_count_for_bits-le : (n id : ℕ) → n + 63 < 2 ^ 64 → id < n → id / 64 < word_count_for_bits n
unfolding word_count_for_bits
word_count_for_bits-le n id fits h = ground arith
