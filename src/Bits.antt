-- ===== src/Bits.antt =====
-- The binary digits of a word, and how the bit operations of the sources act on them.
mod Step
use Step.{bit_or-half, bit_and-half}
use Prim.Native.Nat.{min, max, bit_and, bit_or, bit_and-bitwise}
use native.Mathlib.Nat.{pow-suc, one-le-pow}
use min_corehdr.Prelude.{
  ℕ, zero, suc, ◌+◌, ◌-◌, ◌*◌, ◌/◌, ◌%◌, ◌^◌, ◌≤◌, ◌<◌, ◌≡◌, refl, arith, ltb, leb, ◌==◌,
  if◌then◌else◌, ◌&&◌,
}

-- Digit `j` of `w`, counted from the lowest.
pub bit : ℕ → ℕ → ℕ
bit w zero = w % 2
bit w (suc j) = bit (w / 2) j

bit_and-zero_below : (n a : ℕ) → a ≤ n → bit_and a 0 ≡ 0
bit_and-zero_below n zero h = bit_and-bitwise 0 0
bit_and-zero_below zero (suc a) h = absurd (omega arith)
bit_and-zero_below (suc n) (suc a) h =
    omega (arith, bit_and-half (suc a) 0, bit_and-zero_below n (suc a / 2) (omega arith))

pub bit_and-zero : (a : ℕ) → bit_and a 0 ≡ 0
bit_and-zero a = bit_and-zero_below a a (omega arith)

pub bit_low : (w : ℕ) → bit w 0 ≡ w % 2
unfolding bit
bit_low w = refl

pub bit-suc : (w j : ℕ) → bit w (suc j) ≡ bit (w / 2) j
unfolding bit
bit-suc w j = refl

pub bit_and-one : (w : ℕ) → bit_and w 1 ≡ w % 2
bit_and-one w = omega (arith, bit_and-half w 1, bit_and-zero (w / 2))

pub bit-lt : (w j : ℕ) → bit w j < 2
unfolding bit
bit-lt w zero = omega arith
bit-lt w (suc j) = bit-lt (w / 2) j

pub bit-zero : (j : ℕ) → bit 0 j ≡ 0
unfolding bit
bit-zero zero = refl
bit-zero (suc j) = bit-zero j

pub bit-bit_and : (a b j : ℕ) → bit (bit_and a b) j ≡ min (bit a j) (bit b j)
unfolding bit
bit-bit_and a b zero = omega (arith, bit_and-half a b)
bit-bit_and a b (suc j) =
    let half : bit_and a b / 2 ≡ bit_and (a / 2) (b / 2) = omega (arith, bit_and-half a b) in
    rw half (bit-bit_and (a / 2) (b / 2) j)

pub bit-bit_or : (a b j : ℕ) → bit (bit_or a b) j ≡ max (bit a j) (bit b j)
unfolding bit
bit-bit_or a b zero = omega (arith, bit_or-half a b)
bit-bit_or a b (suc j) =
    let half : bit_or a b / 2 ≡ bit_or (a / 2) (b / 2) = omega (arith, bit_or-half a b) in
    rw half (bit-bit_or (a / 2) (b / 2) j)

-- The single-bit mask `1 << k`.
pub bit-pow : (k j : ℕ) → bit (2 ^ k) j ≡ (if j == k then 1 else 0)
unfolding bit
bit-pow zero zero = refl
bit-pow zero (suc j) = ground (arith, bit-zero j)
bit-pow (suc k) zero = ground (arith, pow-suc 2 k)
bit-pow (suc k) (suc j) =
    let half : 2 ^ suc k / 2 ≡ 2 ^ k = omega (arith, pow-suc 2 k) in
    rw half (rw (bit-pow k j) (ground arith))

-- `w & (1 << k)` keeps digit `k` alone.
pub bit_and-pow : (k w : ℕ) → bit_and w (2 ^ k) ≡ bit w k * 2 ^ k
unfolding bit
bit_and-pow zero w = omega (arith, bit_and-one w)
bit_and-pow (suc k) w =
    let half : 2 ^ suc k / 2 ≡ 2 ^ k = omega (arith, pow-suc 2 k) in
    let even : 2 ^ suc k % 2 ≡ 0 = omega (arith, pow-suc 2 k) in
    let step : bit_and w (2 ^ suc k) ≡ bit_and (w / 2) (2 ^ k) * 2 =
      rw (bit_and-half w (2 ^ suc k), half, even) (omega arith) in
    grind (arith, step, bit_and-pow k (w / 2), pow-suc 2 k)

-- The mask of the digits from `k` up to `n`.
pub bit-mask_from :
    (k n j : ℕ) → k ≤ n → bit (2 ^ n - 2 ^ k) j ≡ (if leb k j && ltb j n then 1 else 0)
unfolding bit
bit-mask_from zero zero j h = rw (bit-zero j) (ground arith)
bit-mask_from zero (suc n) zero h = ground (arith, pow-suc 2 n, one-le-pow n 2)
bit-mask_from zero (suc n) (suc j) h =
    let half : (2 ^ suc n - 2 ^ 0) / 2 ≡ 2 ^ n - 2 ^ 0 =
      omega (arith, pow-suc 2 n, one-le-pow n 2) in
    rw half (rw (bit-mask_from zero n j (omega arith)) (ground arith))
bit-mask_from (suc k) zero j h = absurd (omega arith)
bit-mask_from (suc k) (suc n) zero h = ground (arith, pow-suc 2 n, pow-suc 2 k)
bit-mask_from (suc k) (suc n) (suc j) h =
    let half : (2 ^ suc n - 2 ^ suc k) / 2 ≡ 2 ^ n - 2 ^ k =
      omega (arith, pow-suc 2 n, pow-suc 2 k) in
    rw half (rw (bit-mask_from k n j (omega arith)) (ground arith))

-- A word below `2 ^ n` has no digit from `n` on.
pub bit-eq-zero_of_lt : (n w j : ℕ) → w < 2 ^ n → n ≤ j → bit w j ≡ 0
unfolding bit
bit-eq-zero_of_lt zero zero j h p = bit-zero j
bit-eq-zero_of_lt zero (suc w) j h p = absurd (omega arith)
bit-eq-zero_of_lt (suc n) w zero h p = absurd (omega arith)
bit-eq-zero_of_lt (suc n) w (suc j) h p =
    bit-eq-zero_of_lt n (w / 2) j (omega (arith, pow-suc 2 n)) (omega arith)

-- Conversely, a word is 0 when all its digits are.
pub eq-zero_of_bits : (n w : ℕ) → w < 2 ^ n → ((j : ℕ) → j < n → bit w j ≡ 0) → w ≡ 0
unfolding bit
eq-zero_of_bits zero w h zeros = omega arith
eq-zero_of_bits (suc n) w h zeros =
    let low : w % 2 ≡ 0 = zeros 0 (omega arith) in
    let high : w / 2 ≡ 0 =
      eq-zero_of_bits n (w / 2) (omega (arith, pow-suc 2 n)) (λ j p. zeros (suc j) (omega arith)) in
    omega arith

pub bit_and-le : (n a b : ℕ) → a < 2 ^ n → bit_and a b ≤ b
bit_and-le zero a b h = ground (arith, bit_and-half a b, zero-bit_and (b / 2))
  where
    zero-bit_and : (c : ℕ) → bit_and 0 c ≡ 0
    zero-bit_and c = bit_and-bitwise 0 c
bit_and-le (suc n) a b h =
    omega (arith, bit_and-half a b, bit_and-le n (a / 2) (b / 2) (omega (arith, pow-suc 2 n)))

pub bit_or-lt : (n a b : ℕ) → a < 2 ^ n → b < 2 ^ n → bit_or a b < 2 ^ n
bit_or-lt zero a b p q =
    let za : a ≡ 0 = omega arith in let zb : b ≡ 0 = omega arith in rw (za, zb) (omega arith)
bit_or-lt (suc n) a b p q = omega (
  arith,
  pow-suc 2 n,
  bit_or-half a b,
  bit_or-lt n (a / 2) (b / 2) (omega (arith, pow-suc 2 n)) (omega (arith, pow-suc 2 n)),
)
