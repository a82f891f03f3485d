-- ===== src/Count.antt =====
-- How many numbers below a bound pass a test, and when a scan of them has work left.
use min_corehdr.Prelude.{
  ℕ, zero, suc, ◌+◌, ◌≤◌, ◌<◌, ◌≡◌, refl, inl, inr, Bool, false, ◌||◌, arith, ◌==◌, if◌then◌else◌,
  ==_iff, Bool-cases,
}

-- The numbers below `n` that pass `p`.
pub card : (ℕ → Bool) → ℕ → ℕ
card p zero = 0
card p (suc n) = card p n + (if p n then 1 else 0)

pub card-le : (p : ℕ → Bool) (n : ℕ) → card p n ≤ n
unfolding card
card-le p zero = omega arith
card-le p (suc n) = ground (arith, card-le p n)

pub card_congr : (p q : ℕ → Bool) (n : ℕ) → ((j : ℕ) → j < n → p j ≡ q j) → card p n ≡ card q n
unfolding card
card_congr p q zero h = refl
card_congr p q (suc n) h = rw (h n (omega arith), card_congr p q n (λ j b. h j (omega arith))) refl

pub card_none : (p : ℕ → Bool) (n : ℕ) → ((j : ℕ) → j < n → p j ≡ false) → card p n ≡ 0
unfolding card
card_none p zero h = refl
card_none p (suc n) h = ground (arith, h n, card_none p n (λ j b. h j (omega arith)))

-- One more number passes.
pub card_insert :
    (p q : ℕ → Bool) (i n : ℕ)
    → i < n
    → p i ≡ false
    → ((j : ℕ) → j < n → q j ≡ (j == i || p j))
    → card q n ≡ card p n + 1
unfolding card
card_insert p q i zero b absent h = absurd (omega arith)
card_insert p q i (suc n) b absent h = elim (Bool-cases (n == i)) [
  | inl e ↦
      let same : n ≡ i = (==_iff n i).0 e in
      let below : card q n ≡ card p n = card_congr q p n (λ j l. ground (arith, h j)) in
      ground (arith, h n)
  | inr ne ↦
      ground (arith, h n, card_insert p q i n (ground arith) absent (λ j l. h j (omega arith)))
]

pub card-suc : (p : ℕ → Bool) (n : ℕ) → card p (n + 1) ≡ card p n + (if p n then 1 else 0)
card-suc p n = let e : n + 1 ≡ suc n = omega arith in rw e (unfold card in refl)
