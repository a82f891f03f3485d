-- ===== src/Emitter/Qualifiers.antt =====
-- The qualifiers in front of a type: their text always fits its buffer, and where the loop over them
-- ends.
use min_corehdr.Prelude.{
  ℕ, zero, suc, ◌+◌, ◌≤◌, ◌<◌, ◌≡◌, refl, ap, ◌∙◌, ◌≢◌, inl, inr, Bool, true, false, [], ◌∷◌, ◌++◌,
  arith, ◌==◌, Bool-cases, length, length-append, Text, codes,
}
use min_corehdr.Errors.{Failure, ok, failed, Result-cases}
use min_corehdr.Btf.{Btf, BtfType}
use min_corehdr.Emitter.Names.{
  has_mask, append_if, append_type_qualifier, append_qualifier_mask, type_qualifier_bit, type_at,
  strip_qualifiers,
}
use Prim.Native.Nat.{bit_or}

-- Room for a qualifier and the space in front of it.
appended :
    (c : Bool) (size : ℕ) (qualifier buf : Text)
    → length buf + 1 + length qualifier < size
    → (q : Text) × (append_if c size qualifier buf ≡ ok q)
      × (length q ≤ length buf + 1 + length qualifier)
unfolding append_type_qualifier
appended false size qualifier buf h = (buf, refl, omega arith)
appended true size qualifier [] h = (qualifier, ground (arith, h), omega arith)
appended true size qualifier (c ∷ cs) h = (
  (c ∷ cs) ++ 32 ∷ qualifier,
  ground (arith, h),
  omega (arith, length-append (c ∷ cs) (32 ∷ qualifier)),
)

-- For every mask, the buffer of 64 bytes has room for the qualifiers and the final zero.
pub append_qualifier_mask-ok :
    (mask : ℕ) → (q : Text) × (append_qualifier_mask 64 [] mask ≡ ok q) × (length q < 64)
unfolding append_qualifier_mask
append_qualifier_mask-ok mask =
    let (q1, e1, l1) = appended (has_mask mask 1) 64 (codes "const") [] (omega arith) in
    let (q2, e2, l2) = appended (has_mask mask 2) 64 (codes "volatile") q1 (omega (arith, l1)) in
    let (q3, e3, l3) =
      appended (has_mask mask 4) 64 (codes "restrict") q2 (omega (arith, l1, l2)) in
    (q3, rw (e1, e2) e3, omega (arith, l1, l2, l3))

module _ (b : Btf) where
  type_at-fuel : (id : ℕ) → type_at b id ≢ failed Failure.out_of_fuel
  unfolding type_at
  type_at-fuel id = ground arith

  -- A rank of the types that falls from each qualifier to the type it refers to bounds the rounds of
  -- the loop: with more fuel than the rank of its start it does not run out of fuel.
  pub strip_qualifiers-ends :
      (rank : ℕ → ℕ)
      → ((id : ℕ) (t : BtfType)
          → type_at b id ≡ ok t
          → type_qualifier_bit t.kind ≢ 0
          → rank t.ref < rank id)
      → (fuel mask id : ℕ) → rank id < fuel
      → strip_qualifiers b fuel mask id ≢ failed Failure.out_of_fuel
  unfolding strip_qualifiers
  strip_qualifiers-ends rank falls zero mask id h out = absurd (omega (arith, h))
  strip_qualifiers-ends rank falls (suc fuel) mask id h out = elim (Result-cases (type_at b id)) [
    | inr (e, bad) ↦ type_at-fuel id (bad ∙ ap failed (ground (arith, bad, out)))
    | inl (t, at) ↦
        let bit = type_qualifier_bit t.kind in
        elim (Bool-cases (bit == 0)) [
          | inl free ↦ ground (arith, at, free, out)
          | inr more ↦
              let lower = falls id t at (ground (arith, more)) in
              let rest =
                strip_qualifiers-ends rank falls fuel (bit_or mask bit) t.ref
                  (omega (arith, lower, h)) in
              rest (ground (arith, at, more, out))
        ]
  ]

  no_round : (mask id : ℕ) → strip_qualifiers b zero mask id ≡ failed Failure.out_of_fuel
  unfolding strip_qualifiers
  no_round mask id = refl

  one_round :
      (fuel mask id : ℕ) (t : BtfType)
      → type_at b id ≡ ok t
      → type_qualifier_bit t.kind ≢ 0
      → strip_qualifiers b (suc fuel) mask id
        ≡ strip_qualifiers b fuel (bit_or mask (type_qualifier_bit t.kind)) t.ref
  unfolding strip_qualifiers
  one_round fuel mask id t at q = ground (arith, at, q)

  -- A set of types in which every one is a qualifier of another one in the set makes the loop of the
  -- code run for ever: no fuel is enough from a start in it.
  pub strip_qualifiers-cycle :
      (cycle : ℕ → Bool)
      → ((id : ℕ)
          → cycle id ≡ true
          → (t : BtfType) × (type_at b id ≡ ok t)
            × (type_qualifier_bit t.kind ≢ 0)
            × (cycle t.ref ≡ true))
      → (fuel mask id : ℕ) → cycle id ≡ true
      → strip_qualifiers b fuel mask id ≡ failed Failure.out_of_fuel
  strip_qualifiers-cycle cycle goes zero mask id c = no_round mask id
  strip_qualifiers-cycle cycle goes (suc fuel) mask id c =
      let (t, at, q, next) = goes id c in
      let rest =
        strip_qualifiers-cycle cycle goes fuel (bit_or mask (type_qualifier_bit t.kind)) t.ref
          next in
      one_round fuel mask id t at q ∙ rest
