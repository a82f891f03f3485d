-- ===== src/Seeds/Components.antt =====
-- How an access string is read.
use min_corehdr.Prelude.{
  ℕ, ◌+◌, ◌-◌, ◌*◌, ◌^◌, ◌≤◌, ◌<◌, ◌≡◌, inl, inr, true, Option, some, [], ◌∷◌, arith, Bool-cases,
  Option-cases, length, Text,
}
use min_corehdr.Seeds.Access.{is_digit, digits, after_digits, parse_access_component}

digits-bounds :
    (parsed : ℕ) (s : Text) (v : ℕ) (rest : Text)
    → parsed < 2 ^ 32
    → digits parsed s ≡ some (v, rest)
    → (v < 2 ^ 32) × (length rest ≤ length s)
unfolding digits
digits-bounds parsed [] v rest h e =
    let same : parsed ≡ v = cc e in
    let end : [] ≡ rest = cc e in (omega (arith, same), rw (← end) (omega arith))
digits-bounds parsed (c ∷ cs) v rest h e = elim (Bool-cases (is_digit c)) [
  | inl digit ↦
      let small : (parsed * 10 + (c - 48)) < 2 ^ 32 = ground arith in
      let run : digits (parsed * 10 + (c - 48)) cs ≡ some (v, rest) = ground arith in
      let (low, less) = digits-bounds (parsed * 10 + (c - 48)) cs v rest small run in
      (low, omega (arith, less))
  | inr other ↦
      let stop : Option (ℕ × Text) = some (parsed, c ∷ cs) in
      let run : stop ≡ some (v, rest) = ground arith in
      let same : parsed ≡ v = cc run in
      let end : c ∷ cs ≡ rest = cc run in (omega (arith, same), rw (← end) (omega arith))
]

after_digits-bounds :
    (stop : ℕ × Text) (v : ℕ) (rest : Text)
    → after_digits stop ≡ some (v, rest)
    → (stop.0 ≡ v) × (length rest ≤ length stop.1)
unfolding after_digits
after_digits-bounds (value, []) v rest e =
    let end : [] ≡ rest = cc e in (cc e, rw (← end) (omega arith))
after_digits-bounds (value, c ∷ cs) v rest e =
    let stop : Option (ℕ × Text) = some (value, cs) in
    let run : stop ≡ some (v, rest) = ground arith in
    let end : cs ≡ rest = cc run in (cc run, rw (← end) (omega arith))

first-lt : (c : ℕ) → is_digit c ≡ true → (0 * 10 + (c - 48)) < 2 ^ 32
unfolding is_digit
first-lt c d = ground arith

first :
    (c : ℕ) (cs : Text) (stop : ℕ × Text)
    → is_digit c ≡ true
    → digits 0 (c ∷ cs) ≡ some stop
    → digits (0 * 10 + (c - 48)) cs ≡ some (stop.0, stop.1)
unfolding digits
first c cs stop d e = ground arith

-- When a component of an access string is read, its value has 32 bits, and the cursor has moved on
-- by at least one byte.
pub parse_access_component-bounds :
    (s : Text) (v : ℕ) (rest : Text)
    → parse_access_component s ≡ some (v, rest)
    → (v < 2 ^ 32) × (length rest < length s)
unfolding parse_access_component
parse_access_component-bounds [] v rest e = cc e
parse_access_component-bounds (c ∷ cs) v rest e =
    let digit : is_digit c ≡ true = ground arith in
    elim (Option-cases (digits 0 (c ∷ cs))) [
      | inl stuck ↦ absurd (ground (arith, stuck))
      | inr (stop, at) ↦
          let ending : after_digits stop ≡ some (v, rest) = ground (arith, at) in
          let read : digits (0 * 10 + (c - 48)) cs ≡ some (stop.0, stop.1) =
            first c cs stop digit at in
          let small : (0 * 10 + (c - 48)) < 2 ^ 32 = first-lt c digit in
          let (low, less) = digits-bounds (0 * 10 + (c - 48)) cs stop.0 stop.1 small read in
          let (same, shorter) = after_digits-bounds stop v rest ending in
          (omega (arith, low, same), omega (arith, less, shorter))
    ]
