-- ===== src/Seeds/RoundTrip.antt =====
-- The number that `%u` writes is the one that the parser of access strings (src/seeds.c) reads.
use min_corehdr.Prelude.{
  ℕ, zero, suc, ◌+◌, ◌-◌, ◌*◌, ◌/◌, ◌%◌, ◌^◌, ◌<◌, ◌≡◌, refl, ap, ◌∙◌, inl, inr, Bool, true, false,
  Option, none, some, [], ◌∷◌, ◌++◌, arith, ltb, if◌then◌else◌, ltb→lt, Bool-cases, Option-cases,
  Text,
}
use min_corehdr.Prelude.Decimal.{decimal, decimal_onto}
use min_corehdr.Seeds.Access.{digits, after_digits, is_digit, parse_access_component}

is_digit-digit : (d : ℕ) → d < 10 → is_digit (48 + d) ≡ true
unfolding is_digit
is_digit-digit d h = ground (arith, h)

-- One more digit.
digits-cons :
    (parsed d : ℕ) (out : Text)
    → d < 10
    → digits parsed ((48 + d) ∷ out)
      ≡ (if ltb (parsed * 10 + d) (2 ^ 32) then digits (parsed * 10 + d) out else none)
unfolding digits
digits-cons parsed d out h =
    let value : parsed * 10 + (48 + d - 48) ≡ parsed * 10 + d = omega arith in
    rw (is_digit-digit d h, value) (ground arith)

digits-decimal :
    (fuel n : ℕ) (out : Text)
    → n < fuel
    → digits 0 (decimal_onto fuel n out) ≡ (if ltb n (2 ^ 32) then digits n out else none)
unfolding decimal_onto
digits-decimal zero n out h = absurd (omega (arith, h))
digits-decimal (suc fuel) n out h = elim (Bool-cases (ltb n 10)) [
  | inl one ↦
      let value : 0 * 10 + n ≡ n = omega arith in
      let first : digits 0 ((48 + n) ∷ out) ≡ (if ltb n (2 ^ 32) then digits n out else none) =
        rw value at (digits-cons 0 n out (ltb→lt n 10 one)) in
      rw one first
  | inr more ↦
      let tenth : n / 10 < fuel = ground arith in
      let rest = digits-decimal fuel (n / 10) ((48 + n % 10) ∷ out) tenth in
      let last = digits-cons (n / 10) (n % 10) out (omega arith) in
      let value : n / 10 * 10 + n % 10 ≡ n = omega arith in
      let last' : digits (n / 10) ((48 + n % 10) ∷ out)
          ≡ (if ltb n (2 ^ 32) then digits n out else none) =
        rw value at last in
      rw (more, rest) (ground (arith, last'))
]

decimal_onto-append :
    (fuel n : ℕ) (out more : Text)
    → decimal_onto fuel n out ++ more ≡ decimal_onto fuel n (out ++ more)
unfolding decimal_onto
decimal_onto-append zero n out more = refl
decimal_onto-append (suc fuel) n out more = elim (Bool-cases (ltb n 10)) [
  | inl one ↦ rw one refl
  | inr big ↦ rw big (decimal_onto-append fuel (n / 10) ((48 + n % 10) ∷ out) more)
]

-- The text of a number starts with a digit.
decimal_onto-head :
    (fuel n : ℕ) (out : Text)
    → n < fuel
    → (c : ℕ) × (cs : Text) × (decimal_onto fuel n out ≡ c ∷ cs) × (is_digit c ≡ true)
unfolding decimal_onto
decimal_onto-head zero n out h = absurd (omega (arith, h))
decimal_onto-head (suc fuel) n out h = elim (Bool-cases (ltb n 10)) [
  | inl one ↦ (48 + n, out, rw one refl, is_digit-digit n (ltb→lt n 10 one))
  | inr big ↦
      let (c, cs, e, d) = decimal_onto-head fuel (n / 10) ((48 + n % 10) ∷ out) (ground arith) in
      (c, cs, rw big e, d)
]

abbrev finish : Option (ℕ × Text) → Option (ℕ × Text)
finish none = none
finish (some stop) = after_digits stop

parse_access_component-digits :
    (text : Text) (c : ℕ) (cs : Text)
    → text ≡ c ∷ cs
    → is_digit c ≡ true
    → parse_access_component text ≡ finish (digits 0 text)
unfolding parse_access_component
parse_access_component-digits text c cs e d =
    rw (e, d)
      (elim (Option-cases (digits 0 (c ∷ cs))) [
        | inl bad ↦ rw bad refl
        | inr (stop, good) ↦ rw good refl
      ])

colon :
    (c : Bool) (n : ℕ) (rest : Text)
    → finish (if c then digits n (58 ∷ rest) else none) ≡ (if c then some (n, rest) else none)
unfolding digits is_digit after_digits
colon true n rest = refl
colon false n rest = refl

-- What `%u` writes for a number, with a colon behind it, is read as the number and the rest behind
-- the colon if the number has at most 32 bits, and rejected otherwise.
pub parse_access_component-decimal :
    (n : ℕ) (rest : Text)
    → parse_access_component (decimal n ++ 58 ∷ rest)
      ≡ (if ltb n (2 ^ 32) then some (n, rest) else none)
unfolding decimal
parse_access_component-decimal n rest =
    let text : decimal n ++ 58 ∷ rest ≡ decimal_onto (suc n) n (58 ∷ rest) =
      decimal_onto-append (suc n) n [] (58 ∷ rest) in
    let (c, cs, e, d) = decimal_onto-head (suc n) n (58 ∷ rest) (omega arith) in
    ap parse_access_component text
    ∙ parse_access_component-digits (decimal_onto (suc n) n (58 ∷ rest)) c cs e d
    ∙ ap finish (digits-decimal (suc n) n (58 ∷ rest) (omega arith))
    ∙ colon (ltb n (2 ^ 32)) n rest
