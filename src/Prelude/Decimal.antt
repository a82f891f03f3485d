-- ===== src/Prelude/Decimal.antt =====
-- Numbers as `printf` writes them by `%u`, `%zu` and `%llu`, and signed ones by `%d` and `%lld`.
use Prim.Native.Nat.{ℕ, zero, suc, ◌+◌, ◌-◌, ◌/◌, ◌%◌, ◌^◌}
use mathlib.Core.List.{[], ◌∷◌}
use min_corehdr.Prelude.Tests.{ltb, if◌then◌else◌}
use min_corehdr.Prelude.Strings.{Text}

-- The digits of `n` in front of `out`; a number has no more digits than its value and one.
unfoldable pub decimal_onto : ℕ → ℕ → Text → Text
decimal_onto zero n out = out
decimal_onto (suc fuel) n out =
    let rest = decimal_onto fuel (n / 10) ((48 + n % 10) ∷ out) in
    if ltb n 10 then (48 + n) ∷ out else rest

unfoldable pub decimal : ℕ → Text
unfolding decimal_onto
decimal n = decimal_onto (suc n) n []

-- A two's complement number of this width.
unfoldable pub signed_decimal : ℕ → ℕ → Text
unfolding decimal
signed_decimal width n = if ltb n (2 ^ (width - 1)) then decimal n else 45 ∷ decimal (2 ^ width - n)
