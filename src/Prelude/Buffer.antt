-- ===== src/Prelude/Buffer.antt =====
-- A text in a buffer of a fixed size, as `snprintf` writes it.
use Prim.Native.Nat.{ℕ, zero, suc, ◌-◌}
use Prim.Native.Nat.{◌<◌, ◌≤◌}
use mathlib.Core.List.{[], ◌∷◌}
use native.Mathlib.Omega.{arith}
use min_corehdr.Prelude.Lists.{length}
use min_corehdr.Prelude.Strings.{Text}

unfoldable pub take_bytes : ℕ → Text → Text
take_bytes zero text = []
take_bytes (suc n) [] = []
take_bytes (suc n) (c ∷ cs) = c ∷ take_bytes n cs

-- What a buffer of `size` bytes holds of a text, before the final zero.
unfoldable pub truncated : ℕ → Text → Text
truncated size text = take_bytes (size - 1) text

length-take_bytes : (n : ℕ) (text : Text) → length (take_bytes n text) ≤ n
unfolding take_bytes
length-take_bytes zero text = omega arith
length-take_bytes (suc n) [] = omega arith
length-take_bytes (suc n) (c ∷ cs) = omega (arith, length-take_bytes n cs)

pub length-truncated : (size : ℕ) (text : Text) → 0 < size → length (truncated size text) < size
unfolding truncated
length-truncated size text h = omega (arith, length-take_bytes (size - 1) text)
