-- ===== src/Emitter/Names.antt =====
-- The C names of integer and floating types, and the qualifiers in front of a type
-- (src/emitter.c).
use min_corehdr.Prelude.{
  ℕ, zero, suc, ◌-◌, ◌/◌, ◌%◌, ◌^◌, Bool, not, ◌&&◌, none, some, ◌∷◌, ◌++◌, leb, ◌==◌,
  if◌then◌else◌, length, Text, codes, is_empty,
}
use Prim.Native.Nat.{bit_and, bit_or}
use min_corehdr.Errors.{Failure, Result, ok, failed, ◌>>=◌}
use min_corehdr.Btf.{Kind, Btf, BtfType}

-- A test of one bit, as `(value & mask) != 0` with a mask of one bit.
abbrev pub has_mask : ℕ → ℕ → Bool
has_mask value mask = not (bit_and value mask == 0)

-- BTF_INT_ENCODING and BTF_INT_BITS
abbrev encoding : ℕ → ℕ
encoding info = info / 2 ^ 24 % 16

abbrev bits_of : ℕ → ℕ
bits_of info = info % 2 ^ 8

signed_or_not : Bool → Text → Text → Text
signed_or_not c signed unsigned = if c then signed else unsigned

-- BTF_INT_SIGNED is bit 0 of the encoding, BTF_INT_CHAR bit 1 and BTF_INT_BOOL bit 2.
unfoldable pub int_type_name : BtfType → Text
unfolding signed_or_not
int_type_name t =
    let is_signed = has_mask (encoding t.int_info) 1 in
    let bits = bits_of t.int_info in
    if has_mask (encoding t.int_info) 4
    then codes "_Bool"
    else if has_mask (encoding t.int_info) 2 && bits == 8
    then signed_or_not is_signed (codes "signed char") (codes "unsigned char")
    else if bits == 8
    then signed_or_not is_signed (codes "signed char") (codes "unsigned char")
    else if bits == 16
    then signed_or_not is_signed (codes "short") (codes "unsigned short")
    else if bits == 32
    then signed_or_not is_signed (codes "int") (codes "unsigned int")
    else if bits == 64
    then signed_or_not is_signed (codes "long long") (codes "unsigned long long")
    else signed_or_not is_signed (codes "int") (codes "unsigned int")

unfoldable pub float_type_name : BtfType → Text
float_type_name t =
    if t.ref == 4
    then codes "float"
    else if t.ref == 8
    then codes "double"
    else if t.ref == 16
    then codes "long double"
    else codes "double"

unfoldable pub type_qualifier_bit : Kind → ℕ
type_qualifier_bit Kind.const_k = 1
type_qualifier_bit Kind.volatile_k = 2
type_qualifier_bit Kind.restrict_k = 4
type_qualifier_bit _ = 0

-- The buffer of `size` bytes with the qualifier behind it, and its final zero.
unfoldable pub append_type_qualifier : ℕ → Text → Text → Result Text
append_type_qualifier size buf qualifier =
    let added = if is_empty buf then qualifier else 32 ∷ qualifier in
    if leb (size - length buf) (length added)
    then failed Failure.qualifiers_too_long
    else ok (buf ++ added)

abbrev pub append_if : Bool → ℕ → Text → Text → Result Text
append_if c size qualifier buf = if c then append_type_qualifier size buf qualifier else ok buf

unfoldable pub append_qualifier_mask : ℕ → Text → ℕ → Result Text
unfolding append_type_qualifier
append_qualifier_mask size buf mask =
    append_if (has_mask mask 1) size (codes "const") buf
    >>= append_if (has_mask mask 2) size (codes "volatile")
    >>= append_if (has_mask mask 4) size (codes "restrict")

module _ (b : Btf) where
  -- `type_by_id`, which rejects an id at or above the count before it asks libbpf.
  unfoldable pub type_at : ℕ → Result BtfType
  type_at id =
      let found : Result BtfType = elim (b.type_by_id id) [
        | some t ↦ ok t
        | none ↦ failed Failure.emitter_missing_type
      ] in
      if leb b.type_cnt id then failed (Failure.emitter_invalid_type id) else found

  -- The loop of `leading_qualifier_mask`, with `left` rounds left.
  unfoldable pub leading_loop : ℕ → ℕ → ℕ → ℕ
  unfolding type_at
  leading_loop zero mask id = mask
  leading_loop (suc left) mask id = elim (type_at id) [
    | failed e ↦ mask
    | ok t ↦
        let bit = type_qualifier_bit t.kind in
        let rest = leading_loop left (bit_or mask bit) t.ref in if bit == 0 then mask else rest
  ]

  unfoldable pub leading_qualifier_mask : ℕ → ℕ
  leading_qualifier_mask id = leading_loop 32 0 id

  -- The unbounded loop of `emit_qualified_decl` over the qualifiers: the mask, and the type behind
  -- them with its id. A cycle of qualifiers uses up any fuel.
  unfoldable pub strip_qualifiers : ℕ → ℕ → ℕ → Result (ℕ × ℕ × BtfType)
  strip_qualifiers zero mask id = failed Failure.out_of_fuel
  strip_qualifiers (suc fuel) mask id = elim (type_at id) [
    | failed e ↦ failed e
    | ok t ↦
        let bit = type_qualifier_bit t.kind in
        let rest = strip_qualifiers fuel (bit_or mask bit) t.ref in
        if bit == 0 then ok (mask, id, t) else rest
  ]

  -- What an array's element repeats is left to the element.
  unfoldable pub own_mask : ℕ → BtfType → ℕ
  own_mask mask t = elim t.kind [
    | Kind.array ↦ bit_and mask (2 ^ 32 - 1 - leading_qualifier_mask t.array_info.type)
    | _ ↦ mask
  ]
