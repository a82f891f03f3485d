-- ===== src/Seeds/Kinds.antt =====
-- The kinds that src/seeds.c looks for, as predicates.
use min_corehdr.Prelude.{ℕ, ◌≡◌, refl, true}
use min_corehdr.Btf.{Kind}
use min_corehdr.Index.{is_indexed_kind, is_enum_kind}
use min_corehdr.Index.SameEnum.{of_enum-is_enum_kind, of_enum64-is_enum_kind}
use min_corehdr.Seeds.{is_seedable_kind, is_enum}

-- The kinds of the types that are looked for by name.
pub data IsSeedable : Kind → Type 0 where
  of_struct : IsSeedable Kind.struct_k
  of_union : IsSeedable Kind.union_k
  of_enum : IsSeedable Kind.enum
  of_enum64 : IsSeedable Kind.enum64
  of_typedef : IsSeedable Kind.typedef
  of_fwd : IsSeedable Kind.fwd

pub data IsEnum : Kind → Type 0 where
  narrow_enum : IsEnum Kind.enum
  wide_enum : IsEnum Kind.enum64

pub is_seedable_kind-IsSeedable : (k : Kind) → is_seedable_kind k ≡ true → IsSeedable k
unfolding is_seedable_kind
is_seedable_kind-IsSeedable Kind.struct_k e = of_struct
is_seedable_kind-IsSeedable Kind.union_k e = of_union
is_seedable_kind-IsSeedable Kind.enum e = of_enum
is_seedable_kind-IsSeedable Kind.enum64 e = of_enum64
is_seedable_kind-IsSeedable Kind.typedef e = of_typedef
is_seedable_kind-IsSeedable Kind.fwd e = of_fwd
is_seedable_kind-IsSeedable k e = absurd (cc e)

pub is_indexed_kind-IsSeedable : (k : Kind) → is_indexed_kind k ≡ true → IsSeedable k
unfolding is_indexed_kind
is_indexed_kind-IsSeedable Kind.struct_k e = of_struct
is_indexed_kind-IsSeedable Kind.union_k e = of_union
is_indexed_kind-IsSeedable Kind.enum e = of_enum
is_indexed_kind-IsSeedable Kind.enum64 e = of_enum64
is_indexed_kind-IsSeedable Kind.typedef e = of_typedef
is_indexed_kind-IsSeedable Kind.fwd e = of_fwd
is_indexed_kind-IsSeedable k e = absurd (cc e)

pub IsSeedable-both :
    (k : Kind) → IsSeedable k → (is_seedable_kind k ≡ true) × (is_indexed_kind k ≡ true)
unfolding is_seedable_kind is_indexed_kind
IsSeedable-both _ of_struct = (refl, refl)
IsSeedable-both _ of_union = (refl, refl)
IsSeedable-both _ of_enum = (refl, refl)
IsSeedable-both _ of_enum64 = (refl, refl)
IsSeedable-both _ of_typedef = (refl, refl)
IsSeedable-both _ of_fwd = (refl, refl)

pub is_enum-IsEnum : (k : Kind) → is_enum k ≡ true → IsEnum k
unfolding is_enum
is_enum-IsEnum Kind.enum e = narrow_enum
is_enum-IsEnum Kind.enum64 e = wide_enum
is_enum-IsEnum k e = absurd (cc e)

pub IsEnum-is_enum : (k : Kind) → IsEnum k → is_enum k ≡ true
unfolding is_enum
IsEnum-is_enum _ narrow_enum = refl
IsEnum-is_enum _ wide_enum = refl

pub IsEnum-is_enum_kind : (number : Kind → ℕ) (k : Kind) → IsEnum k → is_enum_kind number k ≡ true
IsEnum-is_enum_kind number _ narrow_enum = of_enum-is_enum_kind number
IsEnum-is_enum_kind number _ wide_enum = of_enum64-is_enum_kind number
