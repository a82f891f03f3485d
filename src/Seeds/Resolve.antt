-- ===== src/Seeds/Resolve.antt =====
-- What the resolution of an object type finds, against the types of the base BTF.
use min_corehdr.Prelude.{
  refl, ℕ, zero, suc, ◌<◌, ◌≡◌, ◌∙◌, ◌↔◌, inl, inr, Bool, true, Option, none, some, arith,
  Option-cases, Text,
}
use min_corehdr.Errors.{Result-cases, Result-cases, ok}
use min_corehdr.Btf.{Kind, Btf, BtfType, type_name}
use min_corehdr.Index
use min_corehdr.Index.{Index}
use min_corehdr.Seeds.Unique.{OnlyOne, NoneHas}
use min_corehdr.Seeds.Matches.{Matches, base_match-Matches}
use min_corehdr.Seeds.{
  is_chain_kind, root_of, base_match, resolve_loop, resolve_object_type_to_base,
}

-- The kinds that the resolution looks through.
pub data IsLink : Kind → Type 0 where
  of_typedef : IsLink Kind.typedef
  of_volatile : IsLink Kind.volatile_k
  of_const : IsLink Kind.const_k
  of_restrict : IsLink Kind.restrict_k
  of_type_tag : IsLink Kind.type_tag

is_chain_kind-IsLink : (k : Kind) → is_chain_kind k ≡ true → IsLink k
unfolding is_chain_kind
is_chain_kind-IsLink Kind.typedef e = of_typedef
is_chain_kind-IsLink Kind.volatile_k e = of_volatile
is_chain_kind-IsLink Kind.const_k e = of_const
is_chain_kind-IsLink Kind.restrict_k e = of_restrict
is_chain_kind-IsLink Kind.type_tag e = of_type_tag
is_chain_kind-IsLink k e = absurd (cc e)

IsLink-is_chain_kind : (k : Kind) → IsLink k → is_chain_kind k ≡ true
unfolding is_chain_kind
IsLink-is_chain_kind _ of_typedef = refl
IsLink-is_chain_kind _ of_volatile = refl
IsLink-is_chain_kind _ of_const = refl
IsLink-is_chain_kind _ of_restrict = refl
IsLink-is_chain_kind _ of_type_tag = refl

module _ (number : Kind → ℕ) (base object : Btf) where
  -- From `id` through `n` typedefs and modifiers, none of which has a match in the base, to a type
  -- whose one match in the base is `hit`.
  pub data Resolves (hit : ℕ) : ℕ → ℕ → Type 0 where
    here :
        (id : ℕ) (t : BtfType)
        → 0 < id
        → id < object.type_cnt
        → object.type_by_id id ≡ some t
        → OnlyOne (Matches number base object t) base.type_cnt hit
        → Resolves hit 0 id
    along :
        (id n : ℕ) (t : BtfType)
        → 0 < id
        → id < object.type_cnt
        → object.type_by_id id ≡ some t
        → NoneHas (Matches number base object t) base.type_cnt
        → IsLink t.kind
        → Resolves hit n t.ref
        → Resolves hit (suc n) id

  module _ (alloc : ℕ → Bool) (index : Index) (pos : 0 < base.type_cnt)
      (built : Index.init number alloc base ≡ ok index) where
    the_match :
        (t : BtfType) (hit : ℕ)
        → (base_match number index object t ≡ ok (some hit))
          ↔ OnlyOne (Matches number base object t) base.type_cnt hit
    the_match t = (base_match-Matches number base object alloc index pos built t).0

    no_match :
        (t : BtfType)
        → (base_match number index object t ≡ ok none)
          ↔ NoneHas (Matches number base object t) base.type_cnt
    no_match t = (base_match-Matches number base object alloc index pos built t).1

    resolve_loop-Resolves :
        (left oid : ℕ) (local : Bool) (root : Option Text) (id base_id : ℕ)
        → resolve_loop number index object left oid local root id ≡ ok (some base_id)
        → (n : ℕ) × (n < left) × Resolves base_id n id
    unfolding resolve_loop
    resolve_loop-Resolves zero oid local root id base_id e = cc
    resolve_loop-Resolves (suc left) oid local root id base_id e =
        elim (Option-cases (object.type_by_id id)) [
          | inl out ↦ absurd (ground (arith, out))
          | inr (t, at) ↦ elim (Result-cases (base_match number index object t)) [
            | inr (failure, bad) ↦ absurd (ground (arith, at, bad))
            | inl (hit, good) ↦ elim (Option-cases hit) [
              | inr (found, same) ↦
                  let eq : found ≡ base_id = ground (arith, at, good, same) in
                  (
                    0,
                    omega arith,
                    here id t (ground (arith, e)) (ground (arith, e)) at
                        ((the_match t base_id).0 (good ∙ cc (same, eq))),
                  )
              | inl miss ↦
                  let chain : is_chain_kind t.kind ≡ true = ground (arith, at, good, miss) in
                  let (n, low, rest) =
                    resolve_loop-Resolves left oid local (root_of root (type_name object t)) t.ref
                      base_id (ground (arith, at, good, miss)) in
                  (
                    suc n,
                    omega (arith, low),
                    along id n t (ground (arith, e)) (ground (arith, e)) at
                        ((no_match t).0 (good ∙ cc miss)) (is_chain_kind-IsLink t.kind chain) rest,
                  )
            ]
          ]
        ]

    Resolves-resolve_loop :
        (left oid : ℕ) (local : Bool) (root : Option Text) (id base_id n : ℕ)
        → n < left
        → Resolves base_id n id
        → resolve_loop number index object left oid local root id ≡ ok (some base_id)
    unfolding resolve_loop
    Resolves-resolve_loop zero oid local root id base_id n low r = absurd (omega (arith, low))
    Resolves-resolve_loop (suc left) oid local root _ base_id _ low (here id t p q at hit) =
        ground (arith, at, (the_match t base_id).1 hit)
    Resolves-resolve_loop (suc left) oid local root _ base_id _ low
          (along id n t p q at miss chain rest) =
        ground (
          arith,
          at,
          (no_match t).1 miss,
          IsLink-is_chain_kind t.kind chain,
          Resolves-resolve_loop left oid local (root_of root (type_name object t)) t.ref base_id n
              (omega (arith, low)) rest,
        )

    -- On an index that `init` builds over a base BTF with at least the void type, an object type
    -- resolves to a base type exactly if fewer than 32 typedefs, modifiers and type tags, none of
    -- which has a match in the base, lead from it to a type whose one match is that base type. A
    -- match has the same name and the same kind number, of a record, an enum, a typedef or a forward
    -- declaration; or both are enums without a name, of one kind number, size and sign, with the same
    -- names and values of their enumerators.
    pub resolve-Resolves :
        (id base_id : ℕ) (local : Bool)
        → (resolve_object_type_to_base number index object id local ≡ ok (some base_id))
          ↔ ((n : ℕ) × (n < 32) × Resolves base_id n id)
    unfolding resolve_object_type_to_base
    resolve-Resolves id base_id local = (
      resolve_loop-Resolves 32 id local none id base_id,
      λ r. Resolves-resolve_loop 32 id local none id base_id r.0 r.1 r.2,
    )
