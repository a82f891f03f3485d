-- ===== src/Seeds/Matches.antt =====
-- Which types of the base BTF an object type has a match in, and that the search through the index
-- finds the one match.
use min_corehdr.Prelude.{
  ℕ, ◌<◌, ◌≡◌, refl, ap, ◌∙◌, ◌↔◌, inl, inr, Bool, true, false, not, ◌&&◌, none, some, arith,
  Bool-cases, Option-cases, Text, is_empty, text_eq_iff,
}
use min_corehdr.Errors.{Failure, ok}
use min_corehdr.Btf.{Kind, Btf, BtfType, type_name}
use min_corehdr.Index
use min_corehdr.Index.{
  Index, Answer, absent, found, ambiguous, is_indexed_kind, lookup, lookup_anonymous_enum,
  is_enum_kind, matches_at,
}
use min_corehdr.Index.Insert.{key_eq}
use min_corehdr.Index.Build.{is_named, lookup-Verdict}
use min_corehdr.Index.SameEnum.{IsSameEnum, matches_at_iff}
use min_corehdr.Index.Enums.{lookup_anonymous_enum-Verdict}
use min_corehdr.Seeds.{is_seedable_kind, is_enum, base_match}
use min_corehdr.Seeds.Kinds.{
  IsSeedable, IsEnum, is_seedable_kind-IsSeedable, is_indexed_kind-IsSeedable, IsSeedable-both,
  is_enum-IsEnum, IsEnum-is_enum, IsEnum-is_enum_kind,
}
use min_corehdr.Seeds.Unique.{
  OnlyOne, NoneHas, found-OnlyOne, OnlyOne-found, absent-NoneHas, NoneHas-absent,
}

module _ (number : Kind → ℕ) (base object : Btf) where
  -- The base type `j` matches the object type `t`: they have one name and one kind, of those that are
  -- looked for by name; or they are the same enum without a name.
  pub data Matches (t : BtfType) (j : ℕ) : Type 0 where
    by_name :
        (u : BtfType)
        → IsSeedable t.kind
        → is_empty (type_name object t) ≡ false
        → base.type_by_id j ≡ some u
        → IsSeedable u.kind
        → number u.kind ≡ number t.kind
        → type_name base u ≡ type_name object t
        → Matches t j
    by_values :
        (u : BtfType)
        → IsEnum t.kind
        → is_empty (type_name object t) ≡ true
        → base.type_by_id j ≡ some u
        → IsSameEnum number base object u t
        → Matches t j

  named_iff :
      (t : BtfType)
      → IsSeedable t.kind
      → is_empty (type_name object t) ≡ false
      → (j : ℕ) → (is_named number base (type_name object t) t.kind j ≡ true) ↔ Matches t j
  unfolding is_named key_eq
  named_iff t kind full j = (
    λ e. elim (Option-cases (base.type_by_id j)) [
      | inl gone ↦ absurd (ground (arith, gone, e))
      | inr (u, at) ↦
          by_name u kind full at (is_indexed_kind-IsSeedable u.kind (ground (arith, at, e)))
            (ground (arith, at, e))
            ((text_eq_iff (type_name base u) (type_name object t)).0 (ground (arith, at, e)))
    ],
    λ m. elim m [
      | by_name u k f at indexed_kind number_eq name_eq ↦
          let there : is_empty (type_name base u) ≡ false =
            ap (λ (x : Text). is_empty x) name_eq ∙ full in
          ground (
            arith,
            at,
            (IsSeedable-both u.kind indexed_kind).1,
            number_eq,
            there,
            (text_eq_iff (type_name base u) (type_name object t)).1 name_eq,
          )
      | by_values u k empty at same ↦ absurd (cc (full, empty))
    ],
  )

  unnamed_iff :
      (t : BtfType)
      → IsEnum t.kind
      → is_empty (type_name object t) ≡ true
      → (j : ℕ) → (matches_at number base object t j ≡ true) ↔ Matches t j
  unnamed_iff t kind empty j = (
    λ e.
        let (u, at, same) = (matches_at_iff number base object t j).0 e in
        by_values u kind empty at same,
    λ m. elim m [
      | by_name u k full at indexed_kind number_eq name_eq ↦ absurd (cc (full, empty))
      | by_values u k f at same ↦ (matches_at_iff number base object t j).1 (u, at, same)
    ],
  )

  IsEnum-asked :
      (t : BtfType)
      → IsEnum t.kind
      → is_empty (type_name object t) ≡ true
      → (is_enum_kind number t.kind && is_empty (type_name object t)) ≡ true
  IsEnum-asked t kind empty = ground (arith, IsEnum-is_enum_kind number t.kind kind, empty)

  not-Matches :
      (t : BtfType) (j : ℕ)
      → (is_seedable_kind t.kind && not (is_empty (type_name object t))) ≡ false
      → (is_enum t.kind && is_empty (type_name object t)) ≡ false
      → ¬ Matches t j
  not-Matches t j p q (by_name u kind full at k n e) =
      ground (arith, p, (IsSeedable-both t.kind kind).0, full)
  not-Matches t j p q (by_values u kind empty at same) =
      ground (arith, q, IsEnum-is_enum t.kind kind, empty)

  module _ (alloc : ℕ → Bool) (index : Index) (pos : 0 < base.type_cnt)
      (built : Index.init number alloc base ≡ ok index) where
    -- The code's search for the base type of one object type.
    pub base_match-Matches :
        (t : BtfType)
        → ((id : ℕ)
            → (base_match number index object t ≡ ok (some id))
              ↔ OnlyOne (Matches t) base.type_cnt id)
          × ((base_match number index object t ≡ ok none) ↔ NoneHas (Matches t) base.type_cnt)
    unfolding base_match
    base_match-Matches t =
        elim (Bool-cases (is_seedable_kind t.kind && not (is_empty (type_name object t)))) [
          | inl named ↦
              let kind = is_seedable_kind-IsSeedable t.kind (ground (arith, named)) in
              let full : is_empty (type_name object t) ≡ false = ground (arith, named) in
              let fail = Failure.ambiguous_type (type_name object t) in
              let a = lookup number index (type_name object t) t.kind in
              let v =
                lookup-Verdict number base alloc index (type_name object t) t.kind pos built in
              let means = named_iff t kind full in
              let has = is_named number base (type_name object t) t.kind in
              rw named (
                λ id. (
                  found-OnlyOne (Matches t) has base.type_cnt means fail a id v,
                  OnlyOne-found (Matches t) has base.type_cnt means fail a id v,
                ),
                (
                  absent-NoneHas (Matches t) has base.type_cnt means fail a v,
                  NoneHas-absent (Matches t) has base.type_cnt means fail a v,
                ),
              )
          | inr other ↦ elim (Bool-cases (is_enum t.kind && is_empty (type_name object t))) [
            | inl unnamed ↦
                let kind = is_enum-IsEnum t.kind (ground (arith, unnamed)) in
                let empty : is_empty (type_name object t) ≡ true = ground (arith, unnamed) in
                let fail = Failure.ambiguous_anonymous_enum in
                let a = lookup_anonymous_enum number index object t in
                let asked = IsEnum-asked t kind empty in
                let v =
                  lookup_anonymous_enum-Verdict number base alloc index object t pos built asked in
                let means = unnamed_iff t kind empty in
                let has = matches_at number base object t in
                rw (other, unnamed)
                  (
                    λ id. (
                      found-OnlyOne (Matches t) has base.type_cnt means fail a id v,
                      OnlyOne-found (Matches t) has base.type_cnt means fail a id v,
                    ),
                    (
                      absent-NoneHas (Matches t) has base.type_cnt means fail a v,
                      NoneHas-absent (Matches t) has base.type_cnt means fail a v,
                    ),
                  )
            | inr neither ↦
                rw (other, neither)
                  (
                    λ id. (λ e. cc e, λ o. absurd (not-Matches t id other neither o.has)),
                    (λ e j p q. not-Matches t j other neither, λ o. refl),
                  )
          ]
        ]
