-- ===== src/Index/SameEnum.antt =====
-- When two enums without a name are the same, and that `anonymous_enum_matches` decides it.
use min_corehdr.Prelude.{
  ℕ, ◌≡◌, ◌≢◌, refl, sym, ap, ◌↔◌, inl, inr, Bool, true, Option, none, some, List, [], ◌∷◌, arith,
  Option-cases, Text, is_empty, text_eq_iff,
}
use min_corehdr.Btf.{Kind, Btf, BtfType, EnumValue, Enum64Value, type_name}
use min_corehdr.Index.{
  names_match, values_match, values64_match, bool_eq, enumerators_match, anonymous_enum_matches,
  is_enum_kind, matches_at,
}

-- A text that both have.
abbrev pub Shared : Option Text → Option Text → Type 0
Shared l r = (n : Text) × (l ≡ some n) × (r ≡ some n)

module _ (lb rb : Btf) where
  -- As many values, with the same names and numbers in the same order.
  pub data SameValues : List EnumValue → List EnumValue → Type 0 where
    no_values : SameValues [] []
    value :
        (l r : EnumValue) (ls rs : List EnumValue)
        → Shared (lb.name_by_offset l.name_off) (rb.name_by_offset r.name_off)
        → l.val ≡ r.val
        → SameValues ls rs
        → SameValues (l ∷ ls) (r ∷ rs)

  pub data SameValues64 : List Enum64Value → List Enum64Value → Type 0 where
    no_values64 : SameValues64 [] []
    value64 :
        (l r : Enum64Value) (ls rs : List Enum64Value)
        → Shared (lb.name_by_offset l.name_off) (rb.name_by_offset r.name_off)
        → l.val_lo32 ≡ r.val_lo32
        → l.val_hi32 ≡ r.val_hi32
        → SameValues64 ls rs
        → SameValues64 (l ∷ ls) (r ∷ rs)

  pub data SameEnumerators (t u : BtfType) : Kind → Type 0 where
    narrow : SameValues t.values u.values → SameEnumerators t u Kind.enum
    wide : (k : Kind) → k ≢ Kind.enum → SameValues64 t.values64 u.values64 → SameEnumerators t u k

module _ (number : Kind → ℕ) where
  names_match-Shared : (l r : Option Text) → names_match number l r ≡ true → Shared l r
  names_match-Shared (some l) (some r) e = (l, refl, ap some (sym ((text_eq_iff l r).0 e)))
  names_match-Shared (some l) none e = absurd (cc e)
  names_match-Shared none r e = absurd (cc e)

  Shared-names_match : (l r : Option Text) → Shared l r → names_match number l r ≡ true
  Shared-names_match (some l) (some r) (n, p, q) = (text_eq_iff l r).1 (cc (p, q))
  Shared-names_match (some l) none (n, p, q) = absurd (cc q)
  Shared-names_match none r (n, p, q) = absurd (cc p)

  module _ (lb rb : Btf) where
    values_match-SameValues :
        (ls rs : List EnumValue) → values_match number lb ls rb rs ≡ true → SameValues lb rb ls rs
    unfolding values_match
    values_match-SameValues [] [] e = no_values
    values_match-SameValues [] (r ∷ rs) e = absurd (cc e)
    values_match-SameValues (l ∷ ls) [] e = absurd (cc e)
    values_match-SameValues (l ∷ ls) (r ∷ rs) e =
        value l r ls rs
          (names_match-Shared (lb.name_by_offset l.name_off) (rb.name_by_offset r.name_off)
            (ground (arith, e)))
          (ground (arith, e)) (values_match-SameValues ls rs (ground (arith, e)))

    SameValues-values_match :
        (ls rs : List EnumValue) → SameValues lb rb ls rs → values_match number lb ls rb rs ≡ true
    unfolding values_match
    SameValues-values_match _ _ no_values = refl
    SameValues-values_match _ _ (value l r ls rs n v rest) = ground (
      arith,
      Shared-names_match (lb.name_by_offset l.name_off) (rb.name_by_offset r.name_off) n,
      v,
      SameValues-values_match ls rs rest,
    )

    values64_match-SameValues64 :
        (ls rs : List Enum64Value)
        → values64_match number lb ls rb rs ≡ true
        → SameValues64 lb rb ls rs
    unfolding values64_match
    values64_match-SameValues64 [] [] e = no_values64
    values64_match-SameValues64 [] (r ∷ rs) e = absurd (cc e)
    values64_match-SameValues64 (l ∷ ls) [] e = absurd (cc e)
    values64_match-SameValues64 (l ∷ ls) (r ∷ rs) e =
        value64 l r ls rs
          (names_match-Shared (lb.name_by_offset l.name_off) (rb.name_by_offset r.name_off)
            (ground (arith, e)))
          (ground (arith, e)) (ground (arith, e))
          (values64_match-SameValues64 ls rs (ground (arith, e)))

    SameValues64-values64_match :
        (ls rs : List Enum64Value)
        → SameValues64 lb rb ls rs
        → values64_match number lb ls rb rs ≡ true
    unfolding values64_match
    SameValues64-values64_match _ _ no_values64 = refl
    SameValues64-values64_match _ _ (value64 l r ls rs n lo hi rest) = ground (
      arith,
      Shared-names_match (lb.name_by_offset l.name_off) (rb.name_by_offset r.name_off) n,
      lo,
      hi,
      SameValues64-values64_match ls rs rest,
    )

    bool_eq-eq : (c d : Bool) → bool_eq number c d ≡ true → c ≡ d
    bool_eq-eq c d e = ground (arith, e)

    bool_eq_refl : (c d : Bool) → c ≡ d → bool_eq number c d ≡ true
    bool_eq_refl c d e = ground (arith, e)

  module _ (lb rb : Btf) where
    -- The type `t` of `lb` is an enum without a name that has the kind, the size, the sign and the
    -- enumerators of `u` of `rb`.
    pub record IsSameEnum (t u : BtfType) : Type 0 where
      pub kind : number t.kind ≡ number u.kind
      pub size : t.ref ≡ u.ref
      pub sign : t.kflag ≡ u.kflag
      pub unnamed : is_empty (type_name lb t) ≡ true
      pub enumerators : SameEnumerators lb rb t u t.kind

    enumerators_match-Same :
        (k : Kind) (t u : BtfType)
        → enumerators_match number k lb t rb u ≡ true
        → SameEnumerators lb rb t u k
    unfolding enumerators_match
    enumerators_match-Same Kind.enum t u e = narrow (values_match-SameValues lb rb _ _ e)
    enumerators_match-Same k t u e =
        wide _ (λ same. cc same) (values64_match-SameValues64 lb rb _ _ e)

    Same-enumerators_match :
        (k : Kind) (t u : BtfType)
        → SameEnumerators lb rb t u k
        → enumerators_match number k lb t rb u ≡ true
    unfolding enumerators_match
    Same-enumerators_match _ t u (narrow same) = SameValues-values_match lb rb _ _ same
    Same-enumerators_match Kind.enum t u (wide _ other same) = absurd (other refl)
    Same-enumerators_match k t u (wide _ other same) = SameValues64-values64_match lb rb _ _ same

    anonymous_enum_matches-IsSameEnum :
        (t u : BtfType) → anonymous_enum_matches number lb t rb u ≡ true → IsSameEnum t u
    unfolding anonymous_enum_matches
    anonymous_enum_matches-IsSameEnum t u e = record {
      kind = ground (arith, e);
      size = ground (arith, e);
      sign = bool_eq-eq lb rb t.kflag u.kflag (ground (arith, e));
      unnamed = ground (arith, e);
      enumerators = enumerators_match-Same t.kind t u (ground (arith, e));
    }

    IsSameEnum-anonymous_enum_matches :
        (t u : BtfType) → IsSameEnum t u → anonymous_enum_matches number lb t rb u ≡ true
    unfolding anonymous_enum_matches
    IsSameEnum-anonymous_enum_matches t u s = ground (
      arith,
      s.kind,
      s.size,
      bool_eq_refl lb rb t.kflag u.kflag s.sign,
      s.unnamed,
      Same-enumerators_match t.kind t u s.enumerators,
    )

    -- The base has under the id `j` an enum like `u`.
    pub matches_at_iff :
        (u : BtfType) (j : ℕ)
        → (matches_at number lb rb u j ≡ true)
          ↔ ((t : BtfType) × (lb.type_by_id j ≡ some t) × IsSameEnum t u)
    unfolding matches_at
    matches_at_iff u j = (
      λ e. elim (Option-cases (lb.type_by_id j)) [
        | inl gone ↦ absurd (ground (arith, gone, e))
        | inr (t, at) ↦ (t, at, anonymous_enum_matches-IsSameEnum t u (ground (arith, at, e)))
      ],
      λ (t, at, same). ground (arith, at, IsSameEnum-anonymous_enum_matches t u same),
    )

  pub of_enum-is_enum_kind : is_enum_kind number Kind.enum ≡ true
  unfolding is_enum_kind
  of_enum-is_enum_kind = refl

  pub of_enum64-is_enum_kind : is_enum_kind number Kind.enum64 ≡ true
  unfolding is_enum_kind
  of_enum64-is_enum_kind = refl
