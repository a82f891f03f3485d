-- ===== src/Emitter/Parts.antt =====
-- The steps that define no record and no typedef let the emission grow.
use min_corehdr.Prelude.{
  ℕ, ◌+◌, ◌<◌, ◌≡◌, refl, inl, inr, Bool, true, false, not, ◌||◌, Option, List, [], ◌∷◌, ◌++◌,
  arith, ◌==◌, if◌then◌else◌, Bool-cases, get_or, set, length-set, get_or-set, Text, codes,
  is_empty,
}
use min_corehdr.Errors.{ok, ◌>>=◌, >>=-eq-ok}
use min_corehdr.Btf.{Btf, BtfType, Member, Param, type_name}
use min_corehdr.Requirements.{Requirements}
use min_corehdr.Emitter.Names.{type_at}
use min_corehdr.Emitter.Decl.{is_pruned, record_keyword}
use min_corehdr.Emitter.Order.{
  Emission, Action, write, set_record, set_typedef, is_aggregate_kind, emit_forward_decl,
  each_param, each_member, emit_enum_definition, enum_text,
}
use min_corehdr.Emitter.Grows.{Room, Grows, Grows-refl, Keeps, Keeps-ok, Keeps-bind, write-Grows}
use min_corehdr.Emitter.Written.{type_at-lt}

module _ (b : Btf) (requirements : Option Requirements) where
  abbrev pub K : Action → Type 0
  K act = Keeps b requirements act

  pub Keeps-typed :
      (id : ℕ) (f : BtfType → Action)
      → ((t : BtfType) → type_at b id ≡ ok t → K (f t))
      → K (λ s. type_at b id >>= (λ t. f t s))
  Keeps-typed id f k s u r e =
      let (t, at, run) = >>=-eq-ok (type_at b id) (λ t. f t s) e in k t at s u r run

  pub Keeps-if : (c : Bool) (f g : Action) → K f → K g → K (λ s. if c then f s else g s)
  Keeps-if true f g kf kg = kf
  Keeps-if false f g kf kg = kg

  set-fwd :
      (st : Emission) (id : ℕ) (text : Text)
      → id < b.type_cnt
      → Room b st
      → Grows b requirements st
          (record st { out = st.out ++ text; fwd_state = set st.fwd_state id 1 })
  set-fwd st id text low r = record {
    added = text;
    out = refl;
    room = record {
      records = r.records;
      fwds = omega (arith, length-set st.fwd_state id 1, r.fwds);
      typedefs = r.typedefs;
    };
    records = λ j. inl refl;
    typedefs = λ j. inl refl;
    fwds = λ j h.
        let at = get_or-set st.fwd_state id j 1 0 (omega (arith, r.fwds, low)) in
        ground (arith, at);
    record_texts = λ j h k. absurd (h k);
    typedef_texts = λ j h k. absurd (h k);
  }

  pub emit_forward_decl-Keeps : (id : ℕ) → K (emit_forward_decl b id)
  unfolding emit_forward_decl
  emit_forward_decl-Keeps id s u r e =
      let (t, at, run) = >>=-eq-ok (type_at b id) _ e in
      let low = type_at-lt b id t at in
      let grown = set-fwd s id (record_keyword t ++ ((32 ∷ type_name b t) ++ codes ";\n")) low r in
      elim (Bool-cases (not (is_aggregate_kind t.kind))) [
        | inl other ↦
            let same : s ≡ u = ground (arith, run) in rw (← same) (Grows-refl b requirements s r)
        | inr aggregate ↦
            elim (Bool-cases (is_empty (type_name b t) || not (get_or s.fwd_state id 0 == 0))) [
              | inl known ↦
                  let same : s ≡ u = ground (arith, run) in
                  rw (← same) (Grows-refl b requirements s r)
              | inr new ↦
                  let same : record s {
                    out = s.out ++ (record_keyword t ++ ((32 ∷ type_name b t) ++ codes ";\n"));
                    fwd_state = set s.fwd_state id 1;
                  }
                      ≡ u =
                    ground (arith, run) in
                  rw (← same) grown
            ]
      ]

  pub emit_enum_definition-Keeps : (id : ℕ) → K (emit_enum_definition b id)
  unfolding emit_enum_definition
  emit_enum_definition-Keeps id s u r e =
      let (t, at, run) = >>=-eq-ok (type_at b id) _ e in
      let same : write (enum_text b t) s ≡ u = cc run in
      rw (← same) (write-Grows b requirements (enum_text b t) s r)

  pub each_param-Keeps :
      (act : ℕ → Action) → ((id : ℕ) → K (act id)) → (ps : List Param) → K (each_param act ps)
  unfolding each_param
  each_param-Keeps act k [] = Keeps-ok b requirements
  each_param-Keeps act k (p ∷ ps) =
      Keeps-bind b requirements (act p.type) (each_param act ps) (k p.type)
        (each_param-Keeps act k ps)

  pub each_member-Keeps :
      (act : ℕ → Action)
      → ((id : ℕ) → K (act id))
      → (id i : ℕ) (ms : List Member) → K (each_member b requirements act id i ms)
  unfolding each_member
  each_member-Keeps act k id i [] = Keeps-ok b requirements
  each_member-Keeps act k id i (m ∷ ms) =
      Keeps-bind b requirements
        (λ st. if is_pruned b requirements id i then ok st else act m.type st)
        (each_member b requirements act id (i + 1) ms)
        (Keeps-if (is_pruned b requirements id i) (λ st. ok st) (act m.type)
          (Keeps-ok b requirements) (k m.type))
        (each_member-Keeps act k id (i + 1) ms)

  pub begin_record : (id : ℕ) (s : Emission) → Room b s → Room b (set_record id 1 s)
  begin_record id s r = record {
    records = omega (arith, length-set s.record_state id 1, r.records);
    fwds = r.fwds;
    typedefs = r.typedefs;
  }

  pub begin_typedef : (id : ℕ) (s : Emission) → Room b s → Room b (set_typedef id 1 s)
  begin_typedef id s r = record {
    records = r.records;
    fwds = r.fwds;
    typedefs = omega (arith, length-set s.typedef_state id 1, r.typedefs);
  }

  pub Keeps_choice : (c : Bool) (f g : Action) → K f → K g → K (if c then f else g)
  Keeps_choice true f g kf kg = kf
  Keeps_choice false f g kf kg = kg
