-- ===== src/Emitter/Loops.antt =====
-- The loops over the groups write every record and every typedef of their group.
use min_corehdr.Prelude.{
  ℕ, ◌≡◌, ◌≢◌, inl, inr, true, false, Option, List, [], ◌∷◌, Memᴰ, arith, get_or, Memᴰ-cons,
  not-Memᴰ-nil, codes, is_empty,
}
use min_corehdr.Errors.{ok, >>=-eq-ok}
use min_corehdr.Btf.{Btf, BtfType, type_name}
use min_corehdr.Requirements.{Requirements}
use min_corehdr.Emitter.{EmitGroups, emit_each, emit_groups}
use min_corehdr.Emitter.Names.{type_at}
use min_corehdr.Emitter.Order.{
  Emission, Action, write, is_named_record, is_typedef_kind, emit_forward_decl,
  emit_enum_definition, emit_typedef_definition, emit_record_definition,
}
use min_corehdr.Emitter.Grows.{
  Settles, Room, Grows, Grows-refl, Grows-trans, Keeps, Keeps-ok, Keeps-bind, write-Grows,
}
use min_corehdr.Emitter.Parts.{emit_forward_decl-Keeps, emit_enum_definition-Keeps}
use min_corehdr.Emitter.Definitions.{
  emit_typedef_definition-Keeps, emit_record_definition-Keeps, emit_record_definition-done,
  emit_typedef_definition-done,
}

module _ (b : Btf) (requirements : Option Requirements) where
  abbrev pub K : Action → Type 0
  K act = Keeps b requirements act

  abbrev pub G : Emission → Emission → Type 0
  G s t = Grows b requirements s t

  emit_each-Keeps :
      (act : ℕ → Action) → ((id : ℕ) → K (act id)) → (ids : List ℕ) → K (emit_each b act ids)
  unfolding emit_each
  emit_each-Keeps act k [] = Keeps-ok b requirements
  emit_each-Keeps act k (id ∷ ids) =
      Keeps-bind b requirements (act id) (emit_each b act ids) (k id) (emit_each-Keeps act k ids)

  -- In a loop over a group, each id has its turn, between two parts of the loop that let it grow.
  emit_each-mem :
      (act : ℕ → Action)
      → ((id : ℕ) → K (act id))
      → (ids : List ℕ) (id : ℕ) (s t : Emission) → Room b s
      → Memᴰ id ids
      → emit_each b act ids s ≡ ok t
      → (u w : Emission) × G s u × (act id u ≡ ok w) × G w t
  unfolding emit_each
  emit_each-mem act k [] id s t r m e = absurd (not-Memᴰ-nil id m)
  emit_each-mem act k (x ∷ ids) id s t r m e =
      let (v, run, last) = >>=-eq-ok (act x s) (emit_each b act ids) e in
      let first = k x s v r run in
      elim ((Memᴰ-cons id x ids).0 m) [
        | inl here ↦ (
          s,
          v,
          Grows-refl b requirements s r,
          rw here run,
          emit_each-Keeps act k ids v t first.room last,
        )
        | inr there ↦
            let (u, w, before, at, after) = emit_each-mem act k ids id v t first.room there last in
            (u, w, Grows-trans b requirements first before, at, after)
      ]

  -- No definition is open.
  abbrev pub Closed : List ℕ → Type 0
  Closed states = (id : ℕ) → get_or states id 0 ≢ 1

  Settles-Closed :
      (old new : List ℕ)
      → ((id : ℕ) → Settles (get_or old id 0) (get_or new id 0))
      → Closed old
      → Closed new
  Settles-Closed old new settled closed id = ground (arith, settled id, closed id)

  Settles-written : (old new : ℕ) → Settles old new → old ≡ 2 → new ≡ 2
  Settles-written old new h e = ground arith

  module _ (fuel : ℕ) (groups : EmitGroups) (s t : Emission) (r : Room b s)
      (run : emit_groups b requirements fuel groups s ≡ ok t) where
    groups-parts :
        (s1 s2 s3 : Emission) × (emit_each b (emit_forward_decl b) groups.fwds s ≡ ok s1)
        × (emit_each b (emit_enum_definition b) groups.enums (write (codes "\n") s1) ≡ ok s2)
        × (emit_each b (emit_typedef_definition b requirements fuel) groups.typedefs s2 ≡ ok s3)
        × (emit_each b (emit_record_definition b requirements fuel) groups.records s3 ≡ ok t)
    unfolding emit_groups
    groups-parts =
        let (s3, e3, last) =
          >>=-eq-ok _ (emit_each b (emit_record_definition b requirements fuel) groups.records)
            run in
        let (s2, e2, third) =
          >>=-eq-ok _ (emit_each b (emit_typedef_definition b requirements fuel) groups.typedefs)
            e3 in
        let (s1, e1, second) = >>=-eq-ok (emit_each b (emit_forward_decl b) groups.fwds s) _ e2 in
        (s1, s2, s3, e1, second, third, last)

    forward-Grows :
        (s1 : Emission) → emit_each b (emit_forward_decl b) groups.fwds s ≡ ok s1 → G s s1
    forward-Grows s1 e =
        emit_each-Keeps (emit_forward_decl b) (emit_forward_decl-Keeps b requirements) groups.fwds s
          s1 r e

    enum-Grows :
        (s1 s2 : Emission)
        → Room b s1
        → emit_each b (emit_enum_definition b) groups.enums (write (codes "\n") s1) ≡ ok s2
        → G s1 s2
    enum-Grows s1 s2 r1 e =
        let line = write-Grows b requirements (codes "\n") s1 r1 in
        Grows-trans b requirements line (
          emit_each-Keeps (emit_enum_definition b) (emit_enum_definition-Keeps b requirements)
            groups.enums (write (codes "\n") s1) s2 line.room e)

    pub groups-Grows : G s t
    groups-Grows =
        let (s1, s2, s3, e1, e2, e3, e4) = groups-parts in
        let g1 = forward-Grows s1 e1 in
        let g2 = enum-Grows s1 s2 g1.room e2 in
        let g3 =
          emit_each-Keeps (emit_typedef_definition b requirements fuel)
            (emit_typedef_definition-Keeps b requirements fuel) groups.typedefs s2 s3 g2.room e3 in
        let g4 =
          emit_each-Keeps (emit_record_definition b requirements fuel)
            (emit_record_definition-Keeps b requirements fuel) groups.records s3 t g3.room e4 in
        Grows-trans b requirements
          (Grows-trans b requirements (Grows-trans b requirements g1 g2) g3) g4

    -- A record of the group is written in the end.
    pub groups_record :
        (id : ℕ) (ty : BtfType)
        → Closed s.record_state
        → Memᴰ id groups.records
        → type_at b id ≡ ok ty
        → is_named_record b ty ≡ true
        → get_or t.record_state id 0 ≡ 2
    groups_record id ty closed m at named =
        let (s1, s2, s3, e1, e2, e3, e4) = groups-parts in
        let g1 = forward-Grows s1 e1 in
        let g2 = enum-Grows s1 s2 g1.room e2 in
        let g3 =
          emit_each-Keeps (emit_typedef_definition b requirements fuel)
            (emit_typedef_definition-Keeps b requirements fuel) groups.typedefs s2 s3 g2.room e3 in
        let (u, w, before, run, after) =
          emit_each-mem (emit_record_definition b requirements fuel)
            (emit_record_definition-Keeps b requirements fuel) groups.records id s3 t g3.room m
            e4 in
        let to_u =
          Grows-trans b requirements
            (Grows-trans b requirements (Grows-trans b requirements g1 g2) g3) before in
        let free = Settles-Closed s.record_state u.record_state to_u.records closed id in
        let done =
          emit_record_definition-done b requirements fuel id u w ty to_u.room run at named free in
        Settles-written _ _ (after.records id) done

    pub groups_typedef :
        (id : ℕ) (ty : BtfType)
        → Memᴰ id groups.typedefs
        → type_at b id ≡ ok ty
        → is_typedef_kind ty.kind ≡ true
        → is_empty (type_name b ty) ≡ false
        → get_or t.typedef_state id 0 ≡ 2
    groups_typedef id ty m at kind named =
        let (s1, s2, s3, e1, e2, e3, e4) = groups-parts in
        let g1 = forward-Grows s1 e1 in
        let g2 = enum-Grows s1 s2 g1.room e2 in
        let (u, w, before, run, after) =
          emit_each-mem (emit_typedef_definition b requirements fuel)
            (emit_typedef_definition-Keeps b requirements fuel) groups.typedefs id s2 s3 g2.room m
            e3 in
        let done =
          emit_typedef_definition-done b requirements fuel id u w ty before.room run at kind
            named in
        let g4 =
          emit_each-Keeps (emit_record_definition b requirements fuel)
            (emit_record_definition-Keeps b requirements fuel) groups.records s3 t after.room e4 in
        Settles-written _ _ (g4.typedefs id) (Settles-written _ _ (after.typedefs id) done)
