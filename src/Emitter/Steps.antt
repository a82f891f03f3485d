-- ===== src/Emitter/Steps.antt =====
-- A step over a type lets the emission grow if the calls in it do.
use min_corehdr.Prelude.{
  ℕ, ◌≡◌, ◌≢◌, inl, inr, true, false, not, ◌&&◌, Option, arith, ◌==◌, if◌then◌else◌, Bool-cases,
  get_or, get_or-set, is_empty,
}
use min_corehdr.Errors.{ok, ◌>>=◌, >>=-eq-ok}
use min_corehdr.Btf.{Kind, Btf, BtfType, type_name}
use min_corehdr.Requirements.{Requirements}
use min_corehdr.Emitter.Names.{type_at}
use min_corehdr.Emitter.Order.{
  Emission, Action, write, set_record, set_typedef, record_text, typedef_text, is_named_record,
  is_typedef_kind, each_param, each_member, soft_of, soft_step, hard_record, hard_of, hard_step,
  record_step, typedef_step, typedef_target_needs_hard_deps,
}
use min_corehdr.Emitter.Grows.{Room, Grows, Grows-refl, Keeps, Keeps-ok, Keeps-bind}
use min_corehdr.Emitter.Written.{type_at-lt, record-Grows, typedef-Grows}
use min_corehdr.Emitter.Parts.{
  Keeps-typed, Keeps-if, Keeps_choice, each_param-Keeps, each_member-Keeps, begin_record,
  begin_typedef, emit_forward_decl-Keeps,
}

module _ (b : Btf) (requirements : Option Requirements) where
  abbrev pub K : Action → Type 0
  K act = Keeps b requirements act

  module _ (fuel : ℕ) (hard soft typedef_def record_def : ℕ → Action) (kh : (id : ℕ) → K (hard id))
      (ks : (id : ℕ) → K (soft id)) (kt : (id : ℕ) → K (typedef_def id))
      (kr : (id : ℕ) → K (record_def id)) where
    soft_of-Keeps :
        (kind : Kind) (id : ℕ) (t : BtfType)
        → K (soft_of b requirements fuel hard soft typedef_def record_def kind id t)
    unfolding soft_of
    soft_of-Keeps Kind.typedef id t = kt id
    soft_of-Keeps Kind.volatile_k id t = ks t.ref
    soft_of-Keeps Kind.const_k id t = ks t.ref
    soft_of-Keeps Kind.restrict_k id t = ks t.ref
    soft_of-Keeps Kind.type_tag id t = ks t.ref
    soft_of-Keeps Kind.decl_tag id t = ks t.ref
    soft_of-Keeps Kind.ptr id t = ks t.ref
    soft_of-Keeps Kind.array id t = ks t.array_info.type
    soft_of-Keeps Kind.func_proto id t =
        Keeps-bind b requirements (soft t.ref) (each_param soft t.params) (ks t.ref)
          (each_param-Keeps b requirements soft ks t.params)
    soft_of-Keeps Kind.struct_k id t = emit_forward_decl-Keeps b requirements id
    soft_of-Keeps Kind.union_k id t = emit_forward_decl-Keeps b requirements id
    soft_of-Keeps Kind.fwd id t = emit_forward_decl-Keeps b requirements id
    soft_of-Keeps Kind.unkn id t = Keeps-ok b requirements
    soft_of-Keeps Kind.int id t = Keeps-ok b requirements
    soft_of-Keeps Kind.enum id t = Keeps-ok b requirements
    soft_of-Keeps Kind.func id t = Keeps-ok b requirements
    soft_of-Keeps Kind.var id t = Keeps-ok b requirements
    soft_of-Keeps Kind.datasec id t = Keeps-ok b requirements
    soft_of-Keeps Kind.float id t = Keeps-ok b requirements
    soft_of-Keeps Kind.enum64 id t = Keeps-ok b requirements
    soft_of-Keeps (Kind.other n) id t = Keeps-ok b requirements

    hard_record-Keeps :
        (id : ℕ) (t : BtfType)
        → K (hard_record b requirements fuel hard soft typedef_def record_def id t)
    unfolding hard_record
    hard_record-Keeps id t =
        Keeps-if b requirements (is_named_record b t) (record_def id)
          (each_member b requirements hard id 0 t.members) (kr id)
          (each_member-Keeps b requirements hard kh id 0 t.members)

    hard_of-Keeps :
        (kind : Kind) (id : ℕ) (t : BtfType)
        → K (hard_of b requirements fuel hard soft typedef_def record_def kind id t)
    unfolding hard_of
    hard_of-Keeps Kind.ptr id t = ks id
    hard_of-Keeps Kind.func_proto id t = ks id
    hard_of-Keeps Kind.fwd id t = emit_forward_decl-Keeps b requirements id
    hard_of-Keeps Kind.array id t = kh t.array_info.type
    hard_of-Keeps Kind.typedef id t =
        Keeps-bind b requirements (hard t.ref) (typedef_def id) (kh t.ref) (kt id)
    hard_of-Keeps Kind.volatile_k id t = kh t.ref
    hard_of-Keeps Kind.const_k id t = kh t.ref
    hard_of-Keeps Kind.restrict_k id t = kh t.ref
    hard_of-Keeps Kind.type_tag id t = kh t.ref
    hard_of-Keeps Kind.decl_tag id t = kh t.ref
    hard_of-Keeps Kind.struct_k id t = hard_record-Keeps id t
    hard_of-Keeps Kind.union_k id t = hard_record-Keeps id t
    hard_of-Keeps Kind.unkn id t = Keeps-ok b requirements
    hard_of-Keeps Kind.int id t = Keeps-ok b requirements
    hard_of-Keeps Kind.enum id t = Keeps-ok b requirements
    hard_of-Keeps Kind.func id t = Keeps-ok b requirements
    hard_of-Keeps Kind.var id t = Keeps-ok b requirements
    hard_of-Keeps Kind.datasec id t = Keeps-ok b requirements
    hard_of-Keeps Kind.float id t = Keeps-ok b requirements
    hard_of-Keeps Kind.enum64 id t = Keeps-ok b requirements
    hard_of-Keeps (Kind.other n) id t = Keeps-ok b requirements

    pub soft_step-Keeps :
        (id : ℕ) → K (soft_step b requirements fuel hard soft typedef_def record_def id)
    unfolding soft_step
    soft_step-Keeps id =
        Keeps-if b requirements (id == 0) (λ s. ok s)
          (λ s.
            type_at b id
            >>= (λ t. soft_of b requirements fuel hard soft typedef_def record_def t.kind id t s))
          (Keeps-ok b requirements)
          (Keeps-typed b requirements id
            (λ t. soft_of b requirements fuel hard soft typedef_def record_def t.kind id t)
            (λ t at. soft_of-Keeps t.kind id t))

    pub hard_step-Keeps :
        (id : ℕ) → K (hard_step b requirements fuel hard soft typedef_def record_def id)
    unfolding hard_step
    hard_step-Keeps id =
        Keeps-typed b requirements id
          (λ t. hard_of b requirements fuel hard soft typedef_def record_def t.kind id t)
          (λ t at. hard_of-Keeps t.kind id t)

    -- The run of a record that is not begun yet.
    record_run :
        (id : ℕ) (t : BtfType) (s u : Emission)
        → Room b s
        → type_at b id ≡ ok t
        → get_or s.record_state id 0 ≢ 1
        → (each_member b requirements hard id 0 t.members (set_record id 1 s) >>= (λ v.
            record_text b requirements fuel id t >>= (λ text. ok (set_record id 2 (write text v)))))
          ≡ ok u
        → Grows b requirements s u × (get_or u.record_state id 0 ≡ 2)
    record_run id t s u r at fresh e =
        let (v, run, last) =
          >>=-eq-ok (each_member b requirements hard id 0 t.members (set_record id 1 s)) _ e in
        let (text, written, final) = >>=-eq-ok (record_text b requirements fuel id t) _ last in
        let same : set_record id 2 (write text v) ≡ u = cc final in
        let begun =
          each_member-Keeps b requirements hard kh id 0 t.members (set_record id 1 s) v
            (begin_record b requirements id s r) run in
        let low = type_at-lt b id t at in
        let state = get_or-set v.record_state id id 2 0 (omega (arith, low, begun.room.records)) in
        rw (← same) (
          record-Grows b requirements s v id fuel t text r at written fresh begun,
          ground (arith, state),
        )

    typedef_run :
        (id : ℕ) (t : BtfType) (s u : Emission)
        → Room b s
        → type_at b id ≡ ok t
        → get_or s.typedef_state id 0 ≢ 1
        → ((if typedef_target_needs_hard_deps b t.ref then hard t.ref else soft t.ref)
              (set_typedef id 1 s)
            >>= (λ v.
                typedef_text b requirements fuel t
                >>= (λ text. ok (set_typedef id 2 (write text v)))))
          ≡ ok u
        → Grows b requirements s u × (get_or u.typedef_state id 0 ≡ 2)
    typedef_run id t s u r at fresh e =
        let (v, run, last) =
          >>=-eq-ok
            ((if typedef_target_needs_hard_deps b t.ref then hard t.ref else soft t.ref)
              (set_typedef id 1 s))
            _ e in
        let (text, written, final) = >>=-eq-ok (typedef_text b requirements fuel t) _ last in
        let same : set_typedef id 2 (write text v) ≡ u = cc final in
        let begun =
          Keeps_choice b requirements (typedef_target_needs_hard_deps b t.ref) (hard t.ref)
            (soft t.ref) (kh t.ref) (ks t.ref) (set_typedef id 1 s) v
            (begin_typedef b requirements id s r) run in
        let low = type_at-lt b id t at in
        let state =
          get_or-set v.typedef_state id id 2 0 (omega (arith, low, begun.room.typedefs)) in
        rw (← same) (
          typedef-Grows b requirements s v id fuel t text r at written fresh begun,
          ground (arith, state),
        )

    -- A record that is named is written, unless it is begun already.
    pub record_step-done :
        (id : ℕ) (s u : Emission)
        → Room b s
        → record_step b requirements fuel hard soft typedef_def record_def id s ≡ ok u
        → Grows b requirements s u
          × ((t : BtfType)
              → type_at b id ≡ ok t
              → is_named_record b t ≡ true
              → get_or s.record_state id 0 ≢ 1
              → get_or u.record_state id 0 ≡ 2)
    unfolding record_step
    record_step-done id s u r e =
        let (t, at, run) = >>=-eq-ok (type_at b id) _ e in
        elim (Bool-cases (
          is_named_record b t
          && (not (get_or s.record_state id 0 == 2) && not (get_or s.record_state id 0 == 1)))) [
            | inl fresh ↦
                let body = record_run id t s u r at (ground arith) (ground (arith, run)) in
                (body.0, λ _ _ _ _. body.1)
            | inr skip ↦
                let same : s ≡ u = ground (arith, run) in
                rw (← same) (
                  Grows-refl b requirements s r,
                  λ w at' named free.
                      let one : t ≡ w = cc (at, at') in
                      let named' : is_named_record b t ≡ true = rw one named in ground arith,
                )
          ]

    pub typedef_step-done :
        (id : ℕ) (s u : Emission)
        → Room b s
        → typedef_step b requirements fuel hard soft typedef_def record_def id s ≡ ok u
        → Grows b requirements s u
          × ((t : BtfType)
              → type_at b id ≡ ok t
              → is_typedef_kind t.kind ≡ true
              → is_empty (type_name b t) ≡ false
              → get_or u.typedef_state id 0 ≡ 2)
    unfolding typedef_step
    typedef_step-done id s u r e =
        let (t, at, run) = >>=-eq-ok (type_at b id) _ e in
        elim (Bool-cases (
          is_typedef_kind t.kind
          && (not (get_or s.typedef_state id 0 == 2)
              && (not (get_or s.typedef_state id 0 == 1) && not (is_empty (type_name b t)))))) [
                | inl fresh ↦
                    let body = typedef_run id t s u r at (ground arith) (ground (arith, run)) in
                    (body.0, λ _ _ _ _. body.1)
                | inr skip ↦
                    let same : s ≡ u = ground (arith, run) in
                    rw (← same) (
                      Grows-refl b requirements s r,
                      λ w at' kind named.
                          let one : t ≡ w = cc (at, at') in
                          let kind' : is_typedef_kind t.kind ≡ true = rw one kind in
                          let named' : is_empty (type_name b t) ≡ false = rw one named in
                          ground (arith, run),
                    )
              ]
