-- ===== src/Emitter/Order.antt =====
-- The order of the definitions (src/emitter.c): what a definition needs is written before it. A state
-- of 0 is not begun, 1 begun and 2 written; a forward declaration goes from 0 to 1.
use min_corehdr.Prelude.{
  ℕ, zero, suc, ◌+◌, ◌*◌, ◌^◌, Bool, true, false, not, ◌&&◌, ◌||◌, Option, none, some, List, [],
  ◌∷◌, ◌++◌, ◌==◌, if◌then◌else◌, get_or, set, is_null, Text, codes, is_empty,
}
use min_corehdr.Prelude.Decimal.{decimal, signed_decimal}
use min_corehdr.Errors.{Failure, Result, ok, failed, ◌>>=◌}
use min_corehdr.Btf.{
  Kind, Btf, BtfType, Member, Param, EnumValue, Enum64Value, type_name, is_record_kind,
}
use min_corehdr.Requirements.{Requirements}
use min_corehdr.Emitter.Names.{type_at}
use min_corehdr.Emitter.Decl.{record_keyword, is_pruned, emit_record_body, emit_decl_ex}

-- The fields of `struct emit_ctx` that change. `out` is what has been written.
pub record Emission : Type 0 where
  pub out : Text
  pub record_state : List ℕ
  pub fwd_state : List ℕ
  pub typedef_state : List ℕ

abbrev pub write : Text → Emission → Emission
write text st = record st { out = st.out ++ text }

abbrev pub set_record : ℕ → ℕ → Emission → Emission
set_record id v st = record st { record_state = set st.record_state id v }

abbrev pub set_typedef : ℕ → ℕ → Emission → Emission
set_typedef id v st = record st { typedef_state = set st.typedef_state id v }

abbrev pub Action : Type 0
Action = Emission → Result Emission

unfoldable pub is_aggregate_kind : Kind → Bool
is_aggregate_kind Kind.struct_k = true
is_aggregate_kind Kind.union_k = true
is_aggregate_kind Kind.fwd = true
is_aggregate_kind _ = false

unfoldable pub is_typedef_kind : Kind → Bool
is_typedef_kind Kind.typedef = true
is_typedef_kind _ = false

-- What the loop of `typedef_target_needs_hard_deps` makes of a type.
pub data Look : Type 0 where
  onward : Look
  answer : Bool → Look

unfoldable pub look_at : Kind → Text → Look
look_at Kind.const_k name = onward
look_at Kind.volatile_k name = onward
look_at Kind.restrict_k name = onward
look_at Kind.type_tag name = onward
look_at Kind.decl_tag name = onward
look_at Kind.array name = answer true
look_at Kind.struct_k name = answer (is_empty name)
look_at Kind.union_k name = answer (is_empty name)
look_at _ name = answer false

-- An enumerator, with a comma unless it is the last one.
unfoldable pub enumerator : Option Text → Text → Bool → Text
enumerator name value last =
    codes "  "
    ++ (elim name [ none ↦ codes "__anonymous" | some n ↦ n ]
        ++ (codes " = " ++ (value ++ (if last then codes "\n" else codes ",\n"))))

module _ (b : Btf) where
  unfoldable pub is_named_record : BtfType → Bool
  is_named_record t = is_record_kind t.kind && not (is_empty (type_name b t))

  unfoldable pub needs_loop : ℕ → ℕ → Bool
  needs_loop zero id = true
  needs_loop (suc left) id = elim (type_at b id) [
    | failed e ↦ false
    | ok t ↦
        let rest = needs_loop left t.ref in
        elim (look_at t.kind (type_name b t)) [ onward ↦ rest | answer needs ↦ needs ]
  ]

  unfoldable pub typedef_target_needs_hard_deps : ℕ → Bool
  typedef_target_needs_hard_deps id = needs_loop 32 id

  unfoldable pub emit_forward_decl : ℕ → Action
  emit_forward_decl id st = type_at b id >>= (λ t.
      if not (is_aggregate_kind t.kind)
      then ok st
      else if is_empty (type_name b t) || not (get_or st.fwd_state id 0 == 0)
      then ok st
      else ok (record st {
        out = st.out ++ (record_keyword t ++ ((32 ∷ type_name b t) ++ codes ";\n"));
        fwd_state = set st.fwd_state id 1;
      }))

  -- The loops over the enumerators.
  unfoldable pub enum_values : List EnumValue → Text
  enum_values [] = []
  enum_values (v ∷ vs) =
      enumerator (b.name_by_offset v.name_off) (signed_decimal 32 v.val) (is_null vs)
      ++ enum_values vs

  unfoldable pub value64 : BtfType → Enum64Value → Text
  value64 t v =
      let value = v.val_hi32 * 2 ^ 32 + v.val_lo32 in
      if t.kflag then signed_decimal 64 value else decimal value ++ codes "ULL"

  unfoldable pub enum64_values : BtfType → List Enum64Value → Text
  enum64_values t [] = []
  enum64_values t (v ∷ vs) =
      enumerator (b.name_by_offset v.name_off) (value64 t v) (is_null vs) ++ enum64_values t vs

  unfoldable pub enum_text : BtfType → Text
  enum_text t =
      (if is_empty (type_name b t)
        then codes "enum {\n"
        else codes "enum " ++ (type_name b t ++ codes " {\n"))
      ++ ((elim t.kind [ Kind.enum ↦ enum_values t.values | _ ↦ enum64_values t t.values64 ])
          ++ codes "};\n\n")

  unfoldable pub emit_enum_definition : ℕ → Action
  emit_enum_definition id st = type_at b id >>= (λ t. ok (write (enum_text t) st))

-- An action on each parameter's type.
unfoldable pub each_param : (ℕ → Action) → List Param → Action
each_param act [] st = ok st
each_param act (p ∷ ps) st = act p.type st >>= each_param act ps

module _ (b : Btf) (requirements : Option Requirements) where
  -- An action on each member's type that is not pruned.
  unfoldable pub each_member : (ℕ → Action) → ℕ → ℕ → List Member → Action
  each_member act id i [] st = ok st
  each_member act id i (m ∷ ms) st =
      (if is_pruned b requirements id i then ok st else act m.type st)
      >>= each_member act id (i + 1) ms

  -- The text of a record's definition, behind all that it needs.
  unfoldable pub record_text : ℕ → ℕ → BtfType → Result Text
  record_text fuel id t =
      emit_record_body b requirements (emit_decl_ex b requirements fuel) id t
      >>= (λ body. ok (record_keyword t ++ ((32 ∷ type_name b t) ++ (body ++ codes ";\n\n"))))

  unfoldable pub typedef_text : ℕ → BtfType → Result Text
  typedef_text fuel t =
      emit_decl_ex b requirements fuel t.ref (type_name b t)
      >>= (λ declared. ok (codes "typedef " ++ (declared ++ codes ";\n\n")))

  -- The functions below get the others with less fuel.
  module _ (fuel : ℕ) (hard soft typedef_def record_def : ℕ → Action) where
    unfoldable pub soft_of : Kind → ℕ → BtfType → Action
    soft_of Kind.typedef id t st = typedef_def id st
    soft_of Kind.volatile_k id t st = soft t.ref st
    soft_of Kind.const_k id t st = soft t.ref st
    soft_of Kind.restrict_k id t st = soft t.ref st
    soft_of Kind.type_tag id t st = soft t.ref st
    soft_of Kind.decl_tag id t st = soft t.ref st
    soft_of Kind.ptr id t st = soft t.ref st
    soft_of Kind.array id t st = soft t.array_info.type st
    soft_of Kind.func_proto id t st = soft t.ref st >>= each_param soft t.params
    soft_of Kind.struct_k id t st = emit_forward_decl b id st
    soft_of Kind.union_k id t st = emit_forward_decl b id st
    soft_of Kind.fwd id t st = emit_forward_decl b id st
    soft_of _ id t st = ok st

    unfoldable pub soft_step : ℕ → Action
    soft_step id st =
        let typed = type_at b id >>= (λ t. soft_of t.kind id t st) in
        if id == 0 then ok st else typed

    -- A record: one with a name is defined, and one without has its members seen to.
    unfoldable pub hard_record : ℕ → BtfType → Action
    hard_record id t st =
        if is_named_record b t then record_def id st else each_member hard id 0 t.members st

    unfoldable pub hard_of : Kind → ℕ → BtfType → Action
    hard_of Kind.ptr id t st = soft id st
    hard_of Kind.func_proto id t st = soft id st
    hard_of Kind.fwd id t st = emit_forward_decl b id st
    hard_of Kind.array id t st = hard t.array_info.type st
    hard_of Kind.typedef id t st = hard t.ref st >>= typedef_def id
    hard_of Kind.volatile_k id t st = hard t.ref st
    hard_of Kind.const_k id t st = hard t.ref st
    hard_of Kind.restrict_k id t st = hard t.ref st
    hard_of Kind.type_tag id t st = hard t.ref st
    hard_of Kind.decl_tag id t st = hard t.ref st
    hard_of Kind.struct_k id t st = hard_record id t st
    hard_of Kind.union_k id t st = hard_record id t st
    hard_of _ id t st = ok st

    unfoldable pub hard_step : ℕ → Action
    hard_step id st = type_at b id >>= (λ t. hard_of t.kind id t st)

    unfoldable pub record_step : ℕ → Action
    record_step id st = type_at b id >>= (λ t.
        if not (is_named_record b t)
        then ok st
        else if get_or st.record_state id 0 == 2
        then ok st
        else if get_or st.record_state id 0 == 1
        then ok st
        else (each_member hard id 0 t.members (set_record id 1 st)
            >>= (λ u. record_text fuel id t >>= (λ text. ok (set_record id 2 (write text u))))))

    unfoldable pub typedef_step : ℕ → Action
    typedef_step id st = type_at b id >>= (λ t.
        if not (is_typedef_kind t.kind)
        then ok st
        else if get_or st.typedef_state id 0 == 2
        then ok st
        else if get_or st.typedef_state id 0 == 1
        then failed (Failure.typedef_cycle id)
        else if is_empty (type_name b t)
        then ok st
        else ((if typedef_target_needs_hard_deps b t.ref then hard t.ref else soft t.ref)
              (set_typedef id 1 st)
            >>= (λ u. typedef_text fuel t >>= (λ text. ok (set_typedef id 2 (write text u))))))

  unfoldable mutual
    pub emit_hard_deps : ℕ → ℕ → Action
    emit_hard_deps zero id st = failed Failure.out_of_fuel
    emit_hard_deps (suc f) id st =
        hard_step f (emit_hard_deps f) (emit_soft_deps f) (emit_typedef_definition f)
          (emit_record_definition f) id st

    pub emit_soft_deps : ℕ → ℕ → Action
    emit_soft_deps zero id st = failed Failure.out_of_fuel
    emit_soft_deps (suc f) id st =
        soft_step f (emit_hard_deps f) (emit_soft_deps f) (emit_typedef_definition f)
          (emit_record_definition f) id st

    pub emit_typedef_definition : ℕ → ℕ → Action
    emit_typedef_definition zero id st = failed Failure.out_of_fuel
    emit_typedef_definition (suc f) id st =
        typedef_step f (emit_hard_deps f) (emit_soft_deps f) (emit_typedef_definition f)
          (emit_record_definition f) id st

    pub emit_record_definition : ℕ → ℕ → Action
    emit_record_definition zero id st = failed Failure.out_of_fuel
    emit_record_definition (suc f) id st =
        record_step f (emit_hard_deps f) (emit_soft_deps f) (emit_typedef_definition f)
          (emit_record_definition f) id st
