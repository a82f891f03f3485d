-- ===== src/Emitter/Decl.antt =====
-- Declarations (src/emitter.c): `emit_decl_ex` and the functions that it calls in turn. Each is the
-- text that it writes. The argument `flexible_ok`, which is only handed on, is left out; a call for
-- the type behind this one takes one unit of fuel.
use min_corehdr.Prelude.{
  ℕ, zero, suc, ◌+◌, ◌/◌, ◌^◌, Bool, false, not, ◌&&◌, Option, none, some, List, [], ◌∷◌, ◌++◌, ltb,
  ◌==◌, if◌then◌else◌, length, Text, codes, is_empty,
}
use min_corehdr.Prelude.Decimal.{decimal}
use min_corehdr.Errors.{Failure, Result, ok, failed, ◌>>=◌}
use min_corehdr.Btf.{Kind, Btf, BtfType, Member, Param, type_name, kind_name}
use min_corehdr.Requirements.{Requirements, has_record_members, contains_record_member}
use min_corehdr.Emitter.Names.{
  int_type_name, float_type_name, append_qualifier_mask, type_at, strip_qualifiers, own_mask,
}

-- "%s%s%s": the name, a blank if there is a declarator, and the declarator.
unfoldable pub spaced : Text → Text → Text
spaced name declarator = name ++ (if is_empty declarator then [] else 32 ∷ declarator)

-- What `snprintf` leaves in a buffer of 512 bytes, unless it is cut off.
unfoldable pub make_declarator : Failure → Text → Result Text
make_declarator e text = if ltb (length text) 512 then ok text else failed e

unfoldable pub starts_with_star : Text → Bool
starts_with_star [] = false
starts_with_star (c ∷ s) = c == 42

-- "(%s)[%u]" behind a star, and "%s[%u]" otherwise.
unfoldable pub array_declarator : Text → ℕ → Text
array_declarator declarator nelems =
    (if starts_with_star declarator then (40 ∷ declarator) ++ codes ")" else declarator)
    ++ (91 ∷ decimal nelems)
    ++ codes "]"

-- "* %s%s%s"
unfoldable pub qualified_pointer : Text → Text → Text
qualified_pointer qualifiers declarator =
    codes "* " ++ (qualifiers ++ (if is_empty declarator then [] else 32 ∷ declarator))

unfoldable pub name_or_empty : Option Text → Text
name_or_empty none = []
name_or_empty (some name) = name

-- A bit-field's width, " : %u".
unfoldable pub bitfield : BtfType → Member → Text
bitfield t m =
    let size = m.offset / 2 ^ 24 in
    if t.kflag && not (size == 0) then codes " : " ++ decimal size else []

-- The keyword of a record or a forward declaration.
unfoldable pub record_keyword : BtfType → Text
record_keyword t = elim t.kind [
  | Kind.union_k ↦ codes "union"
  | Kind.fwd ↦ if t.kflag then codes "union" else codes "struct"
  | _ ↦ codes "struct"
]

module _ (b : Btf) (requirements : Option Requirements) where
  -- Some members of the record are required, and this one is not.
  unfoldable pub is_pruned : ℕ → ℕ → Bool
  is_pruned id i =
      has_record_members requirements id && not (contains_record_member requirements id i)

  -- The functions below get `emit_decl_ex` with less fuel as `decl`.
  module _ (decl : ℕ → Text → Result Text) where
    -- The name of a parameter, or "arg%u".
    unfoldable pub param_name : ℕ → Option Text → Text
    param_name i none = codes "arg" ++ decimal i
    param_name i (some name) = if is_empty name then codes "arg" ++ decimal i else name

    unfoldable pub emit_param : ℕ → Param → Result Text
    emit_param i p =
        if p.type == 0
        then ok (codes "void")
        else decl p.type (param_name i (b.name_by_offset p.name_off))

    -- The loop of `emit_params`, from the index `i` on.
    unfoldable pub params_from : ℕ → List Param → Result Text
    params_from i [] = ok []
    params_from i (p ∷ ps) = do
      one ← emit_param i p
      rest ← params_from (i + 1) ps
      ok ((if i == 0 then [] else codes ", ") ++ (one ++ rest))

    unfoldable pub emit_params : List Param → Result Text
    emit_params [] = ok (codes "void")
    emit_params (p ∷ ps) = params_from 0 (p ∷ ps)

    -- What stands between the result type and the parameters.
    unfoldable pub open_params : Text → Text
    open_params declarator =
        if starts_with_star declarator
        then codes " (" ++ (declarator ++ codes ")(")
        else if is_empty declarator
        then codes "("
        else codes " " ++ (declarator ++ codes "(")

    unfoldable pub emit_func_decl : ℕ → Text → Result Text
    emit_func_decl proto_id declarator = do
      proto ← type_at b proto_id
      result ← decl proto.ref []
      params ← emit_params proto.params
      ok (result ++ (open_params declarator ++ (params ++ codes ")")))

    unfoldable pub emit_member : BtfType → Member → Result Text
    emit_member t m = do
      declared ← decl m.type (name_or_empty (b.name_by_offset m.name_off))
      ok (codes "  " ++ (declared ++ (bitfield t m ++ codes ";\n")))

    -- The loop over the members, from the index `i` on.
    unfoldable pub members_from : ℕ → BtfType → ℕ → List Member → Result Text
    members_from id t i [] = ok []
    members_from id t i (m ∷ ms) =
        if is_pruned id i
        then members_from id t (i + 1) ms
        else (emit_member t m
            >>= (λ one. members_from id t (i + 1) ms >>= (λ rest. ok (one ++ rest))))

    unfoldable pub emit_record_body : ℕ → BtfType → Result Text
    emit_record_body id t = do
      members ← members_from id t 0 t.members
      ok (codes " {\n" ++ (members ++ codes "}"))

    unfoldable pub emit_inline_record : ℕ → BtfType → Text → Result Text
    emit_inline_record id t declarator = do
      body ← emit_record_body id t
      ok (spaced (record_keyword t ++ body) declarator)

    unfoldable pub emit_qualified_decl : ℕ → ℕ → Text → Result Text
    emit_qualified_decl fuel id declarator = do
      (mask, current, t) ← strip_qualifiers b fuel 0 id
      qualifiers ← append_qualifier_mask 64 [] (own_mask b mask t)
      elim t.kind [
        | Kind.ptr ↦
            make_declarator Failure.declarator_too_long (qualified_pointer qualifiers declarator)
            >>= (λ next. decl t.ref next)
        | _ ↦ decl current declarator >>= (λ rest. ok (qualifiers ++ (32 ∷ rest)))
      ]

    -- `switch (kind)`
    unfoldable pub decl_of : ℕ → Kind → ℕ → BtfType → Text → Result Text
    decl_of fuel Kind.int id t declarator = ok (spaced (int_type_name t) declarator)
    decl_of fuel Kind.float id t declarator = ok (spaced (float_type_name t) declarator)
    decl_of fuel Kind.ptr id t declarator =
        make_declarator Failure.declarator_too_long (42 ∷ declarator) >>= decl t.ref
    decl_of fuel Kind.array id t declarator =
        make_declarator Failure.array_declarator_too_long
          (array_declarator declarator t.array_info.nelems)
        >>= decl t.array_info.type
    decl_of fuel Kind.const_k id t declarator = emit_qualified_decl fuel id declarator
    decl_of fuel Kind.volatile_k id t declarator = emit_qualified_decl fuel id declarator
    decl_of fuel Kind.restrict_k id t declarator = emit_qualified_decl fuel id declarator
    decl_of fuel Kind.type_tag id t declarator = decl t.ref declarator
    decl_of fuel Kind.decl_tag id t declarator = decl t.ref declarator
    decl_of fuel Kind.typedef id t declarator =
        if is_empty (type_name b t)
        then decl t.ref declarator
        else ok (spaced (type_name b t) declarator)
    decl_of fuel Kind.struct_k id t declarator =
        if is_empty (type_name b t)
        then emit_inline_record id t declarator
        else ok (spaced (record_keyword t ++ (32 ∷ type_name b t)) declarator)
    decl_of fuel Kind.union_k id t declarator =
        if is_empty (type_name b t)
        then emit_inline_record id t declarator
        else ok (spaced (record_keyword t ++ (32 ∷ type_name b t)) declarator)
    decl_of fuel Kind.fwd id t declarator =
        ok (spaced (record_keyword t ++ (32 ∷ type_name b t)) declarator)
    decl_of fuel Kind.enum id t declarator =
        if is_empty (type_name b t)
        then ok (spaced (codes "int") declarator)
        else ok (spaced (codes "enum " ++ type_name b t) declarator)
    decl_of fuel Kind.enum64 id t declarator =
        if is_empty (type_name b t)
        then ok (spaced (codes "unsigned long long") declarator)
        else ok (spaced (codes "enum " ++ type_name b t) declarator)
    decl_of fuel Kind.func_proto id t declarator = emit_func_decl id declarator
    decl_of fuel kind id t declarator = failed (Failure.unsupported_kind (kind_name kind))

  unfoldable pub emit_decl_ex : ℕ → ℕ → Text → Result Text
  emit_decl_ex zero id declarator = failed Failure.out_of_fuel
  emit_decl_ex (suc fuel) id declarator =
      let typed = type_at b id >>= (λ t. decl_of (emit_decl_ex fuel) fuel t.kind id t declarator) in
      if id == 0 then ok (spaced (codes "void") declarator) else typed
