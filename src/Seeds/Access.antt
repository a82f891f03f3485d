-- ===== src/Seeds/Access.antt =====
-- The access strings of CO-RE relocations (src/seeds.c): their components, the types under them,
-- and the base members that they mark as required.
use min_corehdr.Prelude.{
  ℕ, zero, suc, ◌+◌, ◌-◌, ◌*◌, ◌^◌, Bool, true, not, ◌&&◌, ◌||◌, Option, none, some, List, [], ◌∷◌,
  ltb, leb, ◌==◌, if◌then◌else◌, get_elem?, length, Text, codes, is_empty, text_eq,
}
use min_corehdr.Errors.{Failure, Result, ok, failed, ◌>>=◌}
use min_corehdr.Btf.{Kind, Btf, BtfType, Member, vlen, is_record_kind}
use min_corehdr.TypeSet
use min_corehdr.TypeSet.{TypeSet}
use min_corehdr.Requirements.{Requirements, Origin, add_record_member}

-- Where an access goes on: through typedefs, modifiers, pointers and arrays.
unfoldable pub access_step : BtfType → Option ℕ
access_step t = elim t.kind [
  | Kind.typedef ↦ some t.ref
  | Kind.volatile_k ↦ some t.ref
  | Kind.const_k ↦ some t.ref
  | Kind.restrict_k ↦ some t.ref
  | Kind.decl_tag ↦ some t.ref
  | Kind.type_tag ↦ some t.ref
  | Kind.ptr ↦ some t.ref
  | Kind.array ↦ some t.array_info.type
  | _ ↦ none
]

-- The loop of `peel_access_type`: the type that is left, with its id.
unfoldable pub peel_loop : Btf → ℕ → ℕ → Option (ℕ × BtfType)
peel_loop b zero id = none
peel_loop b (suc left) id =
    let here : Option (ℕ × BtfType) = elim (b.type_by_id id) [
      | none ↦ none
      | some t ↦ elim (access_step t) [ some next ↦ peel_loop b left next | none ↦ some (id, t) ]
    ] in
    if id == 0 || leb b.type_cnt id then none else here

unfoldable pub peel_access_type : Btf → ℕ → Option (ℕ × BtfType)
peel_access_type b id = peel_loop b 64 id

-- `*pos >= '0' && *pos <= '9'`
unfoldable pub is_digit : ℕ → Bool
is_digit c = leb 48 c && leb c 57

-- The loop over the digits: the value and where it stops, unless the value exceeds UINT32_MAX.
unfoldable pub digits : ℕ → Text → Option (ℕ × Text)
digits parsed [] = some (parsed, [])
digits parsed (c ∷ cs) =
    let value = parsed * 10 + (c - 48) in
    let rest = digits value cs in
    if is_digit c then (if ltb (2 ^ 32 - 1) value then none else rest) else some (parsed, c ∷ cs)

-- Behind the digits stands a colon or the end.
unfoldable pub after_digits : ℕ × Text → Option (ℕ × Text)
after_digits (value, []) = some (value, [])
after_digits (value, c ∷ cs) = if c == 58 then some (value, cs) else none

-- The value and the new cursor; -1 is `none`.
unfoldable pub parse_access_component : Text → Option (ℕ × Text)
parse_access_component [] = none
parse_access_component (c ∷ cs) =
    let read : Option (ℕ × Text) = elim (digits 0 (c ∷ cs)) [
      | some stop ↦ after_digits stop
      | none ↦ none
    ] in
    if is_digit c then read else none

-- The first member with this name.
unfoldable pub member_named : Btf → Text → ℕ → List Member → Option ℕ
member_named b name i [] = none
member_named b name i (m ∷ ms) =
    let rest = member_named b name (i + 1) ms in
    elim (b.name_by_offset m.name_off) [
      | none ↦ rest
      | some base_name ↦ if text_eq base_name name then some i else rest
    ]

-- A null or empty name leaves the index as it is.
unfoldable pub is_unnamed : Option Text → Bool
is_unnamed none = true
is_unnamed (some name) = is_empty name

unfoldable pub find_base_member : Btf → BtfType → Option Text → ℕ → Option ℕ
find_base_member b record_t none fallback_index =
    if leb (vlen record_t) fallback_index then none else some fallback_index
find_base_member b record_t (some name) fallback_index =
    if not (is_empty name)
    then member_named b name 0 record_t.members
    else if leb (vlen record_t) fallback_index
    then none
    else some fallback_index

-- What the marking of members changes.
pub record Marked : Type 0 where
  pub seeds : TypeSet
  pub requirements : Option Requirements

module _ (alloc : ℕ → Bool) (b : Btf) (origin : Option Origin) where
  -- The member joins the requirements, and the record the seeds.
  unfoldable pub mark_found : ℕ → ℕ → Marked → Result Marked
  mark_found record_id i st = do
    requirements ← add_record_member alloc b st.requirements record_id i origin
    ok (record { seeds = (TypeSet.add st.seeds record_id).1; requirements = requirements })

  -- The loop over the members of a record, which searches the unnamed records in it by `search`.
  unfoldable pub search_members :
      (ℕ → BtfType → Marked → Result (Option ℕ × Marked))
      → ℕ
      → ℕ
      → List Member
      → Marked
      → Result (Option ℕ × Marked)
  search_members search record_id i [] st = ok (none, st)
  search_members search record_id i (m ∷ ms) st =
      if not (is_unnamed (b.name_by_offset m.name_off))
      then search_members search record_id (i + 1) ms st
      else elim (peel_access_type b m.type) [
        | none ↦ search_members search record_id (i + 1) ms st
        | some (nested_id, nested) ↦
            if not (is_record_kind nested.kind)
            then search_members search record_id (i + 1) ms st
            else search nested_id nested st >>= (λ r. elim r.0 [
              | none ↦ search_members search record_id (i + 1) ms r.1
              | some member_type ↦
                  mark_found record_id i r.1 >>= (λ st'. ok (some member_type, st'))
            ])
      ]

  -- The type of the member with this index.
  unfoldable pub member_type_at : BtfType → ℕ → ℕ
  member_type_at t i = elim (get_elem? t.members i) [ some m ↦ m.type | none ↦ 0 ]

  -- `left` is 17 less the depth, so the depth 17 is the first one that is too deep.
  unfoldable pub mark_path : ℕ → Option Text → ℕ → ℕ → BtfType → Marked → Result (Option ℕ × Marked)
  mark_path zero name fallback_index record_id t st = failed Failure.member_search_too_deep
  mark_path (suc left) name fallback_index record_id t st =
      elim (find_base_member b t name fallback_index) [
        | some i ↦ mark_found record_id i st >>= (λ st'. ok (some (member_type_at t i), st'))
        | none ↦
            if is_unnamed name
            then ok (none, st)
            else search_members (mark_path left name (2 ^ 32 - 1)) record_id 0 t.members st
      ]

  unfoldable pub mark_base_member_path :
      Option Text → ℕ → ℕ → BtfType → Marked → Result (Option ℕ × Marked)
  mark_base_member_path name fallback_index = mark_path 17 name fallback_index

  unfoldable pub shown_member : Option Text → Text
  shown_member none = codes "<anonymous>"
  shown_member (some name) = if is_empty name then codes "<anonymous>" else name

  module _ (object : Btf) (access : Text) where
    -- One component: the member of the object's record is looked for in the base record.
    unfoldable pub access_member : ℕ → ℕ → ℕ → Marked → Result ((ℕ × ℕ) × Marked)
    access_member index object_id base_id st = elim (peel_access_type object object_id) [
      | none ↦ failed Failure.access_not_through_records
      | some (_, object_record) ↦ elim (peel_access_type b base_id) [
        | none ↦ failed Failure.access_not_through_records
        | some (record_id, base_record) ↦
            if not (is_record_kind object_record.kind && is_record_kind base_record.kind)
            then failed Failure.access_not_through_records
            else elim (get_elem? object_record.members index) [
              | none ↦ failed (Failure.invalid_object_member index)
              | some m ↦
                  mark_base_member_path (object.name_by_offset m.name_off) index record_id
                    base_record st
                  >>= (λ r. elim r.0 [
                    | none ↦ failed (
                        Failure.unresolved_member (shown_member (object.name_by_offset m.name_off)))
                    | some base_member_type ↦ ok ((m.type, base_member_type), r.1)
                  ])
            ]
      ]
    ]

    -- The loop over the components; each takes at least one byte of the cursor.
    unfoldable pub access_loop : ℕ → Text → ℕ → ℕ → Marked → Result Marked
    access_loop fuel [] object_id base_id st = ok st
    access_loop zero (c ∷ cs) object_id base_id st = failed Failure.out_of_fuel
    access_loop (suc fuel) (c ∷ cs) object_id base_id st = elim (parse_access_component (c ∷ cs)) [
      | none ↦ failed (Failure.unsupported_access access)
      | some (index, cursor) ↦
          access_member index object_id base_id st
          >>= (λ r. access_loop fuel cursor r.0.0 r.0.1 r.1)
    ]

    -- `record_core_relo_requirements` on a field relocation with this access string.
    unfoldable pub record_access : ℕ → ℕ → Marked → Result Marked
    record_access object_id base_id st = elim (parse_access_component access) [
      | none ↦ failed (Failure.unsupported_access access)
      | some (_, cursor) ↦ access_loop (length cursor) cursor object_id base_id st
    ]
