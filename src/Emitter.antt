-- ===== src/Emitter.antt =====
-- The emission of the header (src/emitter.c, include/min_corehdr/emitter.h). Names and Decl have the
-- texts of types, Order the order of the definitions; here are the groups of the required types and
-- the whole header. `alloc n` says whether an allocation of `n` bytes succeeds, and for the header
-- `alloc k n` whether its allocation number `k` does; `sound` says that the output stream has no
-- error at the end.
pub mod Names
pub mod Decl
pub mod Order
pub mod Grows
pub mod Written
pub mod Parts
pub mod Steps
pub mod Definitions
pub mod Groups
pub mod Loops
pub mod Complete
pub mod Qualifiers
use min_corehdr.Prelude.{
  ℕ, zero, suc, ◌+◌, ◌-◌, ◌*◌, ◌/◌, ◌%◌, ◌^◌, ◌≤◌, ◌<◌, ◌≡◌, refl, sym, ap, ◌∙◌, ◌≢◌, ◌↔◌, ◌⊎◌, inl,
  inr, ⊎_elim, Bool, true, false, not, ◌&&◌, ◌||◌, Option, none, some, List, [], ◌∷◌, ◌++◌, Memᴰ,
  arith, ltb, leb, ◌==◌, if◌then◌else◌, ltb→lt, lt→ltb, leb→le, ==_iff, Bool-cases, Option-cases,
  List-cases, get_elem?, get_or, set, replicate, is_null, length, length-append, length-set,
  length-replicate, get_or-set, get_or-replicate, get_elem?-get_or, get_elem?-append_left,
  get_elem?-append_last, Memᴰ-cons, Memᴰ-concat, Memᴰ-one, not-Memᴰ-nil, Text, codes, is_empty,
  text_eq, text_eq_iff,
}
use min_corehdr.Errors.{Failure, Result, ok, failed, ◌>>=◌, ◌>>◌, guard}
use min_corehdr.Btf.{Kind, Btf, BtfType, type_name}
use min_corehdr.TypeSet.{TypeSet, iterate}
use min_corehdr.Requirements.{Requirements}
use min_corehdr.Emitter.Names.{type_at}
use min_corehdr.Emitter.Order.{
  Emission, Action, write, is_aggregate_kind, is_typedef_kind, is_named_record, emit_forward_decl,
  emit_enum_definition, emit_typedef_definition, emit_record_definition,
}

-- `storage` is cut into four arrays of `capacity` ids each; a list holds the slots written.
pub record EmitGroups : Type 0 where
  pub capacity : ℕ
  pub fwds : List ℕ
  pub enums : List ℕ
  pub records : List ℕ
  pub typedefs : List ℕ

unfoldable pub groups_init : (ℕ → Bool) → ℕ → Result EmitGroups
groups_init alloc selected =
    let capacity = if selected == 0 then 1 else selected in
    if ltb ((2 ^ 64 - 1) / 4 / 4) capacity
    then failed Failure.emission_too_large
    else if alloc (capacity * 4 * 4)
    then ok (record { capacity = capacity; fwds = []; enums = []; records = []; typedefs = [] })
    else failed Failure.emission_no_memory

unfoldable pub is_enum_kind : Kind → Bool
is_enum_kind Kind.enum = true
is_enum_kind Kind.enum64 = true
is_enum_kind _ = false

-- A new slot, if the test holds.
unfoldable pub slot : Bool → ℕ → List ℕ → List ℕ
slot c id ids = if c then ids ++ id ∷ [] else ids

module _ (b : Btf) where
  unfoldable pub is_forward : BtfType → Bool
  is_forward t = is_aggregate_kind t.kind && not (is_empty (type_name b t))

  unfoldable pub collect_type : ℕ → BtfType → EmitGroups → EmitGroups
  collect_type id t groups = record groups {
    fwds = slot (is_forward t) id groups.fwds;
    enums = slot (is_enum_kind t.kind) id groups.enums;
    records = slot (is_named_record b t) id groups.records;
    typedefs = slot (is_typedef_kind t.kind) id groups.typedefs;
  }

  -- The loop over the ids that `mch_type_set_next` gives, each of which is cast to 32 bits.
  unfoldable pub collect_ids : List ℕ → EmitGroups → Result EmitGroups
  collect_ids [] groups = ok groups
  collect_ids (required_id ∷ ids) groups =
      let id = required_id % 2 ^ 32 in
      type_at b id >>= (λ t. collect_ids ids (collect_type id t groups))

  -- The set is iterated in as many rounds as it counts ids.
  unfoldable pub collect_emit_groups : TypeSet → EmitGroups → Result EmitGroups
  collect_emit_groups required groups = collect_ids (iterate required.count required 1) groups

  -- A loop over a group.
  unfoldable pub emit_each : (ℕ → Action) → List ℕ → Action
  emit_each act [] st = ok st
  emit_each act (id ∷ ids) st = act id st >>= emit_each act ids

  unfoldable pub prologue : Text
  prologue =
      codes "#ifndef MIN_COREHDR_GENERATED_VMLINUX_H\n"
      ++ (codes "#define MIN_COREHDR_GENERATED_VMLINUX_H\n\n"
          ++ codes
              "#pragma clang attribute push (__attribute__((preserve_access_index)), apply_to = record)\n\n")

  unfoldable pub epilogue : Text
  epilogue = codes "#pragma clang attribute pop\n\n" ++ codes "#endif\n"

  -- The states are arrays of a byte for each type.
  unfoldable pub emission_init : Text → Emission
  emission_init out =
      let slots = if b.type_cnt == 0 then 1 else b.type_cnt in
      record {
        out = out;
        record_state = replicate slots 0;
        fwd_state = replicate slots 0;
        typedef_state = replicate slots 0;
      }

  module _ (requirements : Option Requirements) (fuel : ℕ) where
    -- The four loops between the prologue and the epilogue.
    unfoldable pub emit_groups : EmitGroups → Action
    emit_groups groups st =
        emit_each (emit_forward_decl b) groups.fwds st
        >>= (λ st. emit_each (emit_enum_definition b) groups.enums (write (codes "\n") st))
        >>= emit_each (emit_typedef_definition b requirements fuel) groups.typedefs
        >>= emit_each (emit_record_definition b requirements fuel) groups.records

    -- What is on the stream behind `out` at the end.
    unfoldable pub emit_header_with_options :
        (alloc : ℕ → ℕ → Bool) (sound : Bool) → TypeSet → Text → Result Text
    emit_header_with_options alloc sound required out =
        let slots = if b.type_cnt == 0 then 1 else b.type_cnt in
        guard (alloc 0 slots) Failure.header_no_memory
        >> (guard (alloc 1 slots) Failure.forwards_no_memory
            >> (guard (alloc 2 slots) Failure.typedefs_no_memory
                >> (groups_init (alloc 3) required.selected
                    >>= (λ empty. collect_emit_groups required empty)
                    >>= (λ groups. emit_groups groups (emission_init (out ++ prologue)))
                    >>= (λ st.
                        if sound
                        then ok (st.out ++ epilogue)
                        else failed Failure.header_write_failed))))

  unfoldable pub emit_header : ℕ → (ℕ → ℕ → Bool) → Bool → TypeSet → Text → Result Text
  emit_header fuel = emit_header_with_options none fuel
