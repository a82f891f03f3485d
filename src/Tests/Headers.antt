-- ===== src/Tests/Headers.antt =====
-- The header of the sample: a run, and the theorems on it.
use min_corehdr.Prelude.{
  ◌≤◌, ◌^◌, ℕ, zero, suc, ◌<◌, ◌≡◌, refl, sym, ap, ◌≢◌, true, none, List, [], ◌∷◌, ◌++◌, arith,
  ◌==◌, ==_iff, get_elem?, length, Text, codes,
}
use mathlib.Core.Path.{subst}
use min_corehdr.Prelude.Decimal.{decimal, decimal_onto}
use min_corehdr.Errors.{Failure, ok, failed}
use min_corehdr.Btf.{Kind, Btf, BtfType, type_name, is_record_kind}
use min_corehdr.TypeSet
use min_corehdr.TypeSet.{TypeSet}
use min_corehdr.TypeSet.Laws.{IsValid, init_lem, add-Adds}
use min_corehdr.Requirements.{has_record_members}
use min_corehdr.Emitter
use min_corehdr.Emitter.{EmitGroups}
use min_corehdr.Emitter.Groups.{Collected, collect_emit_groups-Collected}
use min_corehdr.Emitter.Complete.{Complete, emit_header-Complete}
use min_corehdr.Emitter.Qualifiers.{
  append_qualifier_mask-ok, strip_qualifiers-ends, strip_qualifiers-cycle,
}
use min_corehdr.Emitter.Names
use min_corehdr.Emitter.Decl
use min_corehdr.Emitter.Order
use min_corehdr.Tests.{always, plain, sample, sample_types}
use min_corehdr.Tests.TypeSets.{program}

-- typedef struct task { int pid; struct mm *mm; } const *task_t[2];
abbrev more_types : List BtfType
more_types =
    sample_types
    ++ (plain Kind.typedef 6 6 []
        ∷ record (plain Kind.array 0 0 []) {
          array_info = record { type = 7; index_type = 2; nelems = 2 };
        }
        ∷ plain Kind.ptr 0 8 []
        ∷ plain Kind.const_k 0 1 []
        ∷ [])

abbrev pub larger : Btf
larger = record sample {
  type_cnt = 9;
  type_by_id = get_elem? more_types;
  name_by_offset = get_elem? (
      []
      ∷ codes "task"
      ∷ codes "int"
      ∷ codes "pid"
      ∷ codes "mm"
      ∷ codes "users"
      ∷ codes "task_t"
      ∷ []);
}

abbrev pub required : TypeSet
required = (TypeSet.add (TypeSet.add (TypeSet.add (TypeSet.init always 9).1 1).1 5).1 4).1

unfoldable pub runs : Unit {0}
unfolding program decimal decimal_onto type_name is_record_kind has_record_members
    Names.int_type_name Names.type_qualifier_bit Names.append_type_qualifier
    Names.append_qualifier_mask Names.type_at Names.leading_loop Names.leading_qualifier_mask
    Names.strip_qualifiers Names.own_mask Decl.spaced Decl.make_declarator Decl.starts_with_star
    Decl.array_declarator Decl.qualified_pointer Decl.name_or_empty Decl.bitfield
    Decl.record_keyword Decl.is_pruned Decl.param_name Decl.emit_param Decl.params_from
    Decl.emit_params Decl.open_params Decl.emit_func_decl Decl.emit_member Decl.members_from
    Decl.emit_record_body Decl.emit_inline_record Decl.emit_qualified_decl Decl.decl_of
    Decl.emit_decl_ex Order.is_aggregate_kind Order.look_at Order.enumerator Order.is_named_record
    Order.needs_loop Order.typedef_target_needs_hard_deps Order.emit_forward_decl Order.each_param
    Order.each_member Order.soft_of Order.soft_step Order.hard_record Order.hard_of Order.hard_step
    Order.record_text Order.record_step Order.typedef_text Order.typedef_step Order.emit_hard_deps
    Order.enum_values Order.value64 Order.enum64_values Order.enum_text Order.emit_enum_definition
    Emitter.groups_init Emitter.is_enum_kind Order.is_typedef_kind Emitter.slot Emitter.is_forward
    Emitter.collect_type Emitter.collect_ids Emitter.collect_emit_groups Emitter.emit_each
    Emitter.prologue Emitter.epilogue Emitter.emission_init Emitter.emit_groups
    Emitter.emit_header_with_options Emitter.emit_header
runs = tt

abbrev pub header_body : Text
header_body =
    codes "struct task;\nstruct mm;\n\n"
    ++ (codes "typedef const struct task *task_t[2];\n\n"
        ++ (codes "struct task {\n  unsigned int pid;\n  struct mm *mm;\n};\n\n"
            ++ codes "struct mm {\n  unsigned int users;\n};\n\n"))

header_run :
    Emitter.emit_header larger 20 (λ k. always) true required []
    ≡ ok (Emitter.prologue larger ++ (header_body ++ Emitter.epilogue larger))
unfolding runs
header_run = refl

required-IsValid : IsValid required
required-IsValid =
    let start = (init_lem always 9 (omega arith) refl).2 in
    let first = (add-Adds _ 1 start).valid in
    let second = (add-Adds _ 5 first).valid in (add-Adds _ 4 second).valid

emit_header-Complete_example :
    Complete larger none required []
      (Emitter.prologue larger ++ (header_body ++ Emitter.epilogue larger))
unfolding Emitter.emit_header
emit_header-Complete_example =
    emit_header-Complete larger none 20 (λ k. always) true required [] _ required-IsValid
      (omega arith) header_run

-- Of the three ids `task_t` is 5, `mm` is 4 and `task` 1.
abbrev no_groups : EmitGroups
no_groups = record { capacity = 3; fwds = []; enums = []; records = []; typedefs = [] }

abbrev three_groups : EmitGroups
three_groups = record no_groups { fwds = 1 ∷ 4 ∷ []; records = 1 ∷ 4 ∷ []; typedefs = 5 ∷ [] }

groups_run :
    (Emitter.groups_init always required.selected ≡ ok no_groups)
    × (Emitter.collect_emit_groups larger required no_groups ≡ ok three_groups)
unfolding runs
groups_run = (refl, refl)

required_small : required.count ≤ 2 ^ 32
unfolding runs
required_small = omega arith

collect_emit_groups-Collected_example : Collected larger required three_groups
collect_emit_groups-Collected_example =
    collect_emit_groups-Collected larger always required no_groups three_groups required-IsValid
      required_small groups_run.0 groups_run.1

append_qualifier_mask-ok_example :
    (q : Text) × (Names.append_qualifier_mask 64 [] 7 ≡ ok q) × (length q < 64)
append_qualifier_mask-ok_example = append_qualifier_mask-ok 7

-- `const int`, whose type 1 is no qualifier.
abbrev const_int : Btf
const_int = record sample {
  type_cnt = 3;
  type_by_id =
      get_elem? (plain Kind.unkn 0 0 [] ∷ plain Kind.int 2 4 [] ∷ plain Kind.const_k 0 1 [] ∷ []);
}

const_int-falls :
    (id : ℕ) (t : BtfType)
    → Names.type_at const_int id ≡ ok t
    → Names.type_qualifier_bit t.kind ≢ 0
    → t.ref < id
unfolding Names.type_at Names.type_qualifier_bit
const_int-falls zero t e q =
    let same : plain Kind.unkn 0 0 [] ≡ t = cc e in
    absurd (q (ap (λ t. Names.type_qualifier_bit t.kind) (sym same)))
const_int-falls (suc zero) t e q =
    let same : plain Kind.int 2 4 [] ≡ t = cc e in
    absurd (q (ap (λ t. Names.type_qualifier_bit t.kind) (sym same)))
const_int-falls (suc (suc zero)) t e q =
    let same : plain Kind.const_k 0 1 [] ≡ t = cc e in subst (λ t. t.ref < 2) same (omega arith)
const_int-falls (suc (suc (suc id))) t e q = absurd (ground (arith, e))

strip_qualifiers-ends_example : Names.strip_qualifiers const_int 3 0 2 ≢ failed Failure.out_of_fuel
strip_qualifiers-ends_example =
    strip_qualifiers-ends const_int (λ id. id) const_int-falls 3 0 2 (omega arith)

-- A `const` whose type is itself.
abbrev looping : Btf
looping = record sample {
  type_cnt = 2;
  type_by_id = get_elem? (plain Kind.unkn 0 0 [] ∷ plain Kind.const_k 0 1 [] ∷ []);
}

looping-goes :
    (id : ℕ)
    → (id == 1) ≡ true
    → (t : BtfType) × (Names.type_at looping id ≡ ok t)
      × (Names.type_qualifier_bit t.kind ≢ 0)
      × ((t.ref == 1) ≡ true)
unfolding Names.type_at Names.type_qualifier_bit
looping-goes id h = rw ((==_iff id 1).0 h) (plain Kind.const_k 0 1 [], refl, omega arith, refl)

strip_qualifiers-cycle_example : Names.strip_qualifiers looping 100 0 1 ≡ failed Failure.out_of_fuel
strip_qualifiers-cycle_example =
    strip_qualifiers-cycle looping (λ id. id == 1) looping-goes 100 0 1 refl
