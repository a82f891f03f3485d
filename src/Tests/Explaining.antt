-- ===== src/Tests/Explaining.antt =====
-- The explanation of a root of the sample, and error reports.
use min_corehdr.Prelude.{
  ℕ, ◌<◌, ◌≡◌, refl, true, false, Option, none, some, List, [], ◌∷◌, ◌++◌, arith, length, Text,
  codes,
}
use min_corehdr.Errors.{Result, ok, failed}
use min_corehdr.Btf.{BtfType, type_name, kind_name}
use min_corehdr.Requirements
use min_corehdr.Requirements.{
  Requirements, TraceKind, type_root, record_member, add_type_root, contains_type_root,
  contains_record_member,
}
use min_corehdr.Requirements.Valid.{IsValid}
use min_corehdr.Requirements.Roots.{Rooted, add_type_root-Rooted}
use min_corehdr.Requirements.Fresh.{init-IsValid}
use min_corehdr.Requirements.Explain
use min_corehdr.Requirements.Witnessed.{Explained, write_explanation-Explained}
use min_corehdr.Prelude.Buffer.{truncated, take_bytes}
use min_corehdr.Reports
use min_corehdr.Reports.{Report, no_report, Call, set_message, set_file, calls-bounds}
use min_corehdr.Tests.{always, sample}
use min_corehdr.Tests.Requirements as Requiring

abbrev empty : Requirements
empty = (Requirements.init always 5).1

unfoldable pub runs : Unit {0}
unfolding Requiring.runs Explain.source_name Explain.anonymous_if_empty Explain.labelled
    Explain.aggregate_keyword Explain.type_name_or_anonymous Explain.member_name_or_anonymous
    Explain.root_line Explain.member_line Explain.origin_text Explain.fact_line Explain.trace_line
    Explain.trace_lines Explain.checked Explain.write_explanation type_name kind_name
runs = tt

after : Result (Option Requirements) → Option Requirements
after (ok r) = r
after (failed e) = none

both : Option Requirements
both = after (
    Requirements.add_record_member always sample (after (add_type_root always (some empty) 4 none))
      1 1 none)

explanation_run :
    Explain.write_explanation sample true both
    ≡ ok (
        codes "requirements:\n  - root: STRUCT mm; source: unknown\n"
        ++ codes "  - member: struct task.mm; source: unknown\n")
unfolding runs after both
explanation_run = refl

empty-IsValid : IsValid sample empty × ((id : ℕ) → contains_type_root (some empty) id ≡ false)
unfolding Requirements.init
empty-IsValid = let fresh = init-IsValid sample 5 always (omega arith) refl in (fresh.0, fresh.1)

root_run :
    add_type_root always (some empty) 4 none ≡ ok (after (add_type_root always (some empty) 4 none))
unfolding Requiring.runs after
root_run = refl

rooted : (t : Requirements) × Rooted sample empty empty-IsValid.0 4 t
rooted =
    let (t, e, r) = add_type_root-Rooted sample empty empty-IsValid.0 4 always none _ root_run in
    (t, r)

rooted_types :
    (id : ℕ)
    → contains_type_root (some rooted.0) id ≡ true
    → (t : BtfType) × (sample.type_by_id id ≡ some t)
rooted_types id h =
    let only : id ≡ 4 = ground (arith, rooted.1.root id, empty-IsValid.1 id, h) in rw only (_, refl)

write_explanation-Explained_example :
    (text : Text) × (Explain.write_explanation sample true (some rooted.0) ≡ ok text)
    × ((id : ℕ)
        → contains_type_root (some rooted.0) id ≡ true
        → Explained sample rooted.0.traces type_root id 0 text)
    × ((id i : ℕ)
        → contains_record_member (some rooted.0) id i ≡ true
        → Explained sample rooted.0.traces record_member id i text)
write_explanation-Explained_example =
    write_explanation-Explained sample rooted.0 rooted.1.valid rooted_types

no_report-Fits : Reports.Fits no_report
no_report-Fits = record {
  message = omega arith;
  context = omega arith;
  file = omega arith;
  detail = omega arith;
  hint = omega arith;
}

abbrev two_calls : List Call
two_calls = set_message (codes "missing --btf FILE") ∷ set_file (some (codes "a.o")) ∷ []

report_run :
    Reports.error_print (Reports.calls two_calls (some no_report))
    ≡ codes "error: missing --btf FILE\nfile:  a.o\n"
unfolding Reports.calls Reports.call Reports.error_clear Reports.error_set Reports.error_set_context
    Reports.error_set_file Reports.error_set_detail Reports.error_set_hint Reports.line
    Reports.error_print truncated take_bytes
report_run = refl

calls-bounds_example :
    (after : Report) × (Reports.calls two_calls (some no_report) ≡ some after)
    × Reports.Fits after
    × (length (Reports.error_print (some after)) < 2085)
calls-bounds_example = calls-bounds two_calls no_report no_report-Fits
