-- ===== src/Tests/Requirements.antt =====
-- Requirements over the sample: runs, and the theorems on them.
use min_corehdr.Prelude.{zero, suc, ◌<◌, ◌^◌, ℕ, ◌≡◌, refl, true, false, Option, none, some, arith}
use min_corehdr.Errors.{Result, ok, failed}
use min_corehdr.Btf.{vlen, is_record_kind}
use min_corehdr.Requirements
use min_corehdr.Requirements.{
  Requirements, Trace, Stats, add_type_root, add_record_member, stats, member_words, is_some,
}
use min_corehdr.Requirements.Valid.{IsValid}
use min_corehdr.Requirements.Roots.{Rooted, add_type_root-Rooted}
use min_corehdr.Requirements.Members.{Membered, add_record_member-Membered}
use min_corehdr.Requirements.Fresh.{init-IsValid}
use min_corehdr.Tests.{always, sample}
use min_corehdr.Tests.TypeSets.{program}

unfoldable pub runs : Unit {0}
unfolding program Requirements.init Requirements.bitset_contains Requirements.bitset_add
    Requirements.dup_optional Requirements.ensure_trace_capacity Requirements.make_trace
    Requirements.append_trace Requirements.contains_type_root Requirements.add_type_root
    Requirements.has_record_members Requirements.contains_record_member Requirements.ensure_members
    Requirements.mark_member Requirements.record_type Requirements.add_record_member
    Requirements.stats vlen is_record_kind
runs = tt

abbrev empty : Requirements
empty = (Requirements.init always 5).1

after : Result (Option Requirements) → Option Requirements
after (ok r) = r
after (failed e) = none

abbrev rooted : Option Requirements
rooted = after (add_type_root always (some empty) 1 none)

abbrev membered : Option Requirements
membered = after (add_record_member always sample rooted 1 1 none)

counts : Stats → ℕ × ℕ × ℕ
counts s = (s.type_roots, s.record_members, s.traces)

requirements_runs :
    (counts (stats rooted) ≡ (1, 0, 1))
    × (counts (stats membered) ≡ (1, 1, 2))
    × (Requirements.contains_record_member membered 1 1 ≡ true)
    × (Requirements.contains_record_member membered 1 0 ≡ false)
unfolding runs after counts
requirements_runs = (refl, refl, refl, refl)

init-IsValid_example :
    IsValid sample empty
    × ((id : ℕ) → Requirements.contains_type_root (some empty) id ≡ false)
    × ((id i : ℕ) → Requirements.contains_record_member (some empty) id i ≡ false)
unfolding Requirements.init
init-IsValid_example = init-IsValid sample 5 always (omega arith) refl

empty-IsValid : IsValid sample empty
empty-IsValid = init-IsValid_example.0

rooted_run : add_type_root always (some empty) 1 none ≡ ok rooted
unfolding runs after
rooted_run = refl

add_type_root-Rooted_example :
    (t : Requirements) × (rooted ≡ some t) × Rooted sample empty empty-IsValid 1 t
add_type_root-Rooted_example =
    add_type_root-Rooted sample empty empty-IsValid 1 always none rooted rooted_run

sample_small : (j n : ℕ) → Requirements.record_type sample j ≡ ok n → n < 2 ^ 16
unfolding runs
sample_small zero n e = cc e
sample_small (suc zero) n e = let same : 2 ≡ n = cc e in omega (arith, same)
sample_small (suc (suc zero)) n e = cc e
sample_small (suc (suc (suc zero))) n e = cc e
sample_small (suc (suc (suc (suc zero)))) n e = let same : 1 ≡ n = cc e in omega (arith, same)
sample_small (suc (suc (suc (suc (suc j))))) n e = cc e

member_of_empty : Option Requirements
member_of_empty = after (add_record_member always sample (some empty) 1 1 none)

member_run : add_record_member always sample (some empty) 1 1 none ≡ ok member_of_empty
unfolding runs after member_of_empty
member_run = refl

add_record_member-Membered_example :
    (t : Requirements) × (member_of_empty ≡ some t) × Membered sample empty 1 1 t
add_record_member-Membered_example =
    add_record_member-Membered sample empty 1 1 always none member_of_empty empty-IsValid
      sample_small member_run
