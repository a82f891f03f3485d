-- ===== src/Tests/Seeding.antt =====
-- The sample as its own object: runs, and the theorems on them.
use min_corehdr.Prelude.{
  ℕ, ◌^◌, ◌<◌, ◌≡◌, refl, ◌↔◌, false, none, some, List, [], ◌∷◌, length, codes, ◌++◌, ltb,
  if◌then◌else◌, arith,
}
use min_corehdr.Errors.{Result, ok, failed}
use min_corehdr.Seeds
use min_corehdr.Seeds.Access
use min_corehdr.Seeds.Resolve.{Resolves, resolve-Resolves}
use min_corehdr.Seeds.Components.{parse_access_component-bounds}
use min_corehdr.Prelude.Decimal.{decimal}
use min_corehdr.Seeds.RoundTrip.{parse_access_component-decimal}
use min_corehdr.Tests.{always, sample}
use min_corehdr.Tests.Indexes.{number, index}
use min_corehdr.Tests.Indexes
use min_corehdr.Tests.Requirements
use min_corehdr.Index
use min_corehdr.TypeSet
use min_corehdr.TypeSet.{TypeSet}

built_run : Index.init number always sample ≡ ok index
unfolding Indexes.runs
built_run = refl

resolve-Resolves_example :
    (Seeds.resolve_object_type_to_base number index sample 4 false ≡ ok (some 4))
    ↔ ((n : ℕ) × (n < 32) × Resolves number sample sample 4 n 4)
resolve-Resolves_example =
    resolve-Resolves number sample sample always index (omega arith) built_run 4 4 false

component_runs :
    (Access.parse_access_component (codes "17:2") ≡ some (17, codes "2"))
    × (Access.parse_access_component (codes "4294967296") ≡ none)
    × (Access.parse_access_component (codes "1x") ≡ none)
unfolding Access.parse_access_component Access.is_digit Access.digits Access.after_digits
component_runs = (refl, refl, refl)

parse_access_component-bounds_example : (17 < 2 ^ 32) × (length (codes "2") < length (codes "17:2"))
parse_access_component-bounds_example =
    parse_access_component-bounds (codes "17:2") 17 (codes "2") component_runs.0

parse_access_component-decimal_example :
    Access.parse_access_component (decimal 17 ++ 58 ∷ codes "2")
    ≡ (if ltb 17 (2 ^ 32) then some (17, codes "2") else none)
parse_access_component-decimal_example = parse_access_component-decimal 17 (codes "2")

unfoldable pub runs : Unit {0}
unfolding Requirements.runs Indexes.runs Seeds.is_seedable_kind Seeds.is_chain_kind Seeds.is_enum
    Seeds.match_of Seeds.root_of Seeds.shown Seeds.base_match Seeds.resolve_loop
    Seeds.resolve_object_type_to_base Seeds.add_seed Seeds.seed_type Seeds.seed_types
    Seeds.extract_object_seeds_with_requirements Seeds.extract_object_seeds Access.access_step
    Access.peel_loop Access.peel_access_type Access.is_digit Access.digits Access.after_digits
    Access.parse_access_component Access.member_named Access.is_unnamed Access.find_base_member
    Access.mark_found Access.search_members Access.member_type_at Access.mark_path
    Access.mark_base_member_path Access.shown_member Access.access_member Access.access_loop
    Access.record_access
runs = tt

-- The same resolution runs to its result.
resolve_run : Seeds.resolve_object_type_to_base number index sample 4 false ≡ ok (some 4)
unfolding runs
resolve_run = refl

seeded : Result Seeds.Seeds
seeded =
    Seeds.extract_object_seeds number index sample always (codes "a.o") (TypeSet.init always 5).1
      Seeds.stats_init

seeds_of : Result Seeds.Seeds → List ℕ × ℕ × ℕ
seeds_of (ok s) = (TypeSet.iterate 5 s.seeds 1, s.stats.candidates, s.stats.kernel_types)
seeds_of (failed e) = ([], 0, 0)

accessed : Result Access.Marked
accessed =
    Access.record_access always sample none sample (codes "0:1:0") 1 1
      (record { seeds = (TypeSet.init always 5).1; requirements = none })

marked_of : Result Access.Marked → List ℕ
marked_of (ok m) = TypeSet.iterate 5 m.seeds 1
marked_of (failed e) = []

-- The two records of the sample resolve to themselves, and `task.mm->users` marks both.
seeding_runs : (seeds_of seeded ≡ (1 ∷ 4 ∷ [], 2, 2)) × (marked_of accessed ≡ 1 ∷ 4 ∷ [])
unfolding runs seeded seeds_of accessed marked_of
seeding_runs = (refl, refl)
