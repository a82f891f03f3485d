-- ===== src/Tests/Closures.antt =====
-- The closure of the sample: runs, and the theorems on it.
use min_corehdr.Prelude.{
  ◌↔◌, ℕ, zero, suc, ◌^◌, ◌≤◌, ◌<◌, ◌≡◌, refl, true, Option, none, some, List, [], ◌∷◌, Memᴰ, arith,
  get_elem?,
}
use mathlib.Core.Path.{subst}
use min_corehdr.Errors.{Failure, Result, ok, failed}
use min_corehdr.Btf.{Kind, Btf, BtfType}
use min_corehdr.TypeSet
use min_corehdr.TypeSet.{TypeSet}
use min_corehdr.TypeSet.Laws.{IsValid, init_lem, add-Adds}
use min_corehdr.Requirements.{has_record_members}
use min_corehdr.Closure
use min_corehdr.Closure.{State, Options, compute}
use min_corehdr.Closure.Deps.{dep_ids, add_all}
use min_corehdr.Closure.Refers.{RefersAs, add_type_deps-Refers}
use min_corehdr.Closure.Reach.{Inconsistent, IsConsistent, Below}
use min_corehdr.Closure.Total.{IsClosure, compute_exact, compute-failed, compute-IsClosure}
use min_corehdr.Tests.{always, plain, sample, sample_types}
use min_corehdr.Tests.TypeSets.{program}

-- Only `task` is required.
abbrev roots : TypeSet
roots = (TypeSet.add (TypeSet.init always 5).1 1).1

abbrev follow : Option Options
follow = some (record { expand_pointers = true; requirements = none })

unfoldable pub runs : Unit {0}
unfolding program Closure.compute Closure.worklist_init Closure.worklist_push Closure.worklist_grow
    Closure.push_all Closure.loop Closure.expand Closure.add_type_deps Closure.add_members
    Closure.add_params Closure.add_vars Closure.add_dep Closure.prunes Closure.expands
    has_record_members
runs = tt

members_of : Result (TypeSet × ℕ) → List ℕ × ℕ
members_of (ok (s, n)) = (TypeSet.iterate 5 s 1, n)
members_of (failed e) = ([], 0)

-- The pointer's target stays out unless pointers are expanded.
closure_runs :
    (members_of (compute always sample roots 0 none) ≡ (1 ∷ 2 ∷ 3 ∷ [], 2))
    × (members_of (compute always sample roots 0 follow) ≡ (1 ∷ 2 ∷ 3 ∷ 4 ∷ [], 3))
unfolding runs members_of
closure_runs = (refl, refl)

roots-IsValid : IsValid roots
roots-IsValid = (add-Adds _ 1 (init_lem always 5 (omega arith) refl).2).valid

Below-at :
    {u : BtfType} (o : Option Options) (i : ℕ) (t : BtfType)
    → some u ≡ some t
    → Below 5 (dep_ids o i u)
    → Below 5 (dep_ids o i t)
Below-at o i t e h = subst (λ s. Below 5 (dep_ids o i s)) (cc) h

sample-has_type : (u : ℕ) → u < 5 → (t : BtfType) × (get_elem? sample_types u ≡ some t)
sample-has_type zero h = (_, refl)
sample-has_type (suc zero) h = (_, refl)
sample-has_type (suc (suc zero)) h = (_, refl)
sample-has_type (suc (suc (suc zero))) h = (_, refl)
sample-has_type (suc (suc (suc (suc zero)))) h = (_, refl)
sample-has_type (suc (suc (suc (suc (suc u))))) h = absurd (omega arith)

sample-refers-Below :
    (u : ℕ) (t : BtfType) → get_elem? sample_types u ≡ some t → Below 5 (dep_ids follow u t)
unfolding dep_ids Closure.expands Closure.prunes has_record_members
sample-refers-Below zero t e = Below-at follow 0 t e (omega arith)
sample-refers-Below (suc zero) t e = Below-at follow 1 t e (omega arith)
sample-refers-Below (suc (suc zero)) t e = Below-at follow 2 t e (omega arith)
sample-refers-Below (suc (suc (suc zero))) t e = Below-at follow 3 t e (omega arith)
sample-refers-Below (suc (suc (suc (suc zero)))) t e = Below-at follow 4 t e (omega arith)
sample-refers-Below (suc (suc (suc (suc (suc u))))) t e = cc

sample-IsConsistent : IsConsistent sample follow
sample-IsConsistent = record { has_type = sample-has_type; refers_below = sample-refers-Below }

roots_size : (roots.count ≤ 2 ^ 32) × (5 ≤ roots.count) × (roots.count ≡ 5)
unfolding program
roots_size = omega arith

compute_exact_example :
    (s' : TypeSet) × (n : ℕ) × (compute always sample roots 0 follow ≡ ok (s', n))
    × IsClosure sample follow roots 0 s' n
compute_exact_example =
    compute_exact always sample roots 0 follow roots-IsValid roots_size.0 roots_size.1 (λ n. refl)
      roots_size.2 sample-IsConsistent

-- A type that refers past the count.
abbrev broken : Btf
broken = record sample { type_cnt = 4 }

abbrev three : TypeSet
three = (TypeSet.add (TypeSet.init always 5).1 3).1

three-IsValid : IsValid three
three-IsValid = (add-Adds _ 3 (init_lem always 5 (omega arith) refl).2).valid

three_runs :
    (compute always broken three 0 follow ≡ failed (Failure.invalid_dependency 4))
    × (three.count ≤ 2 ^ 32)
    × (4 ≤ three.count)
unfolding runs
three_runs = (refl, omega arith, omega arith)

compute-failed_example :
    Inconsistent broken follow (TypeSet.contains three) (Failure.invalid_dependency 4)
compute-failed_example =
    compute-failed always broken three 0 follow three-IsValid three_runs.1 three_runs.2 (λ n. refl)
      (Failure.invalid_dependency 4) three_runs.0

abbrev closed_set : TypeSet
closed_set = compute_exact_example.0

compute-IsClosure_example : IsClosure sample follow roots 0 closed_set compute_exact_example.1
compute-IsClosure_example =
    compute-IsClosure always sample roots 0 follow roots-IsValid roots_size.0 roots_size.1
      closed_set compute_exact_example.1 compute_exact_example.2

abbrev idle : State
idle = Closure.start_state always sample roots 0 16

add_type_deps-Refers_example :
    (Closure.add_type_deps always sample follow 3 (plain Kind.ptr 0 4 []) idle
      ≡ add_all always sample (dep_ids follow 3 (plain Kind.ptr 0 4 [])) idle)
    × ((d : ℕ)
        → Memᴰ d (dep_ids follow 3 (plain Kind.ptr 0 4 []))
          ↔ RefersAs follow 3 (plain Kind.ptr 0 4 []) d Kind.ptr)
add_type_deps-Refers_example =
    add_type_deps-Refers follow 3 always sample (plain Kind.ptr 0 4 []) idle
