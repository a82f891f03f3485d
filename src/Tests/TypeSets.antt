-- ===== src/Tests/TypeSets.antt =====
-- Type sets: runs, and the theorems at a set with the members 1 and 70.
use min_corehdr.Prelude.{ℕ, ◌≡◌, refl, true, false, none, some, [], ◌∷◌, arith}
use min_corehdr.Tests.{always}
use min_corehdr.TypeSet
use min_corehdr.TypeSet.{TypeSet}
use min_corehdr.TypeSet.Laws.{IsValid, Adds, init_lem, add-Adds}
use min_corehdr.TypeSet.Scan.{IsNext, next-IsNext}
use min_corehdr.TypeSet.Iterate.{members, iterate_lem}

abbrev empty : TypeSet
empty = (TypeSet.init always 100).1

abbrev two : TypeSet
two = (TypeSet.add (TypeSet.add empty 70).1 1).1

unfoldable pub program : Unit {0}
unfolding TypeSet.init TypeSet.word_count_for_bits TypeSet.contains TypeSet.add TypeSet.has_bit
    TypeSet.put_bit TypeSet.bit_index TypeSet.scan TypeSet.next TypeSet.iterate members
program = tt

two_runs :
    (two.selected ≡ 2)
    × (TypeSet.contains two 70 ≡ true)
    × (TypeSet.contains two 69 ≡ false)
    × ((TypeSet.add two 70).0 ≡ false)
    × ((TypeSet.add two 100).0 ≡ false)
    × ((TypeSet.next two 2).found ≡ some 70)
    × ((TypeSet.next two 71).found ≡ none)
unfolding program
two_runs = (refl, refl, refl, refl, refl, refl, refl)

init_lem_example :
    ((TypeSet.init always 100).0 ≡ true)
    × ((TypeSet.init always 100).1.count ≡ 100)
    × IsValid (TypeSet.init always 100).1
    × ((id : ℕ) → TypeSet.contains (TypeSet.init always 100).1 id ≡ false)
init_lem_example = init_lem always 100 (omega arith) refl

empty-IsValid : IsValid empty
empty-IsValid = init_lem_example.2

two-IsValid : IsValid two
two-IsValid = (add-Adds _ 1 (add-Adds empty 70 empty-IsValid).valid).valid

add-Adds_example : Adds empty 70 (TypeSet.add empty 70).0 (TypeSet.add empty 70).1
add-Adds_example = add-Adds empty 70 empty-IsValid

next-IsNext_example : IsNext two 2 (TypeSet.next two 2)
next-IsNext_example = next-IsNext two 2 two-IsValid

iterate_lem_example : TypeSet.iterate 100 two 1 ≡ 1 ∷ 70 ∷ []
unfolding program
iterate_lem_example = iterate_lem two two-IsValid 1
