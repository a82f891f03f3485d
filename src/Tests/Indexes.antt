-- ===== src/Tests/Indexes.antt =====
-- The index of the sample: runs, and the theorems on it.
use min_corehdr.Prelude.{ℕ, ◌-◌, ◌^◌, ◌<◌, ◌≡◌, refl, arith, length, codes, text_eq}
use min_corehdr.Errors.{Result, ok, failed}
use min_corehdr.Btf.{Kind, type_name}
use min_corehdr.Index
use min_corehdr.Index.{Index, Answer, absent, found, ambiguous}
use min_corehdr.Index.Answers.{Inserted, insert-Inserted}
use min_corehdr.Index.Insert.{IsValid}
use min_corehdr.Index.Build.{Verdict, is_named, lookup-Verdict, built-IsValid}
use min_corehdr.Tests.{always, sample}

-- Some numbers for the kinds of the sample, as in linux/btf.h.
pub number : Kind → ℕ
number Kind.int = 1
number Kind.ptr = 2
number Kind.struct_k = 4
number Kind.union_k = 5
number _ = 0

pub built : Result Index
built = Index.init number always sample

pub index_of : Result Index → Index
index_of (ok index) = index
index_of (failed e) = Index.init_empty

unfoldable pub runs : Unit {0}
unfolding text_eq type_name number built index_of Index.init Index.next_power_of_two
    Index.power_loop Index.fill Index.index_type Index.insert Index.find_entry Index.walk
    Index.head_of Index.bucket_of Index.hash_name_kind Index.hash_bytes Index.is_indexed_kind
    Index.lookup Index.answer_of Index.same_key Index.mark_ambiguous
runs = tt

abbrev pub index : Index
index = index_of built

lookup_runs :
    (Index.lookup number index (codes "task") Kind.struct_k ≡ found 1)
    × (Index.lookup number index (codes "mm") Kind.struct_k ≡ found 4)
    × (Index.lookup number index (codes "int") Kind.int ≡ absent)
    × (Index.init number always sample ≡ ok index)
unfolding runs
lookup_runs = (refl, refl, refl, refl)

lookup-Verdict_example :
    Verdict
      (is_named number sample (codes "mm") Kind.struct_k)
      5
      (Index.lookup number index (codes "mm") Kind.struct_k)
lookup-Verdict_example =
    lookup-Verdict number sample always index (codes "mm") Kind.struct_k (omega arith) lookup_runs.3

-- One more type named `mm`.
abbrev inserted : Index
inserted = Index.insert number index (codes "mm") Kind.struct_k 5

inserted_run : Index.lookup number inserted (codes "mm") Kind.struct_k ≡ ambiguous
unfolding runs
inserted_run = refl

index-IsValid : IsValid index
index-IsValid = built-IsValid number sample always index (omega arith) lookup_runs.3

index_size : length index.entries < 2 ^ 32 - 1
unfolding runs
index_size = omega arith

insert-Inserted_example : Inserted number index (codes "mm") Kind.struct_k 5 index-IsValid inserted
insert-Inserted_example =
    insert-Inserted number index (codes "mm") Kind.struct_k 5 index-IsValid index_size
