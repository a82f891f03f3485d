-- ===== src/Tests.antt =====
-- Sample data; the children hold runs of the operations on it, and each theorem at an input.
pub mod TypeSets
pub mod Closures
pub mod Indexes
pub mod Requirements
pub mod Commands
pub mod Seeding
pub mod Headers
pub mod Relocating
pub mod Outputs
pub mod Explaining
use min_corehdr.Prelude.{
  ℕ, Bool, true, false, Option, none, some, List, [], ◌∷◌, Text, codes, get_elem?,
}
use min_corehdr.Btf.{Kind, Member, ArrayInfo, BtfType, Btf}

-- Every allocation succeeds.
abbrev pub always : ℕ → Bool
always n = true

abbrev pub plain : Kind → ℕ → ℕ → List Member → BtfType
plain kind name_off ref members = record {
  name_off = name_off;
  kind = kind;
  kflag = false;
  ref = ref;
  int_info = 0;
  array_info = record { type = 0; index_type = 0; nelems = 0 };
  members = members;
  params = [];
  vars = [];
  values = [];
  values64 = [];
}

-- struct task { int pid; struct mm *mm; }; struct mm { int users; };
abbrev pub sample_types : List BtfType
sample_types =
    plain Kind.unkn 0 0 []
    ∷ plain Kind.struct_k 1 16 (
        record { name_off = 3; type = 2; offset = 0 }
        ∷ record { name_off = 4; type = 3; offset = 64 }
        ∷ [])
    ∷ plain Kind.int 2 4 []
    ∷ plain Kind.ptr 0 4 []
    ∷ plain Kind.struct_k 4 4 (record { name_off = 5; type = 2; offset = 0 } ∷ [])
    ∷ []

abbrev pub sample_names : List Text
sample_names = [] ∷ codes "task" ∷ codes "int" ∷ codes "pid" ∷ codes "mm" ∷ codes "users" ∷ []

abbrev pub sample : Btf
sample = record {
  type_cnt = 5;
  type_by_id = get_elem? sample_types;
  name_by_offset = get_elem? sample_names;
  str_by_offset = get_elem? sample_names;
}
