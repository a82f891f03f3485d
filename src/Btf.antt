-- ===== src/Btf.antt =====
-- The BTF data that the program reads through libbpf, and src/btf_loader.c's two accessors.
-- libbpf is no part of the program: a `Btf` is the record of what its calls return, and each
-- function of the development takes one as an argument.
use min_corehdr.Prelude.{
  ℕ, Bool, true, false, Option, none, some, List, Text, if◌then◌else◌, ◌==◌, length, codes, [],
}

-- `btf_kind`, the `BTF_KIND_*` constants of linux/btf.h; `other` is a number that has no name there.
pub data Kind : Type 0 where
  unkn int ptr array struct_k union_k enum fwd typedef volatile_k const_k restrict_k : Kind
  func func_proto var datasec float decl_tag type_tag enum64 : Kind
  other : ℕ → Kind

-- `struct btf_member`, `struct btf_param`, `struct btf_var_secinfo`
pub record Member : Type 0 where
  pub name_off : ℕ
  pub type : ℕ
  pub offset : ℕ

pub record Param : Type 0 where
  pub name_off : ℕ
  pub type : ℕ

pub record VarSecinfo : Type 0 where
  pub type : ℕ

-- `struct btf_enum` and `struct btf_enum64`, fields as unsigned bit patterns
pub record EnumValue : Type 0 where
  pub name_off : ℕ
  pub val : ℕ

pub record Enum64Value : Type 0 where
  pub name_off : ℕ
  pub val_lo32 : ℕ
  pub val_hi32 : ℕ

pub record ArrayInfo : Type 0 where
  pub type : ℕ
  pub index_type : ℕ
  pub nelems : ℕ

-- `struct btf_type` with what follows it in the blob. `size` and `type` are one word in C, a union:
-- `ref` is that word. The lists hold the `vlen` entries of the kind that has them.
pub record BtfType : Type 0 where
  pub name_off : ℕ
  pub kind : Kind
  pub kflag : Bool
  pub ref : ℕ
  pub int_info : ℕ
  pub array_info : ArrayInfo
  pub members : List Member
  pub params : List Param
  pub vars : List VarSecinfo
  pub values : List EnumValue
  pub values64 : List Enum64Value

-- `btf__type_cnt`, `btf__type_by_id`, `btf__name_by_offset` and `btf__str_by_offset`; a null result
-- is `none`.
pub record Btf : Type 0 where
  pub type_cnt : ℕ
  pub type_by_id : ℕ → Option BtfType
  pub name_by_offset : ℕ → Option Text
  pub str_by_offset : ℕ → Option Text

-- `btf_vlen`, for the kinds whose entries the program counts
unfoldable pub vlen : BtfType → ℕ
vlen t = elim t.kind [
  | Kind.struct_k ↦ length t.members
  | Kind.union_k ↦ length t.members
  | Kind.enum ↦ length t.values
  | Kind.enum64 ↦ length t.values64
  | Kind.func_proto ↦ length t.params
  | Kind.datasec ↦ length t.vars
  | _ ↦ 0
]

or_empty : Option Text → Text
or_empty none = []
or_empty (some s) = s

unfoldable pub type_name : Btf → BtfType → Text
unfolding or_empty
type_name b t = if t.name_off == 0 then [] else or_empty (b.name_by_offset t.name_off)

unfoldable pub kind_name : Kind → Text
kind_name Kind.unkn = codes "UNKNOWN"
kind_name Kind.int = codes "INT"
kind_name Kind.ptr = codes "PTR"
kind_name Kind.array = codes "ARRAY"
kind_name Kind.struct_k = codes "STRUCT"
kind_name Kind.union_k = codes "UNION"
kind_name Kind.enum = codes "ENUM"
kind_name Kind.fwd = codes "FWD"
kind_name Kind.typedef = codes "TYPEDEF"
kind_name Kind.volatile_k = codes "VOLATILE"
kind_name Kind.const_k = codes "CONST"
kind_name Kind.restrict_k = codes "RESTRICT"
kind_name Kind.func = codes "FUNC"
kind_name Kind.func_proto = codes "FUNC_PROTO"
kind_name Kind.var = codes "VAR"
kind_name Kind.datasec = codes "DATASEC"
kind_name Kind.float = codes "FLOAT"
kind_name Kind.decl_tag = codes "DECL_TAG"
kind_name Kind.type_tag = codes "TYPE_TAG"
kind_name Kind.enum64 = codes "ENUM64"
kind_name (Kind.other n) = codes "UNKNOWN"

-- `kind == BTF_KIND_STRUCT || kind == BTF_KIND_UNION`
unfoldable pub is_record_kind : Kind → Bool
is_record_kind Kind.struct_k = true
is_record_kind Kind.union_k = true
is_record_kind _ = false
