-- ===== src/Loader.antt =====
-- The loading of BTF files (src/btf_loader.c, include/min_corehdr/btf_loader.h). libbpf's parsers are
-- parameters, and so is `strerror`.
use min_corehdr.Prelude.{ℕ, not, Option, none, some, ◌==◌, if◌then◌else◌, Text}
use min_corehdr.Errors.{Failure, Result, ok, failed}
use min_corehdr.Btf.{Btf}
use min_corehdr.Relocations.{BtfExt}

-- What a parser of libbpf leaves: the pointer, what `libbpf_get_error` says of it without its sign,
-- and `errno`.
pub record Parsed (A : Type 0) : Type 0 where
  pub handle : Option A
  pub libbpf_err : ℕ
  pub errno : ℕ

-- `mch_btf_doc`
pub record Doc : Type 0 where
  pub btf : Option Btf
  pub ext : Option BtfExt
  pub path : Option Text

abbrev pub doc_init : Doc
doc_init = record { btf = none; ext = none; path = none }

-- The BTF data is freed.
unfoldable pub doc_destroy : Option Doc → Option Doc
doc_destroy none = none
doc_destroy (some doc) = some doc_init

unfoldable pub error_code : {A : Type 0} → Parsed A → ℕ
error_code parsed = if not (parsed.libbpf_err == 0) then parsed.libbpf_err else parsed.errno

unfoldable pub load_base_btf : (Text → Parsed Btf) → (ℕ → Text) → Text → Result Doc
load_base_btf parse strerror path =
    let parsed = parse path in
    let failure = Failure.base_not_parsed (strerror (error_code parsed)) in
    elim parsed.handle [
      | none ↦ failed failure
      | some btf ↦
          if not (parsed.libbpf_err == 0)
          then failed failure
          else ok (record doc_init { btf = some btf; path = some path })
    ]

-- `btf__parse_elf` gives the contents of .BTF.ext as well.
unfoldable pub load_object_btf :
    (Text → Parsed Btf × Option BtfExt) → (ℕ → Text) → Text → Result Doc
load_object_btf parse_elf strerror path =
    let parsed = (parse_elf path).0 in
    let failure = Failure.object_not_parsed (strerror (error_code parsed)) in
    elim parsed.handle [
      | none ↦ failed failure
      | some btf ↦
          if not (parsed.libbpf_err == 0)
          then failed failure
          else ok (record { btf = some btf; ext = (parse_elf path).1; path = some path })
    ]
