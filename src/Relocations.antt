-- ===== src/Relocations.antt =====
-- The CO-RE relocations of an object (src/seeds.c): each one makes a base type required, and the
-- members on its access path. `relo_kind` gives the constants of linux/bpf.h, `little` is the byte
-- order of the host.
pub mod Bytes
pub mod Places
pub mod Sections
pub mod InBounds
pub mod Extends
use min_corehdr.Prelude.{
  ℕ, zero, suc, ◌+◌, ◌-◌, ◌*◌, ◌/◌, ◌%◌, ◌^◌, ◌≤◌, ◌<◌, ◌≡◌, refl, sym, ap, ◌∙◌, ◌≢◌, ◌↔◌, ◌⊎◌, inl,
  inr, ⊎_elim, Bool, true, false, not, ◌&&◌, ◌||◌, Option, none, some, List, [], ◌∷◌, ◌++◌, Memᴰ,
  arith, ltb, leb, ◌==◌, if◌then◌else◌, ltb→lt, lt→ltb, leb→le, ==_iff, Bool-cases, Option-cases,
  List-cases, get_elem?, get_or, set, replicate, is_null, length, length-append, length-set,
  length-replicate, get_or-set, get_or-replicate, get_elem?-get_or, get_elem?-append_left,
  get_elem?-append_last, Memᴰ-cons, Memᴰ-concat, Memᴰ-one, not-Memᴰ-nil, Text, codes, is_empty,
  text_eq, text_eq_iff,
}
use min_corehdr.Prelude.Decimal.{decimal}
use min_corehdr.Prelude.Buffer.{truncated}
use min_corehdr.Errors.{Failure, Result, ok, failed, ◌>>=◌}
use min_corehdr.Btf.{Kind, Btf, BtfType, type_name}
use min_corehdr.TypeSet
use min_corehdr.TypeSet.{TypeSet, u64}
use min_corehdr.Requirements.{Requirements, Source, Origin, add_type_root}
use min_corehdr.Index.{Index}
use min_corehdr.Seeds.{Seeds, SeedStats, resolve_object_type_to_base}
use min_corehdr.Seeds.Access.{Marked, record_access}
use min_corehdr.Relocations.Bytes.{Run, stuck, ran, bind, read_u32, Header, read_header}
use min_corehdr.Relocations.Places.{
  ExtInfo, absent, CoreRelo, init_ext_info, read_relo, find_line_location, find_function_name,
  line_text, text_or, section_at, function_or_section, format_core_relo_location,
}

-- `enum bpf_core_relo_kind`
pub data CoreReloKind : Type 0 where
  field_byte_offset field_byte_size field_exists field_signed field_lshift_u64 field_rshift_u64 :
      CoreReloKind
  type_id_local type_id_target type_exists type_size type_matches : CoreReloKind
  enumval_exists enumval_value unknown : CoreReloKind

unfoldable pub core_relo_kind_name : CoreReloKind → Text
core_relo_kind_name CoreReloKind.field_byte_offset = codes "FIELD_BYTE_OFFSET"
core_relo_kind_name CoreReloKind.field_byte_size = codes "FIELD_BYTE_SIZE"
core_relo_kind_name CoreReloKind.field_exists = codes "FIELD_EXISTS"
core_relo_kind_name CoreReloKind.field_signed = codes "FIELD_SIGNED"
core_relo_kind_name CoreReloKind.field_lshift_u64 = codes "FIELD_LSHIFT_U64"
core_relo_kind_name CoreReloKind.field_rshift_u64 = codes "FIELD_RSHIFT_U64"
core_relo_kind_name CoreReloKind.type_id_local = codes "TYPE_ID_LOCAL"
core_relo_kind_name CoreReloKind.type_id_target = codes "TYPE_ID_TARGET"
core_relo_kind_name CoreReloKind.type_exists = codes "TYPE_EXISTS"
core_relo_kind_name CoreReloKind.type_size = codes "TYPE_SIZE"
core_relo_kind_name CoreReloKind.enumval_exists = codes "ENUMVAL_EXISTS"
core_relo_kind_name CoreReloKind.enumval_value = codes "ENUMVAL_VALUE"
core_relo_kind_name CoreReloKind.type_matches = codes "TYPE_MATCHES"
core_relo_kind_name CoreReloKind.unknown = codes "UNKNOWN"

unfoldable pub is_field_relo_kind : CoreReloKind → Bool
is_field_relo_kind CoreReloKind.field_byte_offset = true
is_field_relo_kind CoreReloKind.field_byte_size = true
is_field_relo_kind CoreReloKind.field_exists = true
is_field_relo_kind CoreReloKind.field_signed = true
is_field_relo_kind CoreReloKind.field_lshift_u64 = true
is_field_relo_kind CoreReloKind.field_rshift_u64 = true
is_field_relo_kind _ = false

-- What libbpf answers for .BTF.ext: its byte order and its bytes.
pub record BtfExt : Type 0 where
  pub little_endian : Bool
  pub raw_data : Option Text

-- A failure after which the program looks up the context of the relocation, by a run of its own.
unfoldable pub in_context : {A : Type 0} → Run Text → Result A → Run A
in_context context (ok a) = ran (ok a)
in_context context (failed e) = bind context (λ text. ran (failed e))

unfoldable pub same_order : Bool → Bool → Bool
same_order true c = c
same_order false c = not c

module _ (relo_kind : ℕ → CoreReloKind) (number : Kind → ℕ) (alloc : ℕ → Bool) (index : Index)
    (object : Btf) (object_path : Text) (little : Bool) where
  -- An index without a BTF has no entries, so no relocation is resolved by it and gets here.
  unfoldable pub record_core_relo_requirements : CoreRelo → ℕ → Origin → Marked → Result Marked
  record_core_relo_requirements relo base_id origin st = elim st.requirements [
    | none ↦ ok st
    | some requirements ↦
        if not (is_field_relo_kind (relo_kind relo.kind)) then ok st else elim origin.access [
          | none ↦ ok st
          | some access ↦ if is_empty access then ok st else elim index.btf [
            | none ↦ failed Failure.access_not_through_records
            | some base ↦
                record_access alloc base (some origin) object access relo.type_id base_id st
          ]
        ]
  ]

  -- The relocation's type and members join the seeds and the requirements.
  unfoldable pub require_relo : CoreRelo → Origin → Seeds → Result Seeds
  require_relo relo origin s =
      resolve_object_type_to_base number index object relo.type_id false >>= (λ found.
        let base_id : ℕ = elim found [ some id ↦ id | none ↦ 0 ] in
        let (fresh, seeds) = TypeSet.add s.seeds base_id in
        let counted =
          if fresh then u64 (s.stats.core_kernel_types + 1) else s.stats.core_kernel_types in
        add_type_root alloc s.requirements base_id (some origin) >>= (λ requirements.
          record_core_relo_requirements relo base_id origin
            (record { seeds = seeds; requirements = requirements })
          >>= (λ marked. ok (record {
            seeds = marked.seeds;
            requirements = marked.requirements;
            stats = record s.stats { core_kernel_types = counted };
          }))))

  module _ (raw : Text) (core_info func_info line_info : ExtInfo) where
    -- The text of the context line.
    unfoldable pub core_relo_context : ℕ → CoreRelo → ℕ → ℕ → Run Text
    core_relo_context sec_name_off relo relo_index section_relo_index =
        bind (find_function_name little raw object func_info sec_name_off relo.insn_off)
          (λ function.
            bind (find_line_location little raw object line_info sec_name_off relo.insn_off)
              (λ place.
                let location = truncated 160 (elim place.at [
                  | some spot ↦ line_text little raw object place.file_name spot
                  | none ↦ function_or_section little raw object sec_name_off function
                ]) in
                let named : Text = elim function [
                  | none ↦ []
                  | some name ↦ elim place.file_name [
                    | none ↦ []
                    | some file ↦ codes "function: " ++ (name ++ codes ", ")
                  ]
                ] in
                let access =
                  text_or little raw object (codes "<none>")
                    (object.str_by_offset relo.access_str_off) in
                ran (
                  ok (
                    truncated 512 (
                      location
                      ++ (codes " ("
                          ++ (named
                              ++ (codes "section: "
                                  ++ (section_at little raw object sec_name_off
                                      ++ (codes ", insn: "
                                          ++ (decimal relo.insn_off
                                              ++ (codes ", CO-RE "
                                                  ++ (core_relo_kind_name (relo_kind relo.kind)
                                                      ++ (codes ", access: "
                                                          ++ (access
                                                            ++ (codes ", type_id: "
                                                            ++ (decimal relo.type_id
                                                            ++ (codes ", relo: #"
                                                            ++ (decimal relo_index
                                                            ++ (codes ", section relo: #"
                                                            ++ (decimal (section_relo_index + 1)
                                                            ++ codes ")")))))))))))))))))))))

    pub relo_origin : CoreRelo → Text → Origin
    relo_origin relo location = record {
      source = Source.core_relo;
      object_path = some object_path;
      detail = some (core_relo_kind_name (relo_kind relo.kind));
      access = object.str_by_offset relo.access_str_off;
      location = some location;
    }

    unfoldable pub count_relo : Seeds → Seeds
    count_relo s = record s {
      stats = record s.stats { core_relocations = u64 (s.stats.core_relocations + 1) };
    }

    -- The body of the inner loop behind the read of the relocation.
    unfoldable pub extract_relo : ℕ → ℕ → CoreRelo → Seeds → Run Seeds
    unfolding relo_origin
    extract_relo sec_name_off i relo s =
        bind (format_core_relo_location little raw object func_info line_info sec_name_off relo 160)
          (λ location.
            in_context (core_relo_context sec_name_off relo (u64 (s.stats.core_relocations + 1)) i)
              (require_relo relo (relo_origin relo location) (count_relo s)))

    -- The loop over the relocations of a section: `left` of them, the next one is number `i`.
    unfoldable pub extract_relos : ℕ → ℕ → ℕ → ℕ → Seeds → Run (ℕ × Seeds)
    extract_relos sec_name_off zero i pos s = ran (ok (pos, s))
    extract_relos sec_name_off (suc left) i pos s =
        if ltb (core_info.end - pos) core_info.rec_size
        then ran (failed Failure.relocations_truncated)
        else bind (read_relo little raw pos) (λ relo.
          bind (extract_relo sec_name_off i relo s)
            (λ s. extract_relos sec_name_off left (i + 1) (pos + core_info.rec_size) s))

    -- The loop over the sections.
    unfoldable pub extract_sections : ℕ → ℕ → Seeds → Run (ℕ × Seeds)
    extract_sections zero pos s = if ltb pos core_info.end then stuck else ran (ok (pos, s))
    extract_sections (suc fuel) pos s =
        if not (ltb pos core_info.end)
        then ran (ok (pos, s))
        else if ltb (core_info.end - pos) 8
        then ran (failed Failure.relocation_section_truncated)
        else bind (read_u32 little raw pos) (λ sec_name_off.
          bind (read_u32 little raw (pos + 4)) (λ num_info.
            bind (extract_relos sec_name_off num_info 0 (pos + 8) s)
              (λ r. extract_sections fuel r.0 r.1)))

    unfoldable pub extract_all : Seeds → Run Seeds
    extract_all s = bind (extract_sections (core_info.end - core_info.pos) core_info.pos s) (λ r.
        if not (r.0 == core_info.end)
        then ran (failed Failure.relocations_trailing)
        else ran (ok r.1))

  -- The part behind the checks of the header.
  unfoldable pub extract_infos : Text → Header → Seeds → Run Seeds
  extract_infos raw header s =
      bind
        (init_ext_info little raw header.hdr_len header.core_relo_off header.core_relo_len 16
          (codes "CO-RE relocation") true)
        (λ core_info.
          bind
            (init_ext_info little raw header.hdr_len header.func_info_off header.func_info_len 8
              (codes "function info") false)
            (λ func_info.
              bind
                (init_ext_info little raw header.hdr_len header.line_info_off header.line_info_len
                  16 (codes "line info") false)
                (λ line_info. extract_all raw core_info func_info line_info s)))

  unfoldable pub extract_raw : Text → Seeds → Run Seeds
  extract_raw raw s =
      if ltb (length raw) 32
      then ran (failed Failure.ext_missing)
      else bind (read_header little raw) (λ header.
        if not (header.magic == 60319) || not (header.version == 1)
        then ran (failed Failure.ext_unsupported_header)
        else if ltb header.hdr_len 32 || ltb (length raw) header.hdr_len
        then ran (failed Failure.ext_unsupported_header_length)
        else if ltb header.hdr_len 32
        then ran (failed Failure.ext_header_truncated)
        else if header.core_relo_len == 0
        then ran (ok s)
        else extract_infos raw header s)

  unfoldable pub extract_core_relo_seeds_with_requirements : Option BtfExt → Seeds → Run Seeds
  extract_core_relo_seeds_with_requirements none s = ran (ok s)
  extract_core_relo_seeds_with_requirements (some ext) s =
      if not (same_order little ext.little_endian)
      then ran (failed Failure.endianness_differs)
      else elim ext.raw_data [
        | none ↦ ran (failed Failure.ext_missing)
        | some raw ↦ extract_raw raw s
      ]

  unfoldable pub extract_core_relo_seeds : Option BtfExt → TypeSet → SeedStats → Run Seeds
  extract_core_relo_seeds object_ext seeds stats =
      extract_core_relo_seeds_with_requirements object_ext
        (record { seeds = seeds; requirements = none; stats = stats })
