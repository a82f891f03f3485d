-- ===== src/Tests/Relocating.antt =====
-- An object with one CO-RE relocation: a run, and the theorem on it.
use min_corehdr.Prelude.{
  ℕ, zero, ◌≡◌, refl, ◌≢◌, true, Option, none, some, List, [], ◌∷◌, ◌++◌, Text, codes,
}
use min_corehdr.Errors.{ok, failed}
use min_corehdr.TypeSet
use min_corehdr.Seeds.{Seeds, stats_init}
use min_corehdr.Relocations
use min_corehdr.Relocations.{CoreReloKind, BtfExt}
use min_corehdr.Relocations.Bytes
use min_corehdr.Relocations.Bytes.{Run, stuck, ran}
use min_corehdr.Relocations.Places
use min_corehdr.Relocations.InBounds.{extract_core_relo_seeds-not_stuck}
use min_corehdr.Prelude.Buffer.{truncated, take_bytes}
use min_corehdr.Tests.{always, sample}
use min_corehdr.Tests.Indexes.{number, index}
use min_corehdr.Tests.Seeding

-- Some numbers for the kinds, as in linux/bpf.h.
unfoldable pub relo_kind : ℕ → CoreReloKind
relo_kind zero = CoreReloKind.field_byte_offset
relo_kind n = CoreReloKind.unknown

-- A number of four bytes, the lowest one first.
abbrev pub word : ℕ → List ℕ
word n = n ∷ 0 ∷ 0 ∷ 0 ∷ []

-- The header, then a section with one relocation of type 1.
abbrev pub raw : Text
raw =
    (159 ∷ 235 ∷ 1 ∷ 0 ∷ [])
    ++ (word 32
        ++ (word 0
            ++ (word 0
                ++ (word 0
                    ++ (word 0
                        ++ (word 0
                            ++ (word 28
                                ++ (word 16
                                    ++ (word 2
                                        ++ (word 1
                                            ++ (word 8 ++ (word 1 ++ (word 0 ++ word 0)))))))))))))

abbrev pub ext : Option BtfExt
ext = some (record { little_endian = true; raw_data = some raw })

abbrev fresh : Seeds
fresh = record { seeds = (TypeSet.init always 5).1; requirements = none; stats = stats_init }

found : Run Seeds
found =
    Relocations.extract_core_relo_seeds_with_requirements relo_kind number always index sample
      (codes "a.o") true ext fresh

relocated : Run Seeds
relocated =
    Relocations.extract_core_relo_seeds relo_kind number always index sample (codes "a.o") true ext
      fresh.seeds stats_init

counted : Run Seeds → List ℕ × (ℕ × ℕ)
counted stuck = ([], (0, 0))
counted (ran (failed e)) = ([], (0, 0))
counted (ran (ok s)) =
    (TypeSet.iterate 5 s.seeds 1, (s.stats.core_relocations, s.stats.core_kernel_types))

unfoldable pub runs : Unit {0}
unfolding Seeding.runs relo_kind truncated take_bytes Bytes.bind Bytes.number_of Bytes.bytes_at
    Bytes.read Bytes.read_u32 Bytes.read_header Places.refuse Places.init_ext_info
    Places.section_loop Places.find_ext_info_section Places.read_relo Places.read_line_info
    Places.read_func_info Places.better Places.best_of Places.line_of Places.location_of
    Places.find_line_location Places.function_name_of Places.find_function_name Places.line_text
    Places.text_or Places.section_at Places.function_or_section Places.format_core_relo_location
    Relocations.core_relo_kind_name Relocations.is_field_relo_kind Relocations.in_context
    Relocations.same_order Relocations.record_core_relo_requirements Relocations.require_relo
    Relocations.core_relo_context Relocations.count_relo Relocations.extract_relo
    Relocations.extract_relos Relocations.extract_sections Relocations.extract_all
    Relocations.extract_infos Relocations.extract_raw
    Relocations.extract_core_relo_seeds_with_requirements Relocations.extract_core_relo_seeds
runs = tt

relocating_runs : (counted found ≡ (1 ∷ [], (1, 1))) × (counted relocated ≡ (1 ∷ [], (1, 1)))
unfolding runs found relocated counted
relocating_runs = (refl, refl)

extract_core_relo_seeds-not_stuck_example :
    Relocations.extract_core_relo_seeds_with_requirements relo_kind number always index sample
      (codes "a.o")
      true
      ext
      fresh
    ≢ stuck
extract_core_relo_seeds-not_stuck_example =
    extract_core_relo_seeds-not_stuck relo_kind number always index sample (codes "a.o") true ext
      fresh
