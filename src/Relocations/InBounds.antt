-- ===== src/Relocations/InBounds.antt =====
-- The parsing of .BTF.ext reads only inside its bytes and always ends.
use min_corehdr.Prelude.{
  ℕ, zero, suc, ◌+◌, ◌-◌, ◌≤◌, ◌<◌, ◌≡◌, ◌≢◌, Bool, not, ◌||◌, Option, none, some, arith, ltb, ◌==◌,
  length, Text,
}
use min_corehdr.Errors.{Result, ok, failed}
use min_corehdr.Btf.{Kind, Btf}
use min_corehdr.Index.{Index}
use min_corehdr.Seeds.{Seeds}
use min_corehdr.Relocations.{
  CoreReloKind, BtfExt, same_order, in_context, core_relo_context, extract_relo, extract_relos,
  extract_sections, extract_all, extract_infos, extract_raw,
  extract_core_relo_seeds_with_requirements,
}
use min_corehdr.Relocations.Bytes.{
  Run, stuck, Holds, Any, ran-Holds, Holds-not_stuck, bind-Holds, then-Holds, Holds-mono,
  choice-Holds, if-Holds, read_u32-Holds, read_header-Holds,
}
use min_corehdr.Relocations.Places.{ExtInfo, CoreRelo, format_core_relo_location}
use min_corehdr.Relocations.Sections.{
  Fits, init_ext_info-Holds, read_relo-Holds, find_line_location-Holds, find_function_name-Holds,
}

module _ (little : Bool) (raw : Text) where
  module _ (relo_kind : ℕ → CoreReloKind) (number : Kind → ℕ) (alloc : ℕ → Bool) (index : Index)
      (object : Btf) (object_path : Text) (core_info func_info line_info : ExtInfo)
      (core_fits : Fits little raw 16 core_info) (func_fits : Fits little raw 8 func_info)
      (line_fits : Fits little raw 16 line_info) where
    in_context-Holds :
        {A : Type 0} (context : Run Text) (r : Result A)
        → Holds Any context
        → Holds Any (in_context context r)
    unfolding in_context
    in_context-Holds context (ok a) h = ran-Holds (ok a)
    in_context-Holds context (failed e) h =
        then-Holds Any context _ h (λ text. ran-Holds (failed e))

    core_relo_context-Holds :
        (sec_name_off : ℕ) (relo : CoreRelo) (relo_index i : ℕ)
        → Holds Any (
            core_relo_context relo_kind number alloc index object object_path little raw core_info
              func_info line_info sec_name_off relo relo_index i)
    unfolding core_relo_context
    core_relo_context-Holds sec_name_off relo relo_index i =
        then-Holds Any _ _
          (find_function_name-Holds little raw object func_info line_info func_fits line_fits
            sec_name_off relo.insn_off)
          (λ function.
            then-Holds Any _ _
              (find_line_location-Holds little raw object func_info line_info func_fits line_fits
                sec_name_off relo.insn_off)
              (λ place. ran-Holds _))

    format-Holds :
        (sec_name_off : ℕ) (relo : CoreRelo) (size : ℕ)
        → Holds Any
            (format_core_relo_location little raw object func_info line_info sec_name_off relo size)
    unfolding format_core_relo_location
    format-Holds sec_name_off relo size =
        then-Holds Any _ _
          (find_line_location-Holds little raw object func_info line_info func_fits line_fits
            sec_name_off relo.insn_off)
          (λ place.
            choice-Holds Any place.at _ _
              (then-Holds Any _ _
                (find_function_name-Holds little raw object func_info line_info func_fits line_fits
                  sec_name_off relo.insn_off)
                (λ function. ran-Holds _))
              (λ spot. ran-Holds _))

    extract_relo-Holds :
        (sec_name_off i : ℕ) (relo : CoreRelo) (s : Seeds)
        → Holds Any (
            extract_relo relo_kind number alloc index object object_path little raw core_info
              func_info line_info sec_name_off i relo s)
    unfolding extract_relo
    extract_relo-Holds sec_name_off i relo s =
        then-Holds Any _ _ (format-Holds sec_name_off relo 160)
          (λ location. in_context-Holds _ _ (core_relo_context-Holds sec_name_off relo _ i))

    -- A loop over relocations stays before the end.
    Ahead : ℕ → ℕ × Seeds → Type 0
    Ahead pos r = (pos ≤ r.0) × (r.0 ≤ core_info.end)

    extract_relos-Holds :
        (sec_name_off left i pos : ℕ) (s : Seeds)
        → pos ≤ core_info.end
        → 0 < core_info.end
        → Holds (Ahead pos) (
            extract_relos relo_kind number alloc index object object_path little raw core_info
              func_info line_info sec_name_off left i pos s)
    unfolding extract_relos Holds Ahead
    extract_relos-Holds sec_name_off zero i pos s before some_bytes = (omega arith, before)
    extract_relos-Holds sec_name_off (suc left) i pos s before some_bytes =
        if-Holds (Ahead pos) (ltb (core_info.end - pos) core_info.rec_size) _ _ (λ e. tt)
          (λ long.
            let wide = core_fits.wide some_bytes in
            let inside = core_fits.inside in
            let next : pos + core_info.rec_size ≤ core_info.end = ground (arith, long, before) in
            then-Holds (Ahead pos) _ _
              (read_relo-Holds little raw pos (omega (arith, next, wide, inside)))
              (λ relo. then-Holds (Ahead pos) _ _ (extract_relo-Holds sec_name_off i relo s) (λ s'.
                Holds-mono (Ahead (pos + core_info.rec_size)) (Ahead pos) _
                  (extract_relos-Holds sec_name_off left (i + 1) (pos + core_info.rec_size) s' next
                    some_bytes)
                  (λ r h. (omega (arith, h.0), h.1)))))

    extract_sections-Holds :
        (fuel pos : ℕ) (s : Seeds)
        → core_info.end - pos ≤ fuel
        → pos ≤ core_info.end
        → Holds
            (λ r. r.0 ≡ core_info.end)
            (extract_sections relo_kind number alloc index object object_path little raw core_info
              func_info line_info fuel pos s)
    unfolding extract_sections Holds Ahead
    extract_sections-Holds zero pos s enough before =
        if-Holds (λ r. r.0 ≡ core_info.end) (ltb pos core_info.end) _ _
          (λ e. absurd (ground (arith, e, enough))) (λ e. omega (arith, enough, before))
    extract_sections-Holds (suc fuel) pos s enough before =
        if-Holds (λ r. r.0 ≡ core_info.end) (not (ltb pos core_info.end)) _ _
          (λ e. ground (arith, e, before))
          (λ more.
            if-Holds (λ r. r.0 ≡ core_info.end) (ltb (core_info.end - pos) 8) _ _ (λ e. tt)
              (λ long.
                let eight : pos + 8 ≤ core_info.end = ground (arith, more, long) in
                let inside = core_fits.inside in
                then-Holds (λ r. r.0 ≡ core_info.end) _ _
                  (read_u32-Holds little raw pos (omega (arith, eight, inside)))
                  (λ sec_name_off.
                    then-Holds (λ r. r.0 ≡ core_info.end) _ _
                      (read_u32-Holds little raw (pos + 4) (omega (arith, eight, inside)))
                      (λ num_info.
                        bind-Holds (Ahead (pos + 8)) (λ r. r.0 ≡ core_info.end) _ _
                          (extract_relos-Holds sec_name_off num_info 0 (pos + 8) s eight
                            (omega (arith, eight)))
                          (λ r h.
                            extract_sections-Holds fuel r.0 r.1 (omega (arith, enough, h.0, eight))
                              h.1)))))

    extract_all-Holds :
        (s : Seeds)
        → Holds Any (
            extract_all relo_kind number alloc index object object_path little raw core_info
              func_info line_info s)
    unfolding extract_all
    extract_all-Holds s =
        bind-Holds (λ r. r.0 ≡ core_info.end) Any _ _
          (extract_sections-Holds (core_info.end - core_info.pos) core_info.pos s (omega arith)
            core_fits.ordered)
          (λ r e.
            if-Holds Any (not (r.0 == core_info.end)) _ _ (λ e. ran-Holds _) (λ e. ran-Holds _))

module _ (relo_kind : ℕ → CoreReloKind) (number : Kind → ℕ) (alloc : ℕ → Bool) (index : Index)
    (object : Btf) (object_path : Text) (little : Bool) where
  extract_raw-Holds :
      (raw : Text) (s : Seeds)
      → Holds Any (extract_raw relo_kind number alloc index object object_path little raw s)
  unfolding extract_raw extract_infos
  extract_raw-Holds raw s =
      if-Holds Any (ltb (length raw) 32) _ _ (λ e. ran-Holds _)
        (λ e. then-Holds Any _ _ (read_header-Holds little raw (ground (arith, e))) (λ header.
          if-Holds Any (not (header.magic == 60319) || not (header.version == 1)) _ _
            (λ e. ran-Holds _)
            (λ e.
              if-Holds Any (ltb header.hdr_len 32 || ltb (length raw) header.hdr_len) _ _
                (λ e. ran-Holds _)
                (λ e.
                  if-Holds Any (ltb header.hdr_len 32) _ _ (λ e. ran-Holds _)
                    (λ e.
                      if-Holds Any (header.core_relo_len == 0) _ _ (λ e. ran-Holds _)
                        (λ e.
                          bind-Holds (Fits little raw 16) Any _ _
                            (init_ext_info-Holds little raw _ _ _ 16 _ _)
                            (λ core_info core_fits.
                              bind-Holds (Fits little raw 8) Any _ _
                                (init_ext_info-Holds little raw _ _ _ 8 _ _)
                                (λ func_info func_fits.
                                  bind-Holds (Fits little raw 16) Any _ _
                                    (init_ext_info-Holds little raw _ _ _ 16 _ _)
                                    (λ line_info line_fits.
                                      extract_all-Holds little raw relo_kind number alloc index
                                        object object_path core_info func_info line_info core_fits
                                        func_fits line_fits s)))))))))

  -- For any bytes of .BTF.ext, any object and any state, the extraction from the CO-RE relocations
  -- returns a result: it makes no read outside the bytes, and its loops over the sections end.
  pub extract_core_relo_seeds-not_stuck :
      (ext : Option BtfExt) (s : Seeds)
      → extract_core_relo_seeds_with_requirements relo_kind number alloc index object object_path
          little ext s
        ≢ stuck
  unfolding extract_core_relo_seeds_with_requirements
  extract_core_relo_seeds-not_stuck none s = Holds-not_stuck Any _ (ran-Holds (ok s))
  extract_core_relo_seeds-not_stuck (some ext) s = Holds-not_stuck Any _ (
      if-Holds Any (not (same_order little ext.little_endian)) _ _ (λ e. ran-Holds _)
        (λ e. choice-Holds Any ext.raw_data _ _ (ran-Holds _) (λ raw. extract_raw-Holds raw s)))
