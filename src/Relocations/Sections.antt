-- ===== src/Relocations/Sections.antt =====
-- The sections of .BTF.ext are read only inside its bytes.
use min_corehdr.Prelude.{
  ℕ, zero, suc, ◌+◌, ◌-◌, ◌*◌, ◌/◌, ◌≤◌, ◌<◌, Bool, true, false, not, ◌&&◌, ◌||◌, Option, none,
  some, arith, ltb, ◌==◌, length, Text,
}
use native.Mathlib.Nat.{le-div_iff_mul-le, suc-mul}
use min_corehdr.Errors.{Failure}
use min_corehdr.Btf.{Btf}
use min_corehdr.Relocations.Bytes.{
  Run, Holds, Any, ran-Holds, bind-Holds, then-Holds, if-Holds, read_u32, read_u32-Holds,
}
use min_corehdr.Relocations.Places.{
  ExtInfo, absent, refuse, init_ext_info, section_loop, find_ext_info_section, read_relo,
  read_line_info, read_func_info, best_of, find_line_location, find_function_name,
}

module _ (little : Bool) (raw : Text) where
  -- The records of a section of .BTF.ext lie inside the bytes and have at least `min` bytes each.
  pub record Fits (min : ℕ) (info : ExtInfo) : Type 0 where
    pub inside : info.end ≤ length raw
    pub ordered : info.pos ≤ info.end
    pub wide : 0 < info.end → min ≤ info.rec_size

  absent-Fits : (min : ℕ) → Fits min absent
  absent-Fits min = record {
    inside = omega arith;
    ordered = omega arith;
    wide = λ h. absurd (omega (arith, h));
  }

  refuse-Holds : (min : ℕ) (required : Bool) (e : Failure) → Holds (Fits min) (refuse required e)
  unfolding refuse Holds
  refuse-Holds min true e = tt
  refuse-Holds min false e = absent-Fits min

  pub init_ext_info-Holds :
      (hdr_len off len min : ℕ) (label : Text) (required : Bool)
      → Holds (Fits min) (init_ext_info little raw hdr_len off len min label required)
  unfolding init_ext_info Holds
  init_ext_info-Holds hdr_len off len min label required =
      if-Holds (Fits min) (len == 0) _ _ (λ e. absent-Fits min)
        (λ e.
          if-Holds (Fits min)
            (ltb (length raw) hdr_len
              || (ltb (length raw - hdr_len) off || ltb (length raw - hdr_len - off) len))
            _ _ (λ e. refuse-Holds min required _)
            (λ fit.
              let inside : hdr_len + off + len ≤ length raw = ground (arith, fit) in
              if-Holds (Fits min) (ltb len 4) _ _ (λ e. refuse-Holds min required _)
                (λ long.
                  let four : 4 ≤ len = ground (arith, long) in
                  then-Holds (Fits min) (read_u32 little raw (hdr_len + off)) _
                    (read_u32-Holds little raw (hdr_len + off) (omega (arith, inside, four)))
                    (λ rec_size.
                      if-Holds (Fits min) (ltb rec_size min) _ _ (λ e. refuse-Holds min required _)
                        (λ wide. record {
                          inside = inside;
                          ordered = omega (arith, four);
                          wide = λ h. ground (arith, wide);
                        })))))

  -- A section that is found has its records before the end.
  pub InRange : ExtInfo → Option (ℕ × ℕ) → Type 0
  InRange info none = Unit {0}
  InRange info (some (at, num_info)) = (at + num_info * info.rec_size ≤ info.end) × (0 < info.end)

  module _ (info : ExtInfo) (min : ℕ) (fits : Fits min info) (some_bytes : 0 < min) where
    section_loop-Holds :
        (sec_name_off fuel pos : ℕ)
        → info.end - pos ≤ fuel
        → Holds (InRange info) (section_loop little raw info sec_name_off fuel pos)
    unfolding section_loop Holds InRange
    section_loop-Holds name zero pos enough =
        if-Holds (InRange info) (ltb pos info.end) _ _ (λ e. absurd (ground (arith, e, enough)))
          (λ e. tt)
    section_loop-Holds name (suc fuel) pos enough =
        if-Holds (InRange info) (not (ltb pos info.end)) _ _ (λ e. tt)
          (λ more.
            if-Holds (InRange info) (ltb (info.end - pos) 8) _ _ (λ e. tt)
              (λ long.
                let eight : pos + 8 ≤ info.end = ground (arith, more, long) in
                let inside = fits.inside in
                then-Holds (InRange info) (read_u32 little raw pos) _
                  (read_u32-Holds little raw pos (omega (arith, eight, inside)))
                  (λ name_off.
                    then-Holds (InRange info) (read_u32 little raw (pos + 4)) _
                      (read_u32-Holds little raw (pos + 4) (omega (arith, eight, inside)))
                      (λ num_info.
                        if-Holds (InRange info)
                          (not (info.rec_size == 0)
                            && ltb ((info.end - (pos + 8)) / info.rec_size) num_info)
                          _ _ (λ e. tt)
                          (λ few.
                            let some_size : 0 < info.rec_size =
                              omega (arith, fits.wide (omega (arith, eight)), some_bytes) in
                            let least : num_info ≤ (info.end - (pos + 8)) / info.rec_size =
                              ground (arith, few, some_size) in
                            let room = (le-div_iff_mul-le some_size).0 least in
                            if-Holds (InRange info) (name_off == name) _ _
                              (λ e. (omega (arith, room, eight), omega (arith, eight)))
                              (λ e.
                                section_loop-Holds name fuel (pos + 8 + num_info * info.rec_size)
                                  (omega (arith, enough, eight))))))))

    pub find_ext_info_section-Holds :
        (sec_name_off : ℕ)
        → Holds (InRange info) (find_ext_info_section little raw info sec_name_off)
    unfolding find_ext_info_section Holds InRange
    find_ext_info_section-Holds name =
        if-Holds (InRange info) (not info.present) _ _ (λ e. tt)
          (λ e. section_loop-Holds name (info.end - info.pos) info.pos (omega arith))

    module _ {A : Type 0} (read_info : ℕ → Run A) (insn_of : A → ℕ) (insn_off : ℕ)
        (reads : (at : ℕ) → at + min ≤ length raw → Holds Any (read_info at)) where
      best_of-Holds :
          (left at : ℕ) (best : Option A)
          → at + left * info.rec_size ≤ info.end
          → 0 < info.end
          → Holds Any (best_of little raw read_info insn_of insn_off info.rec_size left at best)
      unfolding best_of
      best_of-Holds zero at best room pos = ran-Holds _
      best_of-Holds (suc left) at best room pos =
          let next = suc-mul left info.rec_size in
          let wide = fits.wide pos in
          let inside = fits.inside in
          then-Holds Any (read_info at) _ (reads at (omega (arith, room, next, wide, inside)))
            (λ current. best_of-Holds left (at + info.rec_size) _ (omega (arith, room, next)) pos)

  pub read_relo-Holds : (at : ℕ) → at + 16 ≤ length raw → Holds Any (read_relo little raw at)
  unfolding read_relo
  read_relo-Holds at room =
      then-Holds Any _ _ (read_u32-Holds little raw at (omega (arith, room))) (λ _.
        then-Holds Any _ _ (read_u32-Holds little raw (at + 4) (omega (arith, room))) (λ _.
          then-Holds Any _ _ (read_u32-Holds little raw (at + 8) (omega (arith, room))) (λ _.
            then-Holds Any _ _ (read_u32-Holds little raw (at + 12) (omega (arith, room)))
              (λ _. ran-Holds _))))

  read_line_info-Holds : (at : ℕ) → at + 16 ≤ length raw → Holds Any (read_line_info little raw at)
  unfolding read_line_info
  read_line_info-Holds at room =
      then-Holds Any _ _ (read_u32-Holds little raw at (omega (arith, room))) (λ _.
        then-Holds Any _ _ (read_u32-Holds little raw (at + 4) (omega (arith, room))) (λ _.
          then-Holds Any _ _ (read_u32-Holds little raw (at + 8) (omega (arith, room))) (λ _.
            then-Holds Any _ _ (read_u32-Holds little raw (at + 12) (omega (arith, room)))
              (λ _. ran-Holds _))))

  read_func_info-Holds : (at : ℕ) → at + 8 ≤ length raw → Holds Any (read_func_info little raw at)
  unfolding read_func_info
  read_func_info-Holds at room =
      then-Holds Any _ _ (read_u32-Holds little raw at (omega (arith, room))) (λ _.
        then-Holds Any _ _ (read_u32-Holds little raw (at + 4) (omega (arith, room)))
          (λ _. ran-Holds _))

  found-Holds :
      {A : Type 0} (info : ExtInfo) (found : Option (ℕ × ℕ)) (nothing : Run A)
      (next : ℕ × ℕ → Run A)
      → InRange info found
      → Holds Any nothing
      → ((at num_info : ℕ)
          → at + num_info * info.rec_size ≤ info.end
          → 0 < info.end
          → Holds Any (next (at, num_info)))
      → Holds Any (elim found [ none ↦ nothing | some r ↦ next r ])
  unfolding InRange
  found-Holds info none nothing next h p q = p
  found-Holds info (some (at, num_info)) nothing next h p q = q at num_info h.0 h.1

  module _ (object : Btf) (func_info line_info : ExtInfo) (func_fits : Fits 8 func_info)
      (line_fits : Fits 16 line_info) (sec_name_off insn_off : ℕ) where
    pub find_line_location-Holds :
        Holds Any (find_line_location little raw object line_info sec_name_off insn_off)
    unfolding find_line_location InRange
    find_line_location-Holds =
        bind-Holds (InRange line_info) Any _ _
          (find_ext_info_section-Holds line_info 16 line_fits (omega arith) sec_name_off)
          (λ found h.
            found-Holds line_info found _ _ h (ran-Holds _) (λ at num_info room some_bytes.
              then-Holds Any _ _
                (best_of-Holds line_info 16 line_fits (omega arith) (read_line_info little raw)
                  (λ i. i.insn_off) insn_off read_line_info-Holds num_info at none room some_bytes)
                (λ best. ran-Holds _)))

    pub find_function_name-Holds :
        Holds Any (find_function_name little raw object func_info sec_name_off insn_off)
    unfolding find_function_name InRange
    find_function_name-Holds =
        bind-Holds (InRange func_info) Any _ _
          (find_ext_info_section-Holds func_info 8 func_fits (omega arith) sec_name_off)
          (λ found h.
            found-Holds func_info found _ _ h (ran-Holds _) (λ at num_info room some_bytes.
              then-Holds Any _ _
                (best_of-Holds func_info 8 func_fits (omega arith) (read_func_info little raw)
                  (λ i. i.insn_off) insn_off read_func_info-Holds num_info at none room some_bytes)
                (λ best. ran-Holds _)))
