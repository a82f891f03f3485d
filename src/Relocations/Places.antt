-- ===== src/Relocations/Places.antt =====
-- The sections of .BTF.ext and what they tell of an instruction: its line, its function
-- (src/seeds.c). Positions are offsets into the raw bytes.
use min_corehdr.Prelude.{
  ℕ, zero, suc, ◌+◌, ◌-◌, ◌*◌, ◌/◌, ◌%◌, ◌^◌, Bool, true, false, not, ◌&&◌, ◌||◌, Option, none,
  some, [], ◌∷◌, ◌++◌, ltb, leb, ◌==◌, if◌then◌else◌, length, Text, codes, is_empty,
}
use min_corehdr.Prelude.Decimal.{decimal}
use min_corehdr.Prelude.Buffer.{truncated}
use min_corehdr.Errors.{Failure, ok, failed}
use min_corehdr.Btf.{Kind, Btf, type_name}
use min_corehdr.Relocations.Bytes.{Run, stuck, ran, bind, read_u32}

-- `mch_ext_info`
pub record ExtInfo : Type 0 where
  pub pos : ℕ
  pub end : ℕ
  pub rec_size : ℕ
  pub present : Bool

abbrev pub absent : ExtInfo
absent = record { pos = 0; end = 0; rec_size = 0; present = false }

-- A section that is required fails, another one is left out.
unfoldable pub refuse : Bool → Failure → Run ExtInfo
refuse required failure = if required then ran (failed failure) else ran (ok absent)

-- `bpf_core_relo`
pub record CoreRelo : Type 0 where
  pub insn_off : ℕ
  pub type_id : ℕ
  pub access_str_off : ℕ
  pub kind : ℕ

-- `bpf_line_info`
pub record LineInfo : Type 0 where
  pub insn_off : ℕ
  pub file_name_off : ℕ
  pub line_off : ℕ
  pub line_col : ℕ

-- `bpf_func_info`
pub record FuncInfo : Type 0 where
  pub insn_off : ℕ
  pub type_id : ℕ

-- What `find_line_location` leaves in `file_name`, and the line and the column if it finds one.
pub record FoundLine : Type 0 where
  pub file_name : Option Text
  pub at : Option (ℕ × ℕ)

abbrev pub no_line : FoundLine
no_line = record { file_name = none; at = none }

module _ (little : Bool) (raw : Text) where
  unfoldable pub init_ext_info : ℕ → ℕ → ℕ → ℕ → Text → Bool → Run ExtInfo
  unfolding refuse
  init_ext_info hdr_len off len min_rec_size label required =
      let raw_size = length raw in
      if len == 0
      then ran (ok absent)
      else if ltb raw_size hdr_len
          || (ltb (raw_size - hdr_len) off || ltb (raw_size - hdr_len - off) len)
      then refuse required (Failure.ext_out_of_bounds label)
      else if ltb len 4
      then refuse required (Failure.ext_truncated label)
      else bind (read_u32 little raw (hdr_len + off)) (λ rec_size.
        if ltb rec_size min_rec_size
        then refuse required (Failure.ext_record_size label)
        else ran (
            ok (record {
              pos = hdr_len + off + 4;
              end = hdr_len + off + len;
              rec_size = rec_size;
              present = true;
            })))

  -- The loop of `find_ext_info_section`: where the records of the section stand, and their number.
  unfoldable pub section_loop : ExtInfo → ℕ → ℕ → ℕ → Run (Option (ℕ × ℕ))
  section_loop info sec_name_off zero pos = if ltb pos info.end then stuck else ran (ok none)
  section_loop info sec_name_off (suc fuel) pos =
      if not (ltb pos info.end)
      then ran (ok none)
      else if ltb (info.end - pos) 8
      then ran (ok none)
      else bind (read_u32 little raw pos) (λ name_off.
        bind (read_u32 little raw (pos + 4)) (λ num_info.
          if not (info.rec_size == 0) && ltb ((info.end - (pos + 8)) / info.rec_size) num_info
          then ran (ok none)
          else if name_off == sec_name_off
          then ran (ok (some (pos + 8, num_info)))
          else section_loop info sec_name_off fuel (pos + 8 + num_info * info.rec_size)))

  unfoldable pub find_ext_info_section : ExtInfo → ℕ → Run (Option (ℕ × ℕ))
  find_ext_info_section info sec_name_off =
      if not info.present
      then ran (ok none)
      else section_loop info sec_name_off (info.end - info.pos) info.pos

  unfoldable pub read_relo : ℕ → Run CoreRelo
  read_relo at = bind (read_u32 little raw at) (λ insn_off.
      bind (read_u32 little raw (at + 4)) (λ type_id.
        bind (read_u32 little raw (at + 8)) (λ access_str_off.
          bind (read_u32 little raw (at + 12)) (λ kind. ran (
            ok (record {
              insn_off = insn_off;
              type_id = type_id;
              access_str_off = access_str_off;
              kind = kind;
            }))))))

  unfoldable pub read_line_info : ℕ → Run LineInfo
  read_line_info at = bind (read_u32 little raw at) (λ insn_off.
      bind (read_u32 little raw (at + 4)) (λ file_name_off.
        bind (read_u32 little raw (at + 8)) (λ line_off.
          bind (read_u32 little raw (at + 12)) (λ line_col. ran (
            ok (record {
              insn_off = insn_off;
              file_name_off = file_name_off;
              line_off = line_off;
              line_col = line_col;
            }))))))

  unfoldable pub read_func_info : ℕ → Run FuncInfo
  read_func_info at = bind (read_u32 little raw at) (λ insn_off.
      bind (read_u32 little raw (at + 4))
        (λ type_id. ran (ok (record { insn_off = insn_off; type_id = type_id }))))

  module _ {A : Type 0} (read_info : ℕ → Run A) (insn_of : A → ℕ) (insn_off rec_size : ℕ) where
    -- A record at or below the instruction takes the place of the best one unless it is below that.
    unfoldable pub better : Option A → A → Option A
    better none current = if ltb insn_off (insn_of current) then none else some current
    better (some best) current =
        if ltb insn_off (insn_of current)
        then some best
        else if leb (insn_of best) (insn_of current)
        then some current
        else some best

    -- The loop over the records of a section.
    unfoldable pub best_of : ℕ → ℕ → Option A → Run (Option A)
    best_of zero at best = ran (ok best)
    best_of (suc left) at best =
        bind (read_info at) (λ current. best_of left (at + rec_size) (better best current))

  module _ (object : Btf) where
    unfoldable pub line_of : LineInfo → FoundLine
    line_of best = elim (object.str_by_offset best.file_name_off) [
      | none ↦ no_line
      | some file_name ↦ record {
        file_name = some file_name;
        at =
            if is_empty file_name
            then none
            else some (best.line_col / 2 ^ 10, best.line_col % 2 ^ 10);
      }
    ]

    unfoldable pub location_of : Option LineInfo → FoundLine
    location_of none = no_line
    location_of (some best) = line_of best

    unfoldable pub find_line_location : ExtInfo → ℕ → ℕ → Run FoundLine
    find_line_location line_info sec_name_off insn_off =
        bind (find_ext_info_section line_info sec_name_off) (λ found. elim found [
          | none ↦ ran (ok no_line)
          | some (records, num_info) ↦
              bind
                (best_of read_line_info (λ i. i.insn_off) insn_off line_info.rec_size num_info
                  records none)
                (λ best. ran (ok (location_of best)))
        ])

    unfoldable pub function_name_of : Option FuncInfo → Option Text
    function_name_of none = none
    function_name_of (some best) = elim (object.type_by_id best.type_id) [
      | none ↦ none
      | some t ↦ elim t.kind [
        | Kind.func ↦ if is_empty (type_name object t) then none else some (type_name object t)
        | _ ↦ none
      ]
    ]

    unfoldable pub find_function_name : ExtInfo → ℕ → ℕ → Run (Option Text)
    find_function_name func_info sec_name_off insn_off =
        bind (find_ext_info_section func_info sec_name_off) (λ found. elim found [
          | none ↦ ran (ok none)
          | some (records, num_info) ↦
              bind
                (best_of read_func_info (λ i. i.insn_off) insn_off func_info.rec_size num_info
                  records none)
                (λ best. ran (ok (function_name_of best)))
        ])

    -- `%s:%u:%u`, without a column 0
    unfoldable pub line_text : Option Text → ℕ × ℕ → Text
    line_text none place = []
    line_text (some file_name) (line, column) =
        let start = file_name ++ (58 ∷ decimal line) in
        if not (column == 0) then start ++ (58 ∷ decimal column) else start

    unfoldable pub text_or : Text → Option Text → Text
    text_or default none = default
    text_or default (some text) = if is_empty text then default else text

    unfoldable pub section_at : ℕ → Text
    section_at sec_name_off = text_or (codes "<unknown>") (object.str_by_offset sec_name_off)

    unfoldable pub function_or_section : ℕ → Option Text → Text
    function_or_section sec_name_off none = codes "section: " ++ section_at sec_name_off
    function_or_section sec_name_off (some function) = codes "function: " ++ function

    -- The text in a buffer of `location_size` bytes.
    unfoldable pub format_core_relo_location : ExtInfo → ExtInfo → ℕ → CoreRelo → ℕ → Run Text
    format_core_relo_location func_info line_info sec_name_off relo location_size =
        bind (find_line_location line_info sec_name_off relo.insn_off) (λ place. elim place.at [
          | some spot ↦ ran (ok (truncated location_size (line_text place.file_name spot)))
          | none ↦ bind (find_function_name func_info sec_name_off relo.insn_off) (λ function.
              ran (ok (truncated location_size (function_or_section sec_name_off function))))
        ])
