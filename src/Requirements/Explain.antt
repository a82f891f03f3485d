-- ===== src/Requirements/Explain.antt =====
-- The explanation of the requirements (src/requirements.c): a line for each trace. `sound` says that
-- the stream has no error; the text is what is written onto it.
use min_corehdr.Prelude.{
  ℕ, Bool, Option, none, some, List, [], ◌∷◌, ◌++◌, leb, ◌==◌, if◌then◌else◌, get_elem?, length,
  Text, codes, is_empty,
}
use min_corehdr.Errors.{Failure, Result, ok, failed, ◌>>=◌}
use min_corehdr.Btf.{Kind, Btf, BtfType, Member, vlen, type_name, kind_name}
use min_corehdr.Requirements.{TraceKind, type_root, record_member, Source, Trace, Requirements}

unfoldable pub source_name : Source → Text
source_name Source.object_btf = codes "object BTF"
source_name Source.core_relo = codes "CO-RE relocation"
source_name Source.unknown = codes "unknown"

unfoldable pub anonymous_if_empty : Text → Text
anonymous_if_empty name = if is_empty name then codes "<anonymous>" else name

-- A text that is printed if the pointer is not null.
unfoldable pub labelled : Text → Option Text → Text
labelled label none = []
labelled label (some text) = label ++ text

unfoldable pub aggregate_keyword : Kind → Text
aggregate_keyword Kind.union_k = codes "union"
aggregate_keyword _ = codes "struct"

module _ (b : Btf) where
  unfoldable pub type_name_or_anonymous : BtfType → Text
  type_name_or_anonymous t = anonymous_if_empty (type_name b t)

  unfoldable pub member_name_or_anonymous : Member → Text
  member_name_or_anonymous m = elim (b.name_by_offset m.name_off) [
    | none ↦ codes "<anonymous>"
    | some name ↦ anonymous_if_empty name
  ]

  unfoldable pub root_line : BtfType → Text
  root_line t = codes "  - root: " ++ (kind_name t.kind ++ (codes " " ++ type_name_or_anonymous t))

  unfoldable pub member_line : BtfType → Member → Text
  member_line t m =
      codes "  - member: "
      ++ (aggregate_keyword t.kind
          ++ (codes " " ++ (type_name_or_anonymous t ++ (codes "." ++ member_name_or_anonymous m))))

  -- Where the trace comes from.
  unfoldable pub origin_text : Trace → Text
  origin_text trace =
      codes "; source: "
      ++ (source_name trace.source
          ++ (labelled (codes " ") trace.detail
              ++ (labelled (codes "; access: ") trace.access
                  ++ (labelled (codes "; location: ") trace.location
                      ++ (labelled (codes "; file: ") trace.object_path ++ codes "\n")))))

  unfoldable pub fact_line : TraceKind → ℕ → ℕ → BtfType → Result Text
  fact_line type_root id i t = ok (root_line t)
  fact_line record_member id i t = elim (get_elem? t.members i) [
    | none ↦ failed (Failure.trace_missing_member i id)
    | some m ↦
        if leb (vlen t) i then failed (Failure.trace_missing_member i id) else ok (member_line t m)
  ]

  unfoldable pub trace_line : Trace → Result Text
  trace_line trace = elim (b.type_by_id trace.type_id) [
    | none ↦ failed (Failure.trace_missing_type trace.type_id)
    | some t ↦
        fact_line trace.kind trace.type_id trace.member_index t
        >>= (λ fact. ok (fact ++ origin_text trace))
  ]

  unfoldable pub trace_lines : List Trace → Result Text
  trace_lines [] = ok []
  trace_lines (trace ∷ traces) =
      trace_line trace >>= (λ line. trace_lines traces >>= (λ rest. ok (line ++ rest)))

  -- The check of the stream at the end.
  unfoldable pub checked : Bool → Text → Result Text
  checked sound text = if sound then ok text else failed Failure.witness_write_failed

  unfoldable pub write_explanation : Bool → Option Requirements → Result Text
  write_explanation sound none = ok []
  write_explanation sound (some r) =
      if length r.traces == 0
      then checked sound (codes "requirements:\n" ++ codes "  direct requirements: 0\n")
      else trace_lines r.traces >>= (λ lines. checked sound (codes "requirements:\n" ++ lines))
