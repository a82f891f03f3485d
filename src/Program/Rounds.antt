-- ===== src/Program/Rounds.antt =====
-- What never needs more rounds than it is given: the write of a file, beyond those of the emission,
-- and the explanation.
use min_corehdr.Prelude.{
  ℕ, zero, suc, ◌+◌, ◌≡◌, ◌≢◌, inl, inr, Bool, true, false, Option, none, some, List, [], ◌∷◌,
  arith, leb, Bool-cases, Option-cases, length, Text,
}
use min_corehdr.Errors.{Failure, Result, ok, failed}
use min_corehdr.Btf.{Btf, BtfType}
use min_corehdr.Requirements.{Requirements, Trace, TraceKind, type_root, record_member}
use min_corehdr.Requirements.Explain.{
  fact_line, trace_line, trace_lines, checked, write_explanation,
}
use min_corehdr.Files.{
  Creation, created, exists, Disk, temp_path, streamed, opened, open_loop, open_temp_output,
  renamed, closed, emitted, with_output, write_header_to_path,
}

module _ {S : Type 0} (disk : Disk S) (strerror : ℕ → Text) (pid : ℕ) where
  streamed-rounds :
      (tmp : Text) (r : Option ℕ × S)
      → (streamed disk strerror pid tmp r).0 ≢ failed Failure.out_of_fuel
  unfolding streamed
  streamed-rounds tmp (none, t) e = cc e
  streamed-rounds tmp (some errno, t) e = cc e

  opened-rounds :
      (tmp : Text) (r : Creation × S) (again : S → Result Text × S)
      → ((t : S) → (again t).0 ≢ failed Failure.out_of_fuel)
      → (opened disk strerror pid tmp r again).0 ≢ failed Failure.out_of_fuel
  unfolding opened
  opened-rounds tmp (created, t) again h e = streamed-rounds tmp (disk.stream tmp t) e
  opened-rounds tmp (exists, t) again h e = h t e
  opened-rounds tmp (Creation.refused errno, t) again h e = cc e

  open_loop-rounds :
      (size left attempt : ℕ) (path : Text) (t : S)
      → (open_loop disk strerror pid size left attempt path t).0 ≢ failed Failure.out_of_fuel
  unfolding open_loop
  open_loop-rounds size zero attempt path t e = cc e
  open_loop-rounds size (suc left) attempt path t e =
      let tmp = temp_path disk strerror pid path attempt in
      let later = open_loop-rounds size left (attempt + 1) path in
      elim (Bool-cases (leb size (length tmp))) [
        | inl long ↦ absurd (ground (arith, long, e))
        | inr short ↦ opened-rounds tmp (disk.create tmp t) _ later (rw short at e)
      ]

  renamed-rounds :
      (tmp : Text) (r : Option ℕ × S)
      → (renamed disk strerror pid tmp r).0 ≢ failed Failure.out_of_fuel
  unfolding renamed
  renamed-rounds tmp (none, t) e = cc e
  renamed-rounds tmp (some errno, t) e = cc e

  closed-rounds :
      (path tmp : Text) (r : (Bool × Option ℕ) × S)
      → (closed disk strerror pid path tmp r).0 ≢ failed Failure.out_of_fuel
  unfolding closed
  closed-rounds path tmp ((false, closing), t) e = cc e
  closed-rounds path tmp ((true, some errno), t) e = cc e
  closed-rounds path tmp ((true, none), t) e = renamed-rounds tmp (disk.rename tmp path t) e

  emitted-rounds :
      (path tmp : Text) (r : Result Text) (t : S)
      → (emitted disk strerror pid path tmp r t).0 ≡ failed Failure.out_of_fuel
      → r ≡ failed Failure.out_of_fuel
  unfolding emitted
  emitted-rounds path tmp (failed e) t h = cc h
  emitted-rounds path tmp (ok text) t h = absurd (closed-rounds path tmp (disk.finish tmp text t) h)

  with_output-rounds :
      (path : Text) (r : Result Text) (o : Result Text × S)
      → o.0 ≢ failed Failure.out_of_fuel
      → (with_output disk strerror pid path r o).0 ≡ failed Failure.out_of_fuel
      → r ≡ failed Failure.out_of_fuel
  unfolding with_output
  with_output-rounds path r (failed e, t) opens h = absurd (opens (cc h))
  with_output-rounds path r (ok tmp, t) opens h = emitted-rounds path tmp r t h

  -- The rounds of the write are those of the emission.
  pub write-rounds :
      (path : Text) (r : Result Text) (s : S)
      → (write_header_to_path disk strerror pid path r s).0 ≡ failed Failure.out_of_fuel
      → r ≡ failed Failure.out_of_fuel
  unfolding write_header_to_path open_temp_output
  write-rounds path r s h = with_output-rounds path r _ (open_loop-rounds 1024 128 0 path s) h

module _ (b : Btf) where
  fact_line-rounds :
      (k : TraceKind) (id i : ℕ) (t : BtfType) → fact_line b k id i t ≢ failed Failure.out_of_fuel
  unfolding fact_line
  fact_line-rounds type_root id i t e = cc e
  fact_line-rounds record_member id i t e = ground (arith, e)

  trace_line-rounds : (trace : Trace) → trace_line b trace ≢ failed Failure.out_of_fuel
  unfolding trace_line
  trace_line-rounds trace e = elim (Option-cases (b.type_by_id trace.type_id)) [
    | inl gone ↦ absurd (ground (arith, gone, e))
    | inr (t, at) ↦
        ground (arith, at, e, fact_line-rounds trace.kind trace.type_id trace.member_index t)
  ]

  trace_lines-rounds : (traces : List Trace) → trace_lines b traces ≢ failed Failure.out_of_fuel
  unfolding trace_lines
  trace_lines-rounds [] e = cc e
  trace_lines-rounds (trace ∷ traces) e =
      ground (arith, e, trace_line-rounds trace, trace_lines-rounds traces)

  pub write_explanation-rounds :
      (sound : Bool) (o : Option Requirements)
      → write_explanation b sound o ≢ failed Failure.out_of_fuel
  unfolding write_explanation checked
  write_explanation-rounds sound none e = cc e
  write_explanation-rounds sound (some r) e = ground (arith, e, trace_lines-rounds r.traces)
