-- ===== src/Files.antt =====
-- The replacement of the output file (src/main.c). The file system is unknown: its calls are an
-- interface over a state, and a path has one text.
pub mod Atomic
use min_corehdr.Prelude.{
  ℕ, zero, suc, ◌+◌, ◌-◌, ◌*◌, ◌/◌, ◌%◌, ◌^◌, ◌≤◌, ◌<◌, ◌≡◌, refl, sym, ap, ◌∙◌, ◌≢◌, ◌↔◌, ◌⊎◌, inl,
  inr, ⊎_elim, Bool, true, false, not, ◌&&◌, ◌||◌, Option, none, some, List, [], ◌∷◌, ◌++◌, Memᴰ,
  arith, ltb, leb, ◌==◌, if◌then◌else◌, ltb→lt, lt→ltb, leb→le, ==_iff, Bool-cases, Option-cases,
  List-cases, get_elem?, get_or, set, replicate, is_null, length, length-append, length-set,
  length-replicate, get_or-set, get_or-replicate, get_elem?-get_or, get_elem?-append_left,
  get_elem?-append_last, Memᴰ-cons, Memᴰ-concat, Memᴰ-one, not-Memᴰ-nil, Text, codes, is_empty,
  text_eq, text_eq_iff,
}
use min_corehdr.Prelude.Decimal.{decimal}
use min_corehdr.Errors.{Failure, Result, ok, failed}

-- The outcome of `open` with O_CREAT and O_EXCL.
pub data Creation : Type 0 where
  created exists : Creation
  refused : ℕ → Creation

pub record Disk (S : Type 0) : Type 0 where
  -- what a file holds
  pub contents : S → Text → Option Text
  pub create : Text → S → Creation × S
  -- `fdopen`, with its errno if it fails
  pub stream : Text → S → Option ℕ × S
  -- the text goes onto the stream, which is closed: whether the stream had no error, and the errno
  -- of `fclose` if it fails
  pub finish : Text → Text → S → (Bool × Option ℕ) × S
  -- a stream with part of a text is closed
  pub abandon : Text → S → S
  pub remove : Text → S → S
  pub rename : Text → Text → S → Option ℕ × S

module _ {S : Type 0} (disk : Disk S) (strerror : ℕ → Text) (pid : ℕ) where
  -- `%s.tmp.%ld.%u`
  unfoldable pub temp_path : Text → ℕ → Text
  temp_path path attempt = path ++ (codes ".tmp." ++ (decimal pid ++ (46 ∷ decimal attempt)))

  -- The stream on a new file.
  unfoldable pub streamed : Text → Option ℕ × S → Result Text × S
  streamed tmp (none, s) = (ok tmp, s)
  streamed tmp (some errno, s) =
      (failed (Failure.output_not_opened (strerror errno)), disk.remove tmp s)

  -- One attempt on a path: another one follows if the file exists.
  unfoldable pub opened : Text → Creation × S → (S → Result Text × S) → Result Text × S
  opened tmp (Creation.created, s) again = streamed tmp (disk.stream tmp s)
  opened tmp (Creation.exists, s) again = again s
  opened tmp (Creation.refused errno, s) again =
      (failed (Failure.output_not_opened (strerror errno)), s)

  unfoldable pub open_loop : ℕ → ℕ → ℕ → Text → S → Result Text × S
  open_loop size zero attempt path s = (failed Failure.no_unique_output, s)
  open_loop size (suc left) attempt path s =
      let tmp = temp_path path attempt in
      let next = opened tmp (disk.create tmp s) (open_loop size left (attempt + 1) path) in
      if leb size (length tmp) then (failed Failure.output_path_too_long, s) else next

  -- The path of the temporary file in a buffer of `size` bytes.
  unfoldable pub open_temp_output : ℕ → Text → S → Result Text × S
  open_temp_output size path s = open_loop size 128 0 path s

  unfoldable pub renamed : Text → Option ℕ × S → Result (Unit {0}) × S
  renamed tmp (none, s) = (ok tt, s)
  renamed tmp (some errno, s) =
      (failed (Failure.output_not_replaced (strerror errno)), disk.remove tmp s)

  unfoldable pub closed : Text → Text → (Bool × Option ℕ) × S → Result (Unit {0}) × S
  closed path tmp ((false, closing), s) = (failed Failure.header_write_failed, disk.remove tmp s)
  closed path tmp ((true, some errno), s) =
      (failed (Failure.output_not_closed (strerror errno)), disk.remove tmp s)
  closed path tmp ((true, none), s) = renamed tmp (disk.rename tmp path s)

  unfoldable pub emitted : Text → Text → Result Text → S → Result (Unit {0}) × S
  emitted path tmp (failed e) s = (failed e, disk.remove tmp (disk.abandon tmp s))
  emitted path tmp (ok text) s = closed path tmp (disk.finish tmp text s)

  unfoldable pub with_output : Text → Result Text → Result Text × S → Result (Unit {0}) × S
  with_output path emission (failed e, s) = (failed e, s)
  with_output path emission (ok tmp, s) = emitted path tmp emission s

  -- `emission` is the header that the emitter writes onto a stream without an error.
  unfoldable pub write_header_to_path : Text → Result Text → S → Result (Unit {0}) × S
  write_header_to_path path emission s = with_output path emission (open_temp_output 1024 path s)
