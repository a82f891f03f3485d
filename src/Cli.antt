-- ===== src/Cli.antt =====
-- The command line (src/cli.c, include/min_corehdr/cli.h). The list of arguments is argv without
-- argv[0]; `alloc n` says whether the array of objects can grow to `n` bytes. A null path is `none`.
-- An index that `require_value` moves on is a flag that the argument after it has been read.
pub mod Usable
pub mod Texts
use min_corehdr.Prelude.{
  ℕ, zero, suc, ◌+◌, ◌-◌, ◌*◌, ◌/◌, ◌%◌, ◌^◌, ◌≤◌, ◌<◌, ◌≡◌, refl, sym, ap, ◌∙◌, ◌≢◌, ◌↔◌, ◌⊎◌, inl,
  inr, ⊎_elim, Bool, true, false, not, ◌&&◌, ◌||◌, Option, none, some, List, [], ◌∷◌, ◌++◌, Memᴰ,
  arith, ltb, leb, ◌==◌, if◌then◌else◌, ltb→lt, lt→ltb, leb→le, ==_iff, Bool-cases, Option-cases,
  List-cases, get_elem?, get_or, set, replicate, is_null, length, length-append, length-set,
  length-replicate, get_or-set, get_or-replicate, get_elem?-get_or, get_elem?-append_left,
  get_elem?-append_last, Memᴰ-cons, Memᴰ-concat, Memᴰ-one, not-Memᴰ-nil, Text, codes, is_empty,
  text_eq, text_eq_iff,
}
use min_corehdr.Errors.{Failure, Result, ok, failed, ◌>>=◌, ◌>>◌, guard}

pub record Options : Type 0 where
  pub btf_path : Option Text
  pub output_path : Option Text
  pub objects : List Text
  pub verbose : ℕ
  pub quiet : Bool
  pub stats : Bool
  pub explain : Bool
  pub expand_pointers : Bool
  pub help : Bool
  pub version : Bool

abbrev pub options_init : Options
options_init = record {
  btf_path = none;
  output_path = none;
  objects = [];
  verbose = 0;
  quiet = false;
  stats = false;
  explain = false;
  expand_pointers = false;
  help = false;
  version = false;
}

-- The paths belong to argv, and only the array of objects is freed.
unfoldable pub options_destroy : Options → Options
options_destroy opts = record opts { objects = [] }

unfoldable pub add_object : (ℕ → Bool) → Options → Text → Result Options
add_object alloc opts path =
    if alloc ((length opts.objects + 1) * 8)
    then ok (record opts { objects = opts.objects ++ path ∷ [] })
    else failed Failure.objects_no_memory

-- The argument behind the option, out of those that follow.
unfoldable pub require_value : List Text → Text → Result Text
require_value [] option = failed (Failure.missing_value option)
require_value (value ∷ rest) option = ok value

unfoldable pub set_btf_path : Options → Text → Result Options
set_btf_path opts path = elim opts.btf_path [
  | some old ↦ failed Failure.duplicate_btf
  | none ↦ ok (record opts { btf_path = some path })
]

unfoldable pub set_output_path : Options → Text → Result Options
set_output_path opts path = elim opts.output_path [
  | some old ↦ failed Failure.duplicate_output
  | none ↦
      if is_empty path
      then failed Failure.empty_output
      else ok (record opts { output_path = some path })
]

abbrev pub more_verbose : Options → Options
more_verbose opts = record opts { quiet = false; verbose = opts.verbose + 1 }

abbrev pub be_quiet : Options → Options
be_quiet opts = record opts { quiet = true; verbose = 0 }

-- The rest of an argument behind a prefix, as `strncmp(arg, prefix, n) == 0` tests.
unfoldable pub strip_prefix : Text → Text → Option Text
strip_prefix [] arg = some arg
strip_prefix (p ∷ ps) [] = none
strip_prefix (p ∷ ps) (c ∷ cs) = let rest = strip_prefix ps cs in if c == p then rest else none

-- The options after an argument, and whether the argument after it has been read too.
abbrev pub Parsed : Type 0
Parsed = Result (Bool × Options)

abbrev alone : Options → Parsed
alone opts = ok (false, opts)

abbrev with_value : Options → Parsed
with_value opts = ok (true, opts)

-- An output path in the next argument, and a BTF path.
unfoldable pub output_value : Text → List Text → Options → Parsed
output_value option rest opts =
    require_value rest option >>= λ path. set_output_path opts path >>= with_value

unfoldable pub btf_value : List Text → Options → Parsed
btf_value rest opts =
    require_value rest (codes "--btf") >>= λ path. set_btf_path opts path >>= with_value

-- The letter 'o', with what follows it in the argument.
unfoldable pub output_letter : Text → List Text → Options → Parsed
output_letter [] rest opts = output_value (codes "-o") rest opts
output_letter (c ∷ cs) rest opts = set_output_path opts (c ∷ cs) >>= alone

-- The loop over the letters behind a single dash.
unfoldable pub letters : Text → List Text → Options → Parsed
letters [] rest opts = alone opts
letters (c ∷ cs) rest opts =
    let helped = letters cs rest (record opts { help = true }) in
    let versioned = letters cs rest (record opts { version = true }) in
    let louder = letters cs rest (more_verbose opts) in
    let quieter = letters cs rest (be_quiet opts) in
    if c == 104
    then helped
    else if c == 86
    then versioned
    else if c == 118
    then louder
    else if c == 113
    then quieter
    else if c == 111
    then output_letter cs rest opts
    else failed (Failure.unknown_letter c)

-- An argument that is no long option.
unfoldable pub short_or_object : (ℕ → Bool) → Text → List Text → Options → Parsed
short_or_object alloc [] rest opts = add_object alloc opts [] >>= alone
short_or_object alloc (d ∷ []) rest opts = add_object alloc opts (d ∷ []) >>= alone
short_or_object alloc (d ∷ c ∷ cs) rest opts =
    if d == 45
    then (if c == 45 && not (is_empty cs)
        then failed (Failure.unknown_option (d ∷ c ∷ cs))
        else letters (c ∷ cs) rest opts)
    else add_object alloc opts (d ∷ c ∷ cs) >>= alone

-- The two paths, each with its value in the argument or behind it.
unfoldable pub output_or_short : (ℕ → Bool) → Text → List Text → Options → Parsed
output_or_short alloc arg rest opts = elim (strip_prefix (codes "--output=") arg) [
  | some path ↦ set_output_path opts path >>= alone
  | none ↦
      if text_eq arg (codes "--output")
      then output_value (codes "--output") rest opts
      else short_or_object alloc arg rest opts
]

unfoldable pub path_or_short : (ℕ → Bool) → Text → List Text → Options → Parsed
path_or_short alloc arg rest opts = elim (strip_prefix (codes "--btf=") arg) [
  | some path ↦ set_btf_path opts path >>= alone
  | none ↦
      if text_eq arg (codes "--btf")
      then btf_value rest opts
      else output_or_short alloc arg rest opts
]

unfoldable pub parse_arg : (ℕ → Bool) → Text → List Text → Options → Parsed
parse_arg alloc arg rest opts =
    if text_eq arg (codes "--help")
    then alone (record opts { help = true })
    else if text_eq arg (codes "--version")
    then alone (record opts { version = true })
    else if text_eq arg (codes "--verbose")
    then alone (more_verbose opts)
    else if text_eq arg (codes "--quiet")
    then alone (be_quiet opts)
    else if text_eq arg (codes "--stats")
    then alone (record opts { stats = true })
    else if text_eq arg (codes "--explain")
    then alone (record opts { explain = true })
    else if text_eq arg (codes "--expand-pointers")
    then alone (record opts { expand_pointers = true })
    else path_or_short alloc arg rest opts

-- The loop over the arguments; `read` says that the first one has been read already.
unfoldable pub parse_args :
    (ℕ → Bool) → (read end_of_options : Bool) → List Text → Options → Result Options
parse_args alloc read ended [] opts = ok opts
parse_args alloc true ended (arg ∷ rest) opts = parse_args alloc false ended rest opts
parse_args alloc false true (arg ∷ rest) opts =
    add_object alloc opts arg >>= parse_args alloc false true rest
parse_args alloc false false (arg ∷ rest) opts =
    let operands = parse_args alloc false true rest opts in
    if text_eq arg (codes "--")
    then operands
    else parse_arg alloc arg rest opts >>= λ p. parse_args alloc p.0 false rest p.1

-- Some object has this path.
unfoldable pub has_object : List Text → Text → Bool
has_object [] path = false
has_object (object ∷ objects) path = text_eq path object || has_object objects path

unfoldable pub check_output : Options → Text → Result Options
check_output opts btf = elim opts.output_path [
  | none ↦ ok opts
  | some output ↦
      if text_eq output btf
      then failed Failure.output_is_btf
      else if has_object opts.objects output
      then failed Failure.output_is_object
      else ok opts
]

unfoldable pub check_options : Options → Result Options
check_options opts = if opts.help || opts.version then ok opts else elim opts.btf_path [
  | none ↦ failed Failure.missing_btf
  | some btf ↦
      if is_empty btf
      then failed Failure.missing_btf
      else if is_null opts.objects
      then failed Failure.missing_object
      else check_output opts btf
]

unfoldable pub parse : (ℕ → Bool) → List Text → Options → Result Options
parse alloc argv opts = parse_args alloc false false argv opts >>= check_options
