-- ===== src/Cli/Usable.antt =====
-- What a successful parse guarantees.
use min_corehdr.Prelude.{
  ℕ, ◌≡◌, ◌≢◌, ◌⊎◌, inl, inr, Bool, true, false, ◌||◌, some, List, [], ◌∷◌, Memᴰ, arith, Bool-cases,
  Option-cases, is_null, Memᴰ-cons, not-Memᴰ-nil, Text, codes, is_empty, text_eq, text_eq_iff,
}
use min_corehdr.Errors.{Result, ok, ◌>>=◌, >>=-eq-ok}
use min_corehdr.Cli.{
  Options, Parsed, options_init, add_object, require_value, set_btf_path, set_output_path,
  strip_prefix, output_value, btf_value, output_letter, more_verbose, be_quiet, letters,
  short_or_object, output_or_short, path_or_short, parse_arg, parse_args, has_object, check_output,
  check_options, parse,
}

-- No empty output path is recorded.
abbrev Named : Options → Type 0
Named opts = (path : Text) → opts.output_path ≡ some path → is_empty path ≡ false

set_output_path-Named :
    (opts t : Options) (path : Text) → set_output_path opts path ≡ ok t → Named t
unfolding set_output_path
set_output_path-Named opts t path e = elim (Option-cases opts.output_path) [
  | inl free ↦ λ other h. ground (arith, free, e)
  | inr (old, used) ↦ absurd (ground (arith, used))
]

set_btf_path-Named :
    (opts t : Options) (path : Text) → Named opts → set_btf_path opts path ≡ ok t → Named t
unfolding set_btf_path
set_btf_path-Named opts t path n e = elim (Option-cases opts.btf_path) [
  | inl free ↦ λ other h. n other (ground (arith, free, e))
  | inr (old, used) ↦ absurd (ground (arith, used))
]

add_object-Named :
    (alloc : ℕ → Bool) (opts t : Options) (path : Text)
    → Named opts
    → add_object alloc opts path ≡ ok t
    → Named t
unfolding add_object
add_object-Named alloc opts t path n e other h = n other (ground arith)

abbrev Keeps : Parsed → Type 0
Keeps r = (p : Bool × Options) → r ≡ ok p → Named p.1

tag-Keeps :
    (m : Result Options) (tag : Bool)
    → ((t : Options) → m ≡ ok t → Named t)
    → Keeps (m >>= λ o. ok (tag, o))
tag-Keeps m tag h p e =
    let (t, run, last) = >>=-eq-ok m _ e in let same : t ≡ p.1 = cc last in rw (← same) (h t run)

output_value-Keeps :
    (option : Text) (rest : List Text) (opts : Options) → Keeps (output_value option rest opts)
unfolding output_value
output_value-Keeps option rest opts p e =
    let (path, run, last) = >>=-eq-ok (require_value rest option) _ e in
    tag-Keeps _ true (λ t. set_output_path-Named opts t path) p last

btf_value-Keeps : (rest : List Text) (opts : Options) → Named opts → Keeps (btf_value rest opts)
unfolding btf_value
btf_value-Keeps rest opts n p e =
    let (path, run, last) = >>=-eq-ok (require_value rest (codes "--btf")) _ e in
    tag-Keeps _ true (λ t. set_btf_path-Named opts t path n) p last

output_letter-Keeps :
    (cs : Text) (rest : List Text) (opts : Options) → Keeps (output_letter cs rest opts)
unfolding output_letter
output_letter-Keeps [] rest opts = output_value-Keeps _ rest opts
output_letter-Keeps (c ∷ cs) rest opts =
    tag-Keeps _ false (λ t. set_output_path-Named opts t (c ∷ cs))

-- The same as a rule on the result.
named_at :
    {r : Parsed}
    → Keeps r
    → (p : Bool × Options) (path : Text) → p.1.output_path ≡ some path
    → r ≡ ok p
    → is_empty path ≡ false
named_at k p path h q = k p q path h

Keeps-alone : (opts : Options) → Named opts → Keeps (ok (false, opts))
Keeps-alone opts n = tag-Keeps (ok opts) false (λ t e. let same : opts ≡ t = cc in rw (← same) n)

letters-Keeps :
    (cs : Text) (rest : List Text) (opts : Options) → Named opts → Keeps (letters cs rest opts)
unfolding letters
letters-Keeps [] rest opts n p e path h = Keeps-alone opts n p e path h
letters-Keeps (c ∷ cs) rest opts n p e path h = ground (
  arith,
  named_at (letters-Keeps cs rest (record opts { help = true }) n) p path h,
  named_at (letters-Keeps cs rest (record opts { version = true }) n) p path h,
  named_at (letters-Keeps cs rest (more_verbose opts) n) p path h,
  named_at (letters-Keeps cs rest (be_quiet opts) n) p path h,
  named_at (output_letter-Keeps cs rest opts) p path h,
)

module _ (alloc : ℕ → Bool) where
  object-Keeps :
      (opts : Options) (path : Text)
      → Named opts
      → Keeps (add_object alloc opts path >>= λ o. ok (false, o))
  object-Keeps opts path n = tag-Keeps _ false (λ t. add_object-Named alloc opts t path n)

  short_or_object-Keeps :
      (arg : Text) (rest : List Text) (opts : Options)
      → Named opts
      → Keeps (short_or_object alloc arg rest opts)
  unfolding short_or_object
  short_or_object-Keeps [] rest opts n p e path h = object-Keeps opts _ n p e path h
  short_or_object-Keeps (d ∷ []) rest opts n p e path h = object-Keeps opts _ n p e path h
  short_or_object-Keeps (d ∷ c ∷ cs) rest opts n p e path h = ground (
    arith,
    named_at (letters-Keeps (c ∷ cs) rest opts n) p path h,
    named_at (object-Keeps opts (d ∷ c ∷ cs) n) p path h,
  )

  output_or_short-Keeps :
      (arg : Text) (rest : List Text) (opts : Options)
      → Named opts
      → Keeps (output_or_short alloc arg rest opts)
  unfolding output_or_short
  output_or_short-Keeps arg rest opts n p e path h =
      elim (Option-cases (strip_prefix (codes "--output=") arg)) [
        | inr (o, at) ↦
            tag-Keeps _ false (λ t. set_output_path-Named opts t o) p (ground (arith, at)) path h
        | inl other ↦ ground (
          arith,
          other,
          named_at (output_value-Keeps (codes "--output") rest opts) p path h,
          named_at (short_or_object-Keeps arg rest opts n) p path h,
        )
      ]

  path_or_short-Keeps :
      (arg : Text) (rest : List Text) (opts : Options)
      → Named opts
      → Keeps (path_or_short alloc arg rest opts)
  unfolding path_or_short
  path_or_short-Keeps arg rest opts n p e path h =
      elim (Option-cases (strip_prefix (codes "--btf=") arg)) [
        | inr (o, at) ↦
            tag-Keeps _ false (λ t. set_btf_path-Named opts t o n) p (ground (arith, at)) path h
        | inl other ↦ ground (
          arith,
          other,
          named_at (btf_value-Keeps rest opts n) p path h,
          named_at (output_or_short-Keeps arg rest opts n) p path h,
        )
      ]

  parse_arg-Keeps :
      (arg : Text) (rest : List Text) (opts : Options)
      → Named opts
      → Keeps (parse_arg alloc arg rest opts)
  unfolding parse_arg
  parse_arg-Keeps arg rest opts n p e path h =
      ground (arith, named_at (path_or_short-Keeps arg rest opts n) p path h, n path)

  parse_args-Named :
      (read ended : Bool) (args : List Text) (opts t : Options)
      → Named opts
      → parse_args alloc read ended args opts ≡ ok t
      → Named t
  unfolding parse_args
  parse_args-Named read ended [] opts t n e = let same : opts ≡ t = cc in rw (← same) n
  parse_args-Named true ended (arg ∷ rest) opts t n e = parse_args-Named false ended rest opts t n e
  parse_args-Named false true (arg ∷ rest) opts t n e =
      let (u, run, last) = >>=-eq-ok (add_object alloc opts arg) _ e in
      parse_args-Named false true rest u t (add_object-Named alloc opts u arg n run) last
  parse_args-Named false false (arg ∷ rest) opts t n e =
      elim (Bool-cases (text_eq arg (codes "--"))) [
        | inl dashes ↦ parse_args-Named false true rest opts t n (ground arith)
        | inr other ↦
            let (p, run, last) =
              >>=-eq-ok (parse_arg alloc arg rest opts) (λ p. parse_args alloc p.0 false rest p.1)
                {b = t} (ground arith) in
            parse_args-Named p.0 false rest p.1 t (parse_arg-Keeps arg rest opts n p run) last
      ]

-- Options to run on: a BTF file and objects, and an output that is no input.
pub record Usable (opts : Options) : Type 0 where
  pub btf : Text
  pub btf_path : opts.btf_path ≡ some btf
  pub btf_named : is_empty btf ≡ false
  pub some_object : is_null opts.objects ≡ false
  pub output_named : (path : Text) → opts.output_path ≡ some path → is_empty path ≡ false
  pub no_clobber :
      (path : Text) → opts.output_path ≡ some path → (path ≢ btf) × ¬ Memᴰ path opts.objects

has_object-Memᴰ :
    (objects : List Text) (path : Text) → has_object objects path ≡ false → ¬ Memᴰ path objects
unfolding has_object
has_object-Memᴰ [] path h m = not-Memᴰ-nil path m
has_object-Memᴰ (o ∷ os) path h m = elim ((Memᴰ-cons path o os).0 m) [
  | inl e ↦ ground (arith, text_eq_iff path o)
  | inr rest ↦ has_object-Memᴰ os path (ground arith) rest
]

check_output-eq :
    (opts t : Options) (btf : Text)
    → check_output opts btf ≡ ok t
    → (opts ≡ t)
      × ((path : Text) → opts.output_path ≡ some path → (path ≢ btf) × ¬ Memᴰ path opts.objects)
unfolding check_output
check_output-eq opts t btf e = elim (Option-cases opts.output_path) [
  | inl no_output ↦ (ground (arith, no_output), λ path h. absurd (cc (no_output, h)))
  | inr (o, at) ↦
      let apart : text_eq o btf ≡ false = ground (arith, at) in
      let fresh : has_object opts.objects o ≡ false = ground (arith, at) in
      (
        ground (arith, at),
        λ path h.
            let same : o ≡ path = cc (at, h) in
            rw (← same)
              (λ eq. ground (arith, text_eq_iff o btf), has_object-Memᴰ opts.objects o fresh),
      )
]

-- A command line that is accepted asks for help or the version, or names a BTF file and at least
-- one object, and its output, if any, has a name other than those of its inputs.
pub parse-Usable :
    (alloc : ℕ → Bool) (argv : List Text) (opts : Options)
    → parse alloc argv options_init ≡ ok opts
    → ((opts.help || opts.version) ≡ true) ⊎ Usable opts
unfolding parse check_options
parse-Usable alloc argv opts e =
    let (t, run, last) = >>=-eq-ok (parse_args alloc false false argv options_init) _ e in
    let named = parse_args-Named alloc false false argv options_init t (λ path h. cc) run in
    elim (Bool-cases (t.help || t.version)) [
      | inl asked ↦ let same : t ≡ opts = ground (arith, last) in inl (rw (← same) asked)
      | inr not_asked ↦ elim (Option-cases t.btf_path) [
        | inl missing ↦ absurd (ground (arith, missing))
        | inr (btf, at) ↦
            let checked : check_output t btf ≡ ok opts = ground (arith, at) in
            let full : is_empty btf ≡ false = ground (arith, at) in
            let given : is_null t.objects ≡ false = ground (arith, at) in
            let (same, fresh) = check_output-eq t opts btf checked in
            rw (← same) (
              inr (record {
                btf = btf;
                btf_path = at;
                btf_named = full;
                some_object = given;
                output_named = named;
                no_clobber = fresh;
              }))
      ]
    ]
