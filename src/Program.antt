-- ===== src/Program.antt =====
-- The program (src/main.c): its phases in order, its output and its exit code. What the program calls
-- of libbpf and of the system is a record of parameters.
pub mod Rounds
pub mod Atomic
pub mod Complete
use min_corehdr.Prelude.{
  ℕ, zero, suc, ◌+◌, ◌-◌, ◌*◌, ◌/◌, ◌%◌, ◌^◌, ◌≤◌, ◌<◌, ◌≡◌, refl, sym, ap, ◌∙◌, ◌≢◌, ◌↔◌, ◌⊎◌, inl,
  inr, ⊎_elim, Bool, true, false, not, ◌&&◌, ◌||◌, Option, none, some, List, [], ◌∷◌, ◌++◌, Memᴰ,
  arith, ltb, leb, ◌==◌, if◌then◌else◌, ltb→lt, lt→ltb, leb→le, ==_iff, Bool-cases, Option-cases,
  List-cases, get_elem?, get_or, set, replicate, is_null, length, length-append, length-set,
  length-replicate, get_or-set, get_or-replicate, get_elem?-get_or, get_elem?-append_left,
  get_elem?-append_last, Memᴰ-cons, Memᴰ-concat, Memᴰ-one, not-Memᴰ-nil, Text, codes, is_empty,
  text_eq, text_eq_iff,
}
use min_corehdr.Prelude.Decimal.{decimal}
use min_corehdr.Errors.{Failure, Result, ok, failed, ◌>>=◌, ◌>>◌, guard}
use min_corehdr.Btf.{Kind, Btf}
use min_corehdr.TypeSet
use min_corehdr.TypeSet.{TypeSet, u64}
use min_corehdr.Requirements
use min_corehdr.Requirements.{Requirements}
use min_corehdr.Requirements.Explain.{write_explanation}
use min_corehdr.Index
use min_corehdr.Index.{Index}
use min_corehdr.Seeds.{Seeds, SeedStats, stats_init, extract_object_seeds_with_requirements}
use min_corehdr.Relocations.{CoreReloKind, BtfExt, extract_core_relo_seeds_with_requirements}
use min_corehdr.Relocations.Bytes.{Run, stuck, ran}
use min_corehdr.Closure.{compute}
use min_corehdr.Emitter.{emit_header_with_options}
use min_corehdr.Loader.{Parsed, Doc, load_base_btf, load_object_btf}
use min_corehdr.Files.{Disk, write_header_to_path}
use min_corehdr.Cli
use min_corehdr.Cli.{Options, parse, options_init}
use min_corehdr.Cli.Texts.{print_help, print_version}

-- The system and libbpf. `sound_out` and `sound_err` say that the standard streams have no error.
pub record Host (S : Type 0) : Type 0 where
  pub disk : Disk S
  pub strerror : ℕ → Text
  pub pid : ℕ
  pub alloc : ℕ → Bool
  pub header_alloc : ℕ → ℕ → Bool
  pub parse_btf : Text → Parsed Btf
  pub parse_elf : Text → Parsed Btf × Option BtfExt
  pub number : Kind → ℕ
  pub relo_kind : ℕ → CoreReloKind
  pub little : Bool
  pub sound_out : Bool
  pub sound_err : Bool
  pub version : Text
  pub revision : Text
  pub libbpf_version : Text

-- What the phases before the output leave.
pub record Product : Type 0 where
  pub base : Btf
  pub required : TypeSet
  pub requirements : Option Requirements
  pub seed_total : SeedStats
  pub added_types : ℕ

-- What a run leaves: the exit code, what stdout got, the explanation and the statistics on stderr,
-- the error whose message is printed, if one is, and the files. The part of a header that stdout got before the emitter
-- failed is left out, and so are the lines of --verbose.
pub record Outcome (S : Type 0) : Type 0 where
  pub code : ℕ
  pub out : Text
  pub diagnostics : Text
  pub error : Option Failure
  pub files : S

-- The error whose message is printed: two failures set no message, and then nothing is printed.
unfoldable pub message_of : Failure → Option Failure
message_of Failure.header_write_failed = none
message_of Failure.emitter_missing_type = none
message_of e = some e

-- The exit of a run that failed. A run that uses up the rounds of the model has no outcome: the loop
-- of the program goes on.
unfoldable pub stopped : {S : Type 0} → ℕ → Text → S → Failure → Option (Outcome S)
stopped code out files Failure.out_of_fuel = none
stopped code out files e =
    some (record { code = code; out = out; diagnostics = []; error = message_of e; files = files })

unfoldable pub add_stats : SeedStats → SeedStats → SeedStats
add_stats total stats = record {
  candidates = u64 (total.candidates + stats.candidates);
  kernel_types = u64 (total.kernel_types + stats.kernel_types);
  program_local_types = u64 (total.program_local_types + stats.program_local_types);
  core_relocations = u64 (total.core_relocations + stats.core_relocations);
  core_kernel_types = u64 (total.core_kernel_types + stats.core_kernel_types);
}

-- A document that was loaded has its BTF.
unfoldable pub with_btf : {A : Type 0} → Doc → (Btf → Result A) → Result A
with_btf doc next = elim doc.btf [ some btf ↦ next btf | none ↦ failed Failure.out_of_fuel ]

-- The parsing of .BTF.ext never gets stuck.
unfoldable pub result_of : {A : Type 0} → Run A → Result A
result_of stuck = failed Failure.out_of_fuel
result_of (ran r) = r

unfoldable pub path_of : Option Text → Text
path_of none = []
path_of (some path) = path

unfoldable pub stat_line : Text → ℕ → Text
stat_line label n = label ++ (decimal n ++ codes "\n")

unfoldable pub stats_text : Options → Product → Text
stats_text opts p =
    let r = Requirements.stats p.requirements in
    stat_line (codes "objects: ") (length opts.objects)
    ++ (stat_line (codes "seed candidates: ") p.seed_total.candidates
        ++ (stat_line (codes "kernel seed types: ") p.seed_total.kernel_types
            ++ (stat_line (codes "program-local candidates: ") p.seed_total.program_local_types
                ++ (stat_line (codes "CO-RE relocations: ") p.seed_total.core_relocations
                    ++ (stat_line (codes "CO-RE root types: ") p.seed_total.core_kernel_types
                        ++ (stat_line (codes "requirement root types: ") r.type_roots
                            ++ (stat_line (codes "required record members: ") r.record_members
                                ++ (stat_line (codes "requirement traces: ") r.traces
                                    ++ (stat_line (codes "emitted required types: ")
                                          p.required.selected
                                        ++ stat_line (codes "closure additions: ")
                                            p.added_types)))))))))

module _ {S : Type 0} (host : Host S) where
  -- The body of the loop over the objects; the statistics of each object are added to the total.
  unfoldable pub seed_object : Index → Text → Seeds → Result Seeds
  seed_object index path s = load_object_btf host.parse_elf host.strerror path >>= (λ doc.
      with_btf doc (λ object.
        extract_object_seeds_with_requirements host.number index object host.alloc path
          (record s { stats = stats_init })
        >>= (λ s1. result_of (
            extract_core_relo_seeds_with_requirements host.relo_kind host.number host.alloc index
              object path host.little doc.ext s1))
        >>= (λ s2. ok (record s2 { stats = add_stats s.stats s2.stats }))))

  unfoldable pub seed_objects : Index → List Text → Seeds → Result Seeds
  seed_objects index [] s = ok s
  seed_objects index (path ∷ paths) s = seed_object index path s >>= seed_objects index paths

  -- The seeds of all objects and their closure.
  unfoldable pub close : Options → Btf → Seeds → Result Product
  close opts base s =
      compute host.alloc base s.seeds 0
        (some (record { expand_pointers = opts.expand_pointers; requirements = s.requirements }))
      >>= (λ (required, added). ok (record {
        base = base;
        required = required;
        requirements = s.requirements;
        seed_total = s.stats;
        added_types = added;
      }))

  unfoldable pub prepare : Options → Btf → Result Product
  prepare opts base =
      let (made, required) = TypeSet.init host.alloc base.type_cnt in
      let (ready, requirements) = Requirements.init host.alloc base.type_cnt in
      Index.init host.number host.alloc base >>= (λ index.
        guard made Failure.type_set_no_memory
        >> (guard ready Failure.requirements_no_memory
            >> (seed_objects index opts.objects (record {
              seeds = required;
              requirements = some requirements;
              stats = stats_init;
            })
                >>= close opts base)))

  -- Everything before the output.
  unfoldable pub generate : Options → Result Product
  generate opts =
      load_base_btf host.parse_btf host.strerror (path_of opts.btf_path)
      >>= (λ doc. with_btf doc (prepare opts))

  module _ (fuel : ℕ) where
    unfoldable pub emission : Bool → Product → Result Text
    emission sound p =
        emit_header_with_options p.base p.requirements fuel host.header_alloc sound p.required []

    -- Onto the file or onto stdout.
    unfoldable pub output : Option Text → Product → S → Result Text × S
    output none p s = (emission host.sound_out p, s)
    output (some path) p s =
        let (r, files) =
          write_header_to_path host.disk host.strerror host.pid path (emission true p) s in
        (r >> ok [], files)

    unfoldable pub explanation : Options → Product → Result Text
    explanation opts p =
        if opts.explain then write_explanation p.base host.sound_err p.requirements else ok []

    -- The exit behind the explanation.
    unfoldable pub explained : Options → Product → Text → S → Result Text → Option (Outcome S)
    explained opts p out files (failed e) = stopped 1 out files e
    explained opts p out files (ok text) = some (record {
      code = 0;
      out = out;
      diagnostics = if opts.stats then text ++ stats_text opts p else text;
      error = none;
      files = files;
    })

    -- The exit behind the output.
    unfoldable pub conclude : Options → Product → Result Text × S → Option (Outcome S)
    conclude opts p (failed e, files) = stopped 1 [] files e
    conclude opts p (ok out, files) = explained opts p out files (explanation opts p)

    -- The part behind the phases.
    unfoldable pub deliver : Options → S → Result Product → Option (Outcome S)
    deliver opts s (failed e) = stopped 1 [] s e
    deliver opts s (ok p) = conclude opts p (output opts.output_path p s)

    -- The part behind the command line.
    unfoldable pub start : Option Text → S → Result Options → Option (Outcome S)
    start argv0 s (failed e) = stopped 2 [] s e
    start argv0 s (ok opts) =
        if opts.help
        then some
            (record { code = 0; out = print_help argv0; diagnostics = []; error = none; files = s })
        else if opts.version
        then some (record {
          code = 0;
          out = print_version host.version host.revision host.libbpf_version;
          diagnostics = [];
          error = none;
          files = s;
        })
        else deliver opts s (generate opts)

    -- `argv0` is the program's name, `argv` what follows it.
    unfoldable pub main : Option Text → List Text → S → Option (Outcome S)
    main argv0 argv s = start argv0 s (parse host.alloc argv options_init)
