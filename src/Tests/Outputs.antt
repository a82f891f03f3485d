-- ===== src/Tests/Outputs.antt =====
-- A run of the program on files in memory, and the theorems on its output file.
use mathlib.Core.Path.{subst}
use min_corehdr.Prelude.{
  ◌≤◌, ◌^◌, arith, ℕ, ◌≡◌, refl, sym, ap, ◌∙◌, ◌≢◌, ◌⊎◌, inl, inr, true, false, ◌||◌, Option, none,
  some, List, [], ◌∷◌, ◌++◌, if◌then◌else◌, Bool-cases, Text, codes, text_eq, text_eq_iff,
}
use min_corehdr.Errors.{Failure, Result, ok, failed}
use min_corehdr.Btf.{Btf}
use min_corehdr.Loader
use min_corehdr.Loader.{Parsed, Doc, doc_init}
use min_corehdr.Files
use min_corehdr.Files.{Disk, Creation, created, exists, refused}
use min_corehdr.Files.Atomic.{IsLawful, Spared, Replaced, write_header_to_path-Atomic}
use min_corehdr.Program
use min_corehdr.Program.{Host, Outcome}
use min_corehdr.Program.Complete.{Header, main-Header}
use min_corehdr.Program.Atomic.{Ending, main-Atomic}
use min_corehdr.Cli.{Options, parse, options_init}
use min_corehdr.Cli.Texts
use min_corehdr.Emitter
use min_corehdr.Tests.{always, sample}
use min_corehdr.Tests.Commands
use min_corehdr.Tests.Closures
use min_corehdr.Tests.Headers
use min_corehdr.Tests.Explaining
use min_corehdr.Tests.Indexes.{number}
use min_corehdr.Tests.Relocating
use min_corehdr.Tests.Relocating.{relo_kind, ext}
use min_corehdr.Tests.Seeding

abbrev Memory : Type 0
Memory = Text → Option Text

abbrev put : Text → Option Text → Memory → Memory
put p file s q = if text_eq q p then file else s q

made : Text → Memory → Option Text → Creation × Memory
made p s none = (created, put p (some []) s)
made p s (some text) = (exists, s)

-- Every call succeeds, but that a file which exists is not created again.
memory : Disk Memory
unfolding made
memory = record {
  contents = λ s. s;
  create = λ p s. made p s (s p);
  stream = λ p s. (none, s);
  finish = λ p text s. ((true, none), put p (some text) s);
  abandon = λ p s. put p (some []) s;
  remove = λ p s. put p none s;
  rename = λ p q s. (none, put q (s p) (put p none s));
}

put-other : (p q : Text) (file : Option Text) (s : Memory) → q ≢ p → put p file s q ≡ s q
put-other p q file s h = elim (Bool-cases (text_eq q p)) [
  | inl e ↦ absurd (h ((text_eq_iff q p).0 e))
  | inr e ↦ rw e refl
]

put-same : (p : Text) (file : Option Text) (s : Memory) → put p file s p ≡ file
put-same p file s = rw ((text_eq_iff p p).1 refl) refl

made-fresh :
    (p : Text) (s t : Memory) (file : Option Text)
    → s p ≡ file
    → made p s file ≡ (created, t)
    → (s p ≡ none) × ((q : Text) → q ≢ p → t q ≡ s q)
unfolding made
made-fresh p s t none e run = (e, λ q h. ap (λ r. r.1 q) (sym run) ∙ put-other p q (some []) s h)
made-fresh p s t (some text) e run = absurd (cc run)

made-exists :
    (p : Text) (s t : Memory) (file : Option Text)
    → made p s file ≡ (exists, t)
    → (q : Text) → t q ≡ s q
unfolding made
made-exists p s t none run q = absurd (cc run)
made-exists p s t (some text) run q = ap (λ r. r.1 q) (sym run)

made-refused :
    (p : Text) (errno : ℕ) (s t : Memory) (file : Option Text)
    → made p s file ≡ (refused errno, t)
    → (q : Text) → t q ≡ s q
unfolding made
made-refused p errno s t none run q = absurd (cc run)
made-refused p errno s t (some text) run q = absurd (cc run)

memory-IsLawful : IsLawful memory
unfolding memory
memory-IsLawful = record {
  create-fresh = λ p s t run. made-fresh p s t (s p) refl run;
  create-exists = λ p s t run. made-exists p s t (s p) run;
  create-refused = λ p errno s t run. made-refused p errno s t (s p) run;
  stream-same = λ p s q. refl;
  finish-only = λ p text s q h. put-other p q (some text) s h;
  finish-written = λ p text s t run. ap (λ r. r.1 p) (sym run) ∙ put-same p (some text) s;
  abandon-only = λ p s q h. put-other p q (some []) s h;
  remove-only = λ p s q h. put-other p q none s h;
  rename-moved = λ p q s t run. (
    ap (λ r. r.1 q) (sym run) ∙ put-same q (s p) (put p none s),
    λ r other_p other_q.
        ap (λ x. x.1 r) (sym run)
        ∙ put-other q r (s p) (put p none s) other_q
        ∙ put-other p r none s other_p,
  );
  rename-refused = λ p q errno s t run. absurd (cc run);
}

-- libbpf has the sample for every path.
sample_parsed : Parsed Btf
sample_parsed = record { handle = some sample; libbpf_err = 0; errno = 0 }

host : Host Memory
unfolding sample_parsed
host = record {
  disk = memory;
  strerror = λ errno. codes "error";
  pid = 7;
  alloc = always;
  header_alloc = λ k. always;
  parse_btf = λ path. sample_parsed;
  parse_elf = λ path. (sample_parsed, ext);
  number = number;
  relo_kind = relo_kind;
  little = true;
  sound_out = true;
  sound_err = true;
  version = codes "1.0";
  revision = codes "abc";
  libbpf_version = codes "v1.5";
}

-- The output file exists.
abbrev before : Memory
before = put (codes "o.h") (some (codes "old")) (λ q. none)

abbrev argv : List Text
argv = codes "--btf=vmlinux" ∷ codes "-oo.h" ∷ codes "--stats" ∷ codes "a.o" ∷ []

ended : Option (Outcome Memory)
ended = Program.main host 30 none argv before

-- A run that has no end has seen nothing.
abbrev no_end : Outcome Memory
no_end = record { code = 3; out = []; diagnostics = []; error = none; files = before }

end_of : Option (Outcome Memory) → Outcome Memory
end_of none = no_end
end_of (some o) = o

saw : Option (Outcome Memory) → ℕ × (Option Text × Option Text)
unfolding end_of
saw o = ((end_of o).code, ((end_of o).files (codes "o.h"), (end_of o).files (codes "o.h.tmp.7.0")))

main_run : saw ended ≡ (
  0,
  (
    some (
        Emitter.prologue sample
        ++ (codes
              "struct task;\nstruct mm;\n\nstruct task {\n  unsigned int pid;\n  struct mm *mm;\n};\n\nstruct mm {\n  unsigned int users;\n};\n\n"
            ++ Emitter.epilogue sample)),
    none,
  ),
)
unfolding Seeding.runs Relocating.runs Commands.runs Closures.runs Headers.runs Explaining.runs
    memory made host sample_parsed ended saw end_of Loader.doc_destroy Loader.error_code
    Loader.load_base_btf Loader.load_object_btf Files.temp_path Files.streamed Files.opened
    Files.open_loop Files.open_temp_output Files.renamed Files.closed Files.emitted
    Files.with_output Files.write_header_to_path Program.add_stats Program.with_btf
    Program.result_of Program.path_of Program.stat_line Program.stats_text Program.seed_object
    Program.seed_objects Program.close Program.prepare Program.generate Program.emission
    Program.output Program.explanation Program.explained Program.stopped Program.message_of
    Program.conclude Program.deliver Program.start Program.main
main_run = refl

version_run :
    (end_of (Program.main host 30 none (codes "-V" ∷ []) before)).out
    ≡ codes "min-corehdr 1.0\ngit abc\nlibbpf v1.5\n"
unfolding end_of Commands.runs memory made host sample_parsed Texts.print_version Program.start
    Program.main
version_run = refl

help_run :
    (help : Text) × (end_of (Program.main host 30 none (codes "--help" ∷ []) before)).out
      ≡ codes "min-corehdr - generate" ++ help
unfolding end_of Commands.runs memory made host sample_parsed Texts.program_name Texts.usage_text
    Texts.options_text Texts.print_help Program.start Program.main
help_run = (_, refl)

taken : Result Options → Options
taken (ok opts) = opts
taken (failed e) = options_init

abbrev opts : Options
opts = taken (parse always argv options_init)

accepted_run :
    (parse host.alloc argv options_init ≡ ok opts)
    × ((opts.help || opts.version) ≡ false)
    × (opts.output_path ≡ some (codes "o.h"))
unfolding Commands.runs host sample_parsed taken
accepted_run = (refl, refl, refl)

host-IsLawful : IsLawful host.disk
unfolding host sample_parsed
host-IsLawful = memory-IsLawful

main-Atomic_example :
    Ending host 30 opts (codes "o.h") before (Program.main host 30 none argv before)
main-Atomic_example =
    main-Atomic host 30 host-IsLawful none argv opts (codes "o.h") before accepted_run.0
      accepted_run.1 accepted_run.2

abbrev written : Result (Unit {0}) × Memory
written = Files.write_header_to_path memory (λ errno. []) 7 (codes "o.h") (ok (codes "new")) before

write_header_to_path-Atomic_example :
    ((e : Failure) × (written.0 ≡ failed e) × Spared memory (codes "o.h") before written.1)
    ⊎ ((text : Text) × (ok (codes "new") ≡ ok text)
        × (written.0 ≡ ok tt)
        × Replaced memory (codes "o.h") text before written.1)
write_header_to_path-Atomic_example =
    write_header_to_path-Atomic memory (λ errno. []) 7 memory-IsLawful (codes "o.h")
      (ok (codes "new")) before written.1 written.0 refl

host_small : (path : Text) (b : Btf) → (host.parse_btf path).handle ≡ some b → b.type_cnt ≤ 2 ^ 32
unfolding host sample_parsed
host_small path b e =
    let same : sample ≡ b = cc e in subst (λ b. b.type_cnt ≤ 2 ^ 32) same (omega arith)

-- The run has an end, with the exit code 0.
finish_run :
    (o : Option (Outcome Memory))
    → (saw o).0 ≡ 0
    → (end : Outcome Memory) × (o ≡ some end) × (end.code ≡ 0)
unfolding saw end_of
finish_run none e = absurd (omega (arith, e))
finish_run (some end) e = (end, refl, e)

exit_run :
    (end : Outcome Memory) × (Program.main host 30 none argv before ≡ some end) × (end.code ≡ 0)
unfolding ended
exit_run = finish_run (Program.main host 30 none argv before) (ap (λ r. r.0) main_run)

main-Header_example : Header host 30 opts (codes "o.h") exit_run.0
main-Header_example =
    main-Header host 30 host-IsLawful host_small none argv opts (codes "o.h") before accepted_run.0
      accepted_run.1 accepted_run.2 exit_run.0 exit_run.1 exit_run.2
