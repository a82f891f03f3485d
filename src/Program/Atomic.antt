-- ===== src/Program/Atomic.antt =====
-- What a run of the program does to its output file.
use min_corehdr.Prelude.{
  ℕ, ◌≡◌, refl, sym, ap, ◌∙◌, ◌⊎◌, inl, inr, Bool, true, false, ◌||◌, Option, some, List, [], arith,
  none, Bool-cases, if◌then◌else◌, Text,
}
use mathlib.Core.Path.{subst}
use min_corehdr.Errors.{Failure, Result, ok, failed, ◌>>◌, Result-cases}
use min_corehdr.Files.Atomic.{IsLawful, Spared, Replaced, write_header_to_path-Atomic}
use min_corehdr.Cli.{Options, parse, options_init}
use min_corehdr.Requirements.Explain.{write_explanation}
use min_corehdr.Files.{write_header_to_path}
use min_corehdr.Program.Rounds.{write-rounds, write_explanation-rounds}
use min_corehdr.Program.{
  Host, Product, Outcome, generate, emission, output, explanation, explained, conclude, deliver,
  start, main, stopped, message_of,
}

module _ {S : Type 0} (host : Host S) (fuel : ℕ) where
  -- A failure that sets no message.
  abbrev pub IsSilent : Failure → Type 0
  IsSilent e = (e ≡ Failure.header_write_failed) ⊎ (e ≡ Failure.emitter_missing_type)

  -- The error that is printed for a failure.
  pub record Reported (e : Failure) (error : Option Failure) : Type 0 where
    pub shown : ¬ IsSilent e → error ≡ some e
    pub silent : IsSilent e → error ≡ none

  abbrev pub explains : Product → Result Text
  explains p = write_explanation p.base host.sound_err p.requirements

  -- The output is the header of what the phases made. The run ends well exactly if the explanation
  -- that it was asked for, if it was, can be written.
  pub record Delivered (opts : Options) (path : Text) (s : S) (end : Outcome S) : Type 0 where
    pub product : Product
    pub text : Text
    pub made : generate host opts ≡ ok product
    pub emitted : emission host fuel true product ≡ ok text
    pub replaced : Replaced host.disk path text s end.files
    pub exit :
        ((end.code ≡ 0)
          × (end.error ≡ none)
          × (opts.explain ≡ true → (lines : Text) × (explains product ≡ ok lines)))
        ⊎ ((e : Failure) × (end.code ≡ 1)
            × Reported e end.error
            × (opts.explain ≡ true)
            × (explains product ≡ failed e))

  abbrev pub writes : Product → Text → S → Result (Unit {0})
  writes p path s =
      (write_header_to_path host.disk host.strerror host.pid path (emission host fuel true p) s).0

  pub record Refused (opts : Options) (path : Text) (s : S) (end : Outcome S) : Type 0 where
    pub code : end.code ≡ 1
    pub reason : Failure
    pub from :
        (generate host opts ≡ failed reason)
        ⊎ ((p : Product) × (generate host opts ≡ ok p) × (writes p path s ≡ failed reason))
    pub reported : Reported reason end.error
    pub spared : Spared host.disk path s end.files

  -- A run that ends has delivered or refused; one that does not end is in the emission or before it.
  pub data Ending (opts : Options) (path : Text) (s : S) : Option (Outcome S) → Type 0 where
    delivered : (end : Outcome S) → Delivered opts path s end → Ending opts path s (some end)
    refused : (end : Outcome S) → Refused opts path s end → Ending opts path s (some end)
    endless :
        (generate host opts ≡ failed Failure.out_of_fuel)
          ⊎ ((p : Product) × (generate host opts ≡ ok p)
              × (emission host fuel true p ≡ failed Failure.out_of_fuel))
        → Ending opts path s none

  -- A failure either has an outcome with its exit code and its report, or is a lack of rounds.
  stopped-cases :
      (code : ℕ) (out : Text) (files : S) (e : Failure)
      → ((e ≡ Failure.out_of_fuel) × (stopped code out files e ≡ none))
        ⊎ ((end : Outcome S) × (stopped code out files e ≡ some end)
            × (end.code ≡ code)
            × (end.files ≡ files)
            × Reported e end.error)
  unfolding stopped message_of
  stopped-cases code out files Failure.out_of_fuel = inl (refl, refl)
  stopped-cases code out files Failure.header_write_failed = inr (
    _,
    refl,
    refl,
    refl,
    record { shown = λ loud. absurd (loud (inl refl)); silent = λ quiet. refl },
  )
  stopped-cases code out files Failure.emitter_missing_type = inr (
    _,
    refl,
    refl,
    refl,
    record { shown = λ loud. absurd (loud (inr refl)); silent = λ quiet. refl },
  )
  stopped-cases code out files e = inr (
    _,
    refl,
    refl,
    refl,
    record {
      shown = λ loud. refl;
      silent = λ quiet. elim quiet [ inl h ↦ absurd (cc h) | inr h ↦ absurd (cc h) ];
    },
  )

  -- A failure before the output, or of the output.
  stopped-Refused :
      (opts : Options) (path : Text) (s t : S) (e : Failure)
      → ((generate host opts ≡ failed e)
          ⊎ ((p : Product) × (generate host opts ≡ ok p) × (writes p path s ≡ failed e)))
      → Spared host.disk path s t
      → (e ≡ Failure.out_of_fuel
          → (generate host opts ≡ failed Failure.out_of_fuel)
            ⊎ ((p : Product) × (generate host opts ≡ ok p)
                × (emission host fuel true p ≡ failed Failure.out_of_fuel)))
      → Ending opts path s (stopped 1 [] t e)
  stopped-Refused opts path s t e from spared lacks = elim (stopped-cases 1 [] t e) [
    | inl (lack, same) ↦ rw same (endless (lacks lack))
    | inr (end, same, code, files, reported) ↦ rw same (
        refused end (record {
          code = code;
          reason = e;
          from = from;
          reported = reported;
          spared = subst (Spared host.disk path s) (sym files) spared;
        }))
  ]

  explanation-asked :
      (opts : Options) (p : Product)
      → opts.explain ≡ true
      → explanation host fuel opts p ≡ explains p
  unfolding explanation
  explanation-asked opts p asked = ground (arith, asked)

  explanation-quiet :
      (opts : Options) (p : Product) → opts.explain ≡ false → explanation host fuel opts p ≡ ok []
  unfolding explanation
  explanation-quiet opts p quiet = ground (arith, quiet)

  module _ (opts : Options) (path : Text) (s t : S) (p : Product) (text : Text)
      (made : generate host opts ≡ ok p) (emits : emission host fuel true p ≡ ok text)
      (replaced : Replaced host.disk path text s t) where
    explained-well :
        (lines : Text)
        → (opts.explain ≡ true → (lines : Text) × (explains p ≡ ok lines))
        → Ending opts path s (explained host fuel opts p [] t (ok lines))
    unfolding explained
    explained-well lines written = delivered _ (record {
      product = p;
      text = text;
      made = made;
      emitted = emits;
      replaced = replaced;
      exit = inl (refl, refl, written);
    })

    explained-badly :
        (e : Failure)
        → opts.explain ≡ true
        → explains p ≡ failed e
        → Ending opts path s (explained host fuel opts p [] t (failed e))
    unfolding explained
    explained-badly e asked bad = elim (stopped-cases 1 [] t e) [
      | inl (lack, same) ↦
          absurd
            (write_explanation-rounds p.base host.sound_err p.requirements (bad ∙ ap failed lack))
      | inr (end, same, code, files, reported) ↦ rw same (
          delivered end (record {
            product = p;
            text = text;
            made = made;
            emitted = emits;
            replaced = subst (Replaced host.disk path text s) (sym files) replaced;
            exit = inr (e, code, reported, asked, bad);
          }))
    ]

    -- The explanation behind an output that was written.
    explained-Ending :
        Ending opts path s (explained host fuel opts p [] t (explanation host fuel opts p))
    explained-Ending = elim (Bool-cases opts.explain) [
      | inr quiet ↦
          subst (λ r. Ending opts path s (explained host fuel opts p [] t r))
            (sym (explanation-quiet opts p quiet))
            (explained-well [] (λ asked. absurd (cc (quiet, asked))))
      | inl asked ↦ elim (Result-cases (explains p)) [
        | inl (lines, good) ↦
            subst (λ r. Ending opts path s (explained host fuel opts p [] t r))
              (sym (explanation-asked opts p asked ∙ good))
              (explained-well lines (λ again. (lines, good)))
        | inr (e, bad) ↦
            subst (λ r. Ending opts path s (explained host fuel opts p [] t r))
              (sym (explanation-asked opts p asked ∙ bad)) (explained-badly e asked bad)
      ]
    ]

  conclude-Ending :
      (opts : Options) (path : Text) (s t : S) (p : Product) (r : Result (Unit {0}))
      → generate host opts ≡ ok p
      → writes p path s ≡ r
      → ((e : Failure) × (r ≡ failed e) × Spared host.disk path s t)
        ⊎ ((text : Text) × (emission host fuel true p ≡ ok text)
            × (r ≡ ok tt)
            × Replaced host.disk path text s t)
      → Ending opts path s (conclude host fuel opts p (r >> ok [], t))
  unfolding conclude
  conclude-Ending opts path s t p (failed e) made run (inl (e', same, spared)) =
      stopped-Refused opts path s t e (inr (p, made, run)) spared (λ lack.
        inr (p, made, write-rounds host.disk host.strerror host.pid path _ s (run ∙ cc lack)))
  conclude-Ending opts path s t p (failed e) made run (inr (text, emits, same, replaced)) =
      absurd (cc same)
  conclude-Ending opts path s t p (ok u) made run (inl (e', same, spared)) = absurd (cc same)
  conclude-Ending opts path s t p (ok u) made run (inr (text, emits, same, replaced)) =
      explained-Ending opts path s t p text made emits replaced

  deliver-Ending :
      IsLawful host.disk
      → (opts : Options) (path : Text) (s : S) (r : Result Product) → generate host opts ≡ r
      → opts.output_path ≡ some path
      → Ending opts path s (deliver host fuel opts s r)
  unfolding deliver output
  deliver-Ending laws opts path s (failed e) made there =
      stopped-Refused opts path s s e (inl made) (refl, λ q full. refl)
        (λ lack. inl (made ∙ cc lack))
  deliver-Ending laws opts path s (ok p) made there =
      subst (λ o. Ending opts path s (conclude host fuel opts p (output host fuel o p s)))
        (sym there)
        (conclude-Ending opts path s _ p _ made refl (
          write_header_to_path-Atomic host.disk host.strerror host.pid laws path
            (emission host fuel true p) s _ _ refl))

  if_false : {A : Type 0} (c : Bool) (x y : A) → c ≡ false → (if c then x else y) ≡ y
  if_false true x y e = absurd (cc e)
  if_false false x y e = refl

  start-runs :
      (argv0 : Option Text) (s : S) (opts : Options)
      → (opts.help || opts.version) ≡ false
      → start host fuel argv0 s (ok opts) ≡ deliver host fuel opts s (generate host opts)
  unfolding start
  start-runs argv0 s opts runs =
      let no_help : opts.help ≡ false = ground (arith, runs) in
      let no_version : opts.version ≡ false = ground (arith, runs) in
      if_false opts.help _ _ no_help ∙ if_false opts.version _ _ no_version

  -- On a file system with the laws of POSIX, a run whose command line is accepted with an output
  -- path, and without --help and --version, ends in one of two ways, or does not end. Either the
  -- output file holds the whole header of what the phases made, and every other file with contents
  -- is as it was; then the exit code is 0, with no error printed, if the explanation was not asked
  -- for or is written, and 1 if it was asked for and its writing failed. Or the phases or the
  -- writing of the output failed: the exit code is 1, and the output file and every other file with
  -- contents are as they were. With the exit code 1 the error that the failing call returns is
  -- printed, but for an error of the output stream and a required type without a definition, which
  -- set no message: then none is. It does not end only where the phases or the emission use up the
  -- rounds of the model.
  pub main-Atomic :
      IsLawful host.disk
      → (argv0 : Option Text) (argv : List Text) (opts : Options) (path : Text) (s : S)
      → parse host.alloc argv options_init ≡ ok opts
      → (opts.help || opts.version) ≡ false
      → opts.output_path ≡ some path
      → Ending opts path s (main host fuel argv0 argv s)
  unfolding main
  main-Atomic laws argv0 argv opts path s accepted runs there =
      let end : main host fuel argv0 argv s ≡ deliver host fuel opts s (generate host opts) =
        ap (start host fuel argv0 s) accepted ∙ start-runs argv0 s opts runs in
      subst (Ending opts path s) (sym end)
        (deliver-Ending laws opts path s (generate host opts) refl there)

  -- The end of a run that has one.
  pub Ending-end :
      (opts : Options) (path : Text) (s : S) (o : Option (Outcome S)) (end : Outcome S)
      → Ending opts path s o
      → o ≡ some end
      → Delivered opts path s end ⊎ Refused opts path s end
  Ending-end opts path s _ end (delivered x d) e = inl (subst (Delivered opts path s) (cc e) d)
  Ending-end opts path s _ end (refused x r) e = inr (subst (Refused opts path s) (cc e) r)
  Ending-end opts path s _ end (endless h) e = absurd (cc e)
