-- ===== src/Program/Complete.antt =====
-- What the header of a run has.
use min_corehdr.Prelude.{
  refl, ℕ, ◌+◌, ◌*◌, ◌^◌, ◌≤◌, ◌<◌, ◌≡◌, sym, ◌∙◌, ◌≢◌, inl, inr, true, false, ◌||◌, Option, none,
  some, List, [], ◌∷◌, arith, Bool-cases, Option-cases, Text,
}
use mathlib.Core.Path.{subst}
use min_corehdr.Errors.{Failure, Result, ok, failed, guard-ok, guard-true, >>=-eq-ok}
use min_corehdr.Errors.Yields.{
  Yields, ok-Yields, Yields-ok, self-Yields, Yields-failed, bind-Yields, then-Yields, Yields-mono,
}
use min_corehdr.Btf.{Btf}
use min_corehdr.TypeSet
use min_corehdr.TypeSet.{TypeSet}
use min_corehdr.TypeSet.Laws.{IsValid, init_lem}
use min_corehdr.TypeSet.Extends.{Extends-refl, Extends-trans}
use min_corehdr.Requirements
use min_corehdr.Requirements.{Requirements}
use min_corehdr.Index
use min_corehdr.Index.{Index}
use min_corehdr.Seeds.{Seeds, stats_init}
use min_corehdr.Seeds.Extends.{More, extract_object_seeds-Extends}
use min_corehdr.Relocations.Bytes.{Run, stuck, ran}
use min_corehdr.Relocations.Extends.{Leaves, extract_core_relo_seeds-Extends}
use min_corehdr.Closure.{compute}
use min_corehdr.Closure.Total.{IsClosure, compute-IsClosure}
use min_corehdr.Emitter.Complete.{Complete, emit_header-Complete}
use min_corehdr.Loader.{Doc, load_base_btf, load_object_btf}
use min_corehdr.Files.Atomic.{IsLawful}
use min_corehdr.Cli.{Options, parse, options_init}
use min_corehdr.Program.{
  Host, Product, Outcome, with_btf, result_of, path_of, seed_object, seed_objects, close, prepare,
  generate, emission, main,
}
use min_corehdr.Program.Atomic.{main-Atomic, Ending-end}

result_of-Yields : {A : Type 0} (P : A → Type 0) (r : Run A) → Leaves P r → Yields P (result_of r)
unfolding Leaves result_of
result_of-Yields P stuck h = Yields-failed P _
result_of-Yields P (ran r) h = h

with_btf-Yields :
    {A : Type 0} (P : A → Type 0) (doc : Doc) (next : Btf → Result A)
    → ((b : Btf) → doc.btf ≡ some b → Yields P (next b))
    → Yields P (with_btf doc next)
unfolding with_btf
with_btf-Yields P doc next h = elim (Option-cases doc.btf) [
  | inl gone ↦
      subst (λ o. Yields P (elim o [ none ↦ failed Failure.out_of_fuel | some b ↦ next b ]))
        (sym gone) (Yields-failed P _)
  | inr (b, at) ↦
      subst (λ o. Yields P (elim o [ none ↦ failed Failure.out_of_fuel | some b ↦ next b ]))
        (sym at) (h b at)
]

module _ {S : Type 0} (host : Host S) where
  seed_object-Extends :
      (index : Index) (path : Text) (s : Seeds)
      → IsValid s.seeds
      → Yields (More s) (seed_object host index path s)
  unfolding seed_object
  seed_object-Extends index path s v =
      let start : Seeds = record s { stats = stats_init } in
      then-Yields (More s) (load_object_btf host.parse_elf host.strerror path) _ (λ doc.
        with_btf-Yields (More s) doc _ (λ object at.
          bind-Yields (More s) (More s) _ _
            (bind-Yields (More start) (More s) _ _
              (extract_object_seeds-Extends host.number index object host.alloc path start v)
              (λ t first.
                Yields-mono (More t) (More s) _
                  (result_of-Yields (More t) _ (
                    extract_core_relo_seeds-Extends host.relo_kind host.number host.alloc index
                      object path host.little doc.ext t first.valid))
                  (λ u rest. Extends-trans s.seeds t.seeds u.seeds first rest)))
            (λ u so_far. ok-Yields (More s) _ so_far)))

  seed_objects-Extends :
      (index : Index) (paths : List Text) (s : Seeds)
      → IsValid s.seeds
      → Yields (More s) (seed_objects host index paths s)
  unfolding seed_objects
  seed_objects-Extends index [] s v = ok-Yields (More s) s (Extends-refl s.seeds v)
  seed_objects-Extends index (path ∷ paths) s v =
      bind-Yields (More s) (More s) _ _ (seed_object-Extends index path s v) (λ t first.
        Yields-mono (More t) (More s) _ (seed_objects-Extends index paths t first.valid)
          (λ u rest. Extends-trans s.seeds t.seeds u.seeds first rest))

  -- The seeds before the first object.
  abbrev pub no_seeds : Btf → Seeds
  no_seeds base = record {
    seeds = (TypeSet.init host.alloc base.type_cnt).1;
    requirements = some (Requirements.init host.alloc base.type_cnt).1;
    stats = stats_init;
  }

  -- The required types are the closure of the seeds that the objects give, in order, by the index of
  -- the base.
  pub record Closed (opts : Options) (p : Product) : Type 0 where
    pub narrow : p.base.type_cnt ≤ 2 ^ 32
    pub index : Index
    pub indexed : Index.init host.number host.alloc p.base ≡ ok index
    pub seeds : Seeds
    pub extracted : seed_objects host index opts.objects (no_seeds p.base) ≡ ok seeds
    pub same_requirements : p.requirements ≡ seeds.requirements
    pub closure :
        IsClosure p.base
          (some (record { expand_pointers = opts.expand_pointers; requirements = p.requirements }))
          seeds.seeds
          0
          p.required
          p.added_types

  close-Closed :
      (opts : Options) (base : Btf) (index : Index) (s : Seeds)
      → Index.init host.number host.alloc base ≡ ok index
      → seed_objects host index opts.objects (no_seeds base) ≡ ok s
      → IsValid s.seeds
      → s.seeds.count ≡ base.type_cnt
      → base.type_cnt ≤ 2 ^ 32
      → Yields (Closed opts) (close host opts base s)
  unfolding close
  close-Closed opts base index s indexed extracted v sized small =
      let o =
        some (record { expand_pointers = opts.expand_pointers; requirements = s.requirements }) in
      bind-Yields (λ r. compute host.alloc base s.seeds 0 o ≡ ok r) (Closed opts) _ _
        (self-Yields _)
        (λ r e.
          ok-Yields (Closed opts)
            (record {
              base = base;
              required = r.0;
              requirements = s.requirements;
              seed_total = s.stats;
              added_types = r.1;
            })
            (record {
              narrow = small;
              index = index;
              indexed = indexed;
              seeds = s;
              extracted = extracted;
              same_requirements = refl;
              closure =
                  compute-IsClosure host.alloc base s.seeds 0 o v (omega (arith, sized, small))
                    (omega (arith, sized)) r.0 r.1 e;
            }))

  not_made :
      (n : ℕ)
      → host.alloc (TypeSet.word_count_for_bits n * 8) ≡ false
      → (TypeSet.init host.alloc n).0 ≢ true
  unfolding TypeSet.init
  not_made n refused made = ground (arith, refused, made)

  made-IsValid :
      (n : ℕ)
      → n + 64 < 2 ^ 64
      → (TypeSet.init host.alloc n).0 ≡ true
      → IsValid (TypeSet.init host.alloc n).1 × ((TypeSet.init host.alloc n).1.count ≡ n)
  made-IsValid n small made = elim (Bool-cases (host.alloc (TypeSet.word_count_for_bits n * 8))) [
    | inl got ↦ let (_, sized, valid, _) = init_lem host.alloc n small got in (valid, sized)
    | inr refused ↦ absurd (not_made n refused made)
  ]

  prepare-Closed :
      (opts : Options) (base : Btf) (p : Product)
      → base.type_cnt ≤ 2 ^ 32
      → prepare host opts base ≡ ok p
      → Closed opts p
  unfolding prepare
  prepare-Closed opts base p small e =
      let start = TypeSet.init host.alloc base.type_cnt in
      let tables = Requirements.init host.alloc base.type_cnt in
      let (index, indexed, e1) = >>=-eq-ok (Index.init host.number host.alloc base) _ e in
      let e2 = guard-ok start.0 _ _ e1 in
      let e3 = guard-ok tables.0 _ _ e2 in
      let s = no_seeds base in
      let (t, run, last) =
        >>=-eq-ok (seed_objects host index opts.objects s) (close host opts base) e3 in
      let (v, sized) =
        made-IsValid base.type_cnt (omega (arith, small)) (guard-true start.0 _ _ e1) in
      let more = Yields-ok (More s) _ t (seed_objects-Extends index opts.objects s v) run in
      Yields-ok (Closed opts) _ p
        (close-Closed opts base index t indexed run more.valid (more.count ∙ sized) small) last

  -- A base that was loaded is one that libbpf gave.
  loaded :
      (path : Text) (doc : Doc) (b : Btf)
      → load_base_btf host.parse_btf host.strerror path ≡ ok doc
      → doc.btf ≡ some b
      → (host.parse_btf path).handle ≡ some b
  unfolding load_base_btf
  loaded path doc b e at = elim (Option-cases (host.parse_btf path).handle) [
    | inl gone ↦ absurd (ground (arith, e, gone))
    | inr (base, there) ↦ ground (arith, e, there, at)
  ]

  generate-Closed :
      ((path : Text) (b : Btf) → (host.parse_btf path).handle ≡ some b → b.type_cnt ≤ 2 ^ 32)
      → (opts : Options) (p : Product) → generate host opts ≡ ok p
      → Closed opts p
  unfolding generate
  generate-Closed small opts p e =
      let (doc, load, e1) =
        >>=-eq-ok (load_base_btf host.parse_btf host.strerror (path_of opts.btf_path)) _ e in
      Yields-ok (Closed opts) _ p
        (with_btf-Yields (Closed opts) doc (prepare host opts) (λ b at.
          Yields-mono (λ q. prepare host opts b ≡ ok q) (Closed opts) _ (self-Yields _)
            (λ q run.
              prepare-Closed opts b q (small (path_of opts.btf_path) b (loaded _ doc b load at))
                run)))
        e1

  module _ (fuel : ℕ) where
    -- A header with the definitions of all types that the program must have, in the output file.
    pub record Header (opts : Options) (path : Text) (end : Outcome S) : Type 0 where
      pub product : Product
      pub text : Text
      pub generated : generate host opts ≡ ok product
      pub closed : Closed opts product
      pub complete : Complete product.base product.requirements product.required [] text
      pub contents : host.disk.contents end.files path ≡ some text

    -- On a file system with the laws of POSIX, and for BTF of at most 2 ^ 32 types, a run that exits
    -- with 0 on a command line with an output path, and without --help and --version, leaves a header
    -- in the output file; the required types are the closure of the seeds that the objects give, and
    -- the header has the definition of every required record and of every required typedef with a
    -- name.
    pub main-Header :
        IsLawful host.disk
        → ((path : Text) (b : Btf) → (host.parse_btf path).handle ≡ some b → b.type_cnt ≤ 2 ^ 32)
        → (argv0 : Option Text) (argv : List Text) (opts : Options) (path : Text) (s : S)
        → parse host.alloc argv options_init ≡ ok opts
        → (opts.help || opts.version) ≡ false
        → opts.output_path ≡ some path
        → (end : Outcome S) → main host fuel argv0 argv s ≡ some end
        → end.code ≡ 0
        → Header opts path end
    unfolding emission
    main-Header laws small argv0 argv opts path s accepted runs there end ended success =
        let ending = main-Atomic host fuel laws argv0 argv opts path s accepted runs there in
        elim (Ending-end host fuel opts path s _ end ending ended) [
          | inr refused ↦ absurd (omega (arith, refused.code, success))
          | inl done ↦
              let p = done.product in
              let closed = generate-Closed small opts p done.made in
              record {
                product = p;
                text = done.text;
                generated = done.made;
                closed = closed;
                complete =
                    emit_header-Complete p.base p.requirements fuel host.header_alloc true
                      p.required [] done.text closed.closure.valid closed.narrow done.emitted;
                contents = done.replaced.0;
              }
        ]
