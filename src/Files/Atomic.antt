-- ===== src/Files/Atomic.antt =====
-- The output file is replaced as a whole or not at all.
use min_corehdr.Prelude.{
  ℕ, zero, suc, ◌+◌, ◌≡◌, refl, sym, ap, ◌∙◌, ◌≢◌, ◌⊎◌, inl, inr, Bool, true, false, Option, none,
  some, ◌∷◌, ◌++◌, arith, leb, Bool-cases, length, length-append, Text, codes,
}
use mathlib.Core.Path.{subst}
use min_corehdr.Prelude.Decimal.{decimal}
use min_corehdr.Errors.{Failure, Result, ok, failed}
use min_corehdr.Files.{
  Disk, Creation, created, exists, refused, temp_path, streamed, opened, open_loop,
  open_temp_output, renamed, closed, emitted, with_output, write_header_to_path,
}

module _ {S : Type 0} (disk : Disk S) where
  -- The files hold what they held.
  abbrev pub Same : S → S → Type 0
  Same s t = (q : Text) → disk.contents t q ≡ disk.contents s q

  -- And so do all but one.
  abbrev pub Only : Text → S → S → Type 0
  Only p s t = (q : Text) → q ≢ p → disk.contents t q ≡ disk.contents s q

  -- What POSIX says of the calls.
  pub record IsLawful : Type 0 where
    pub create-fresh :
        (p : Text) (s t : S)
        → disk.create p s ≡ (created, t)
        → (disk.contents s p ≡ none) × Only p s t
    pub create-exists : (p : Text) (s t : S) → disk.create p s ≡ (exists, t) → Same s t
    pub create-refused :
        (p : Text) (errno : ℕ) (s t : S) → disk.create p s ≡ (refused errno, t) → Same s t
    pub stream-same : (p : Text) (s : S) → Same s (disk.stream p s).1
    pub finish-only : (p text : Text) (s : S) → Only p s (disk.finish p text s).1
    pub finish-written :
        (p text : Text) (s t : S)
        → disk.finish p text s ≡ ((true, none), t)
        → disk.contents t p ≡ some text
    pub abandon-only : (p : Text) (s : S) → Only p s (disk.abandon p s)
    pub remove-only : (p : Text) (s : S) → Only p s (disk.remove p s)
    pub rename-moved :
        (p q : Text) (s t : S)
        → disk.rename p q s ≡ (none, t)
        → (disk.contents t q ≡ disk.contents s p)
          × ((r : Text) → r ≢ p → r ≢ q → disk.contents t r ≡ disk.contents s r)
    pub rename-refused :
        (p q : Text) (errno : ℕ) (s t : S) → disk.rename p q s ≡ (some errno, t) → Same s t

  -- A new file may be left behind, but no file with contents has changed, and nor has the output.
  abbrev pub Spared : Text → S → S → Type 0
  Spared path s t =
      (disk.contents t path ≡ disk.contents s path)
      × ((q : Text) → disk.contents s q ≢ none → disk.contents t q ≡ disk.contents s q)

  -- The output is new, and no other file with contents has changed.
  abbrev pub Replaced : Text → Text → S → S → Type 0
  Replaced path text s t =
      (disk.contents t path ≡ some text)
      × ((q : Text) → q ≢ path → disk.contents s q ≢ none → disk.contents t q ≡ disk.contents s q)

  Only-Spared :
      (path tmp : Text) (s t : S)
      → tmp ≢ path
      → disk.contents s tmp ≡ none
      → Only tmp s t
      → Spared path s t
  Only-Spared path tmp s t distinct free only = (
    only path (λ e. distinct (sym e)),
    λ q full. only q (λ e. full (ap (disk.contents s) e ∙ free)),
  )

  Only-trans : (p : Text) (s t u : S) → Only p s t → Only p t u → Only p s u
  Only-trans p s t u a b q h = b q h ∙ a q h

  Same-Spared : (path : Text) (s t u : S) → Same s t → Spared path t u → Spared path s u
  Same-Spared path s t u same spared =
      (spared.0 ∙ same path, λ q full. spared.1 q (λ e. full (sym (same q) ∙ e)) ∙ same q)

  module _ (strerror : ℕ → Text) (pid : ℕ) (laws : IsLawful) where
    temp_path-distinct :
        (path : Text) (attempt : ℕ) → temp_path disk strerror pid path attempt ≢ path
    unfolding temp_path
    temp_path-distinct path attempt e = omega (
      arith,
      ap length e,
      length-append path (codes ".tmp." ++ (decimal pid ++ (46 ∷ decimal attempt))),
    )

    -- The temporary file did not exist before, and is the only one that may have changed.
    Opened : Text → S → Result Text × S → Type 0
    Opened path s (failed e, t) = Spared path s t
    Opened path s (ok tmp, t) = (tmp ≢ path) × (disk.contents s tmp ≡ none) × Only tmp s t

    Same-Opened :
        (path : Text) (s t : S) (r : Result Text × S) → Same s t → Opened path t r → Opened path s r
    unfolding Opened
    Same-Opened path s t (failed e, u) same spared = Same-Spared path s t u same spared
    Same-Opened path s t (ok tmp, u) same (distinct, free, only) =
        (distinct, sym (same tmp) ∙ free, λ q h. only q h ∙ same q)

    stream-Opened :
        (path tmp : Text) (s t : S) (o : Option ℕ × S)
        → tmp ≢ path
        → disk.contents s tmp ≡ none
        → Only tmp s t
        → disk.stream tmp t ≡ o
        → Opened path s (streamed disk strerror pid tmp o)
    unfolding streamed Opened
    stream-Opened path tmp s t (none, u) distinct free only e = (
      distinct,
      free,
      λ q h. ap (λ o. disk.contents o.1 q) (sym e) ∙ laws.stream-same tmp t q ∙ only q h,
    )
    stream-Opened path tmp s t (some errno, u) distinct free only e =
        let after : Only tmp t u =
          λ q h. ap (λ o. disk.contents o.1 q) (sym e) ∙ laws.stream-same tmp t q in
        Only-Spared path tmp s _ distinct free
          (Only-trans tmp s u _ (Only-trans tmp s t u only after) (laws.remove-only tmp u))

    opened-Opened :
        (path tmp : Text) (s : S) (r : Creation × S) (again : S → Result Text × S)
        → tmp ≢ path
        → disk.create tmp s ≡ r
        → ((t : S) → Opened path t (again t))
        → Opened path s (opened disk strerror pid tmp r again)
    unfolding opened Opened
    opened-Opened path tmp s (created, t) again distinct e next =
        let (free, only) = laws.create-fresh tmp s t e in
        stream-Opened path tmp s t (disk.stream tmp t) distinct free only refl
    opened-Opened path tmp s (exists, t) again distinct e next =
        Same-Opened path s t (again t) (laws.create-exists tmp s t e) (next t)
    opened-Opened path tmp s (refused errno, t) again distinct e next =
        let same = laws.create-refused tmp errno s t e in (same path, λ q full. same q)

    open_loop-Opened :
        (size left attempt : ℕ) (path : Text) (s : S)
        → Opened path s (open_loop disk strerror pid size left attempt path s)
    unfolding open_loop Opened
    open_loop-Opened size zero attempt path s = (refl, λ q full. refl)
    open_loop-Opened size (suc left) attempt path s =
        let tmp = temp_path disk strerror pid path attempt in
        elim (Bool-cases (leb size (length tmp))) [
          | inl long ↦ rw long (refl, λ q full. refl)
          | inr fits ↦ rw fits (
              opened-Opened path tmp s (disk.create tmp s) _ (temp_path-distinct path attempt) refl
                (λ t. open_loop-Opened size left (attempt + 1) path t))
        ]

    -- What a whole write leaves.
    Written : Text → Result Text → S → Result (Unit {0}) × S → Type 0
    Written path emission s (failed e, t) = Spared path s t
    Written path emission s (ok u, t) =
        (text : Text) × (emission ≡ ok text) × Replaced path text s t

    module _ (path tmp : Text) (s : S) (distinct : tmp ≢ path)
        (free : disk.contents s tmp ≡ none) where
      removed-Written : (t : S) → Only tmp s t → Spared path s (disk.remove tmp t)
      removed-Written t only =
          Only-Spared path tmp s _ distinct free
            (Only-trans tmp s t _ only (laws.remove-only tmp t))

      renamed-Written :
          (text : Text) (t : S) (r : Option ℕ × S)
          → Only tmp s t
          → disk.contents t tmp ≡ some text
          → disk.rename tmp path t ≡ r
          → Written path (ok text) s (renamed disk strerror pid tmp r)
      unfolding renamed Written
      renamed-Written text t (none, u) only full e =
          let (moved, others) = laws.rename-moved tmp path t u e in
          (
            text,
            refl,
            (
              moved ∙ full,
              λ q h some_file.
                  let other : q ≢ tmp = λ same. some_file (ap (disk.contents s) same ∙ free) in
                  others q other h ∙ only q other,
            ),
          )
      renamed-Written text t (some errno, u) only full e =
          removed-Written u (λ q h. laws.rename-refused tmp path errno t u e q ∙ only q h)

      closed-Written :
          (text : Text) (t : S) (r : (Bool × Option ℕ) × S)
          → Only tmp s t
          → disk.finish tmp text t ≡ r
          → Written path (ok text) s (closed disk strerror pid path tmp r)
      unfolding closed Written
      closed-Written text t ((true, none), u) only e =
          renamed-Written text u (disk.rename tmp path u)
            (Only-trans tmp s t u only
              (λ q h. ap (λ o. disk.contents o.1 q) (sym e) ∙ laws.finish-only tmp text t q h))
            (laws.finish-written tmp text t u e) refl
      closed-Written text t ((true, some errno), u) only e = removed-Written u (
          Only-trans tmp s t u only
            (λ q h. ap (λ o. disk.contents o.1 q) (sym e) ∙ laws.finish-only tmp text t q h))
      closed-Written text t ((false, closing), u) only e = removed-Written u (
          Only-trans tmp s t u only
            (λ q h. ap (λ o. disk.contents o.1 q) (sym e) ∙ laws.finish-only tmp text t q h))

      emitted-Written :
          (emission : Result Text) (t : S)
          → Only tmp s t
          → Written path emission s (emitted disk strerror pid path tmp emission t)
      unfolding emitted Written
      emitted-Written (ok text) t only = closed-Written text t (disk.finish tmp text t) only refl
      emitted-Written (failed e) t only =
          removed-Written _ (Only-trans tmp s t _ only (laws.abandon-only tmp t))

    with_output-Written :
        (path : Text) (emission : Result Text) (s : S) (r : Result Text × S)
        → Opened path s r
        → Written path emission s (with_output disk strerror pid path emission r)
    unfolding with_output Opened Written
    with_output-Written path emission s (failed e, t) spared = spared
    with_output-Written path emission s (ok tmp, t) (distinct, free, only) =
        emitted-Written path tmp s distinct free emission t only

    settle :
        (path : Text) (emission : Result Text) (s t : S) (r : Result (Unit {0}))
        → Written path emission s (r, t)
        → ((e : Failure) × (r ≡ failed e) × Spared path s t)
          ⊎ ((text : Text) × (emission ≡ ok text) × (r ≡ ok tt) × Replaced path text s t)
    unfolding Written
    settle path emission s t (failed e) h = inl (e, refl, h)
    settle path emission s t (ok u) (text, e, h) = inr (text, e, refl, h)

    -- On a file system with the laws of POSIX, a write that fails leaves the output file and every
    -- other file with contents as they were, and a write that succeeds leaves the whole header in
    -- the output file, and every other file with contents as it was.
    pub write_header_to_path-Atomic :
        (path : Text) (emission : Result Text) (s t : S) (r : Result (Unit {0}))
        → write_header_to_path disk strerror pid path emission s ≡ (r, t)
        → ((e : Failure) × (r ≡ failed e) × Spared path s t)
          ⊎ ((text : Text) × (emission ≡ ok text) × (r ≡ ok tt) × Replaced path text s t)
    unfolding write_header_to_path open_temp_output
    write_header_to_path-Atomic path emission s t r e = settle path emission s t r (
        subst (Written path emission s) e (
          with_output-Written path emission s (open_temp_output disk strerror pid 1024 path s)
            (open_loop-Opened 1024 128 0 path s)))
