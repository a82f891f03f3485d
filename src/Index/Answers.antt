-- ===== src/Index/Answers.antt =====
-- `index_insert` in terms of what lookups answer.
use min_corehdr.Prelude.{
  ℕ, zero, suc, ◌≤◌, ◌<◌, ◌≡◌, refl, sym, ap, ◌∙◌, ◌≢◌, inl, inr, true, false, Option, none, some,
  List, [], ◌∷◌, ◌++◌, arith, ltb, ◌==◌, if◌then◌else◌, ==_iff, Bool-cases, Option-cases, get_elem?,
  set, length, length-append, length-set, get_or-set, get_elem?-append_left, get_elem?-append_last,
  Text,
}
use mathlib.Core.Path.{subst}
use min_corehdr.Btf.{Kind}
use min_corehdr.Index.{
  Entry, Index, Answer, end_of_chain, same_key, bucket_of, walk, head_of, find_entry,
  mark_ambiguous, insert, answer_of,
}
use min_corehdr.Index.Chains.{
  Points, walk_enough, walk-append, walk-mark_ambiguous, walk-suc, get_elem?-mark_ambiguous,
}
use min_corehdr.Index.Insert.{
  IsValid, again, key_eq, find_congr, walk-eq_some, bucket_of-lt, bucket_congr, same_key-key_eq,
}

get_elem?-lt {ℓ} :
    {A : Type ℓ} (xs : List A) (i : ℕ) (a : A) → get_elem? xs i ≡ some a → i < length xs
get_elem?-lt [] i a h = cc
get_elem?-lt (x ∷ xs) zero a h = omega arith
get_elem?-lt (x ∷ xs) (suc i) a h = omega (arith, get_elem?-lt xs i a h)

module _ (number : Kind → ℕ) where
  -- The answer of the chains alone.
  abbrev pub answer : Index → Text → Kind → Answer
  answer index n k = answer_of number index.entries (find_entry number index n k)

  length-mark_ambiguous :
      (es : List Entry) (p : ℕ) → length (mark_ambiguous number es p) ≡ length es
  unfolding mark_ambiguous
  length-mark_ambiguous [] p = refl
  length-mark_ambiguous (e ∷ es) zero = refl
  length-mark_ambiguous (e ∷ es) (suc p) = ap suc (length-mark_ambiguous es p)

  mark_ambiguous-at :
      (es : List Entry) (p : ℕ) (e : Entry)
      → get_elem? es p ≡ some e
      → (e' : Entry) × (get_elem? (mark_ambiguous number es p) p ≡ some e') × (e'.ambiguous ≡ true)
  unfolding mark_ambiguous
  mark_ambiguous-at [] p e h = cc
  mark_ambiguous-at (x ∷ es) zero e h = (_, refl, refl)
  mark_ambiguous-at (x ∷ es) (suc p) e h = mark_ambiguous-at es p e h

  mark_ambiguous-other :
      (es : List Entry) (p q : ℕ)
      → (q == p) ≡ false
      → get_elem? (mark_ambiguous number es p) q ≡ get_elem? es q
  unfolding mark_ambiguous
  mark_ambiguous-other [] p q h = refl
  mark_ambiguous-other (x ∷ es) zero zero h = absurd (ground arith)
  mark_ambiguous-other (x ∷ es) zero (suc q) h = refl
  mark_ambiguous-other (x ∷ es) (suc p) zero h = refl
  mark_ambiguous-other (x ∷ es) (suc p) (suc q) h = mark_ambiguous-other es p q (ground arith)

  find-eq_some :
      (index : Index) (n : Text) (k : Kind) (p : ℕ)
      → find_entry number index n k ≡ some p
      → (e : Entry) × (get_elem? index.entries p ≡ some e) × (same_key number e n k ≡ true)
  unfolding find_entry
  find-eq_some index n k p hit = walk-eq_some number _ index.entries _ p n k hit

  module _ (index : Index) (n : Text) (k : Kind) (id : ℕ) (v : IsValid index) where
    module _ (p : ℕ) (hit : find_entry number index n k ≡ some p) where
      abbrev marked : Index
      marked = record index { entries = mark_ambiguous number index.entries p }

      find_marked :
          (m : Text) (l : Kind) → find_entry number marked m l ≡ find_entry number index m l
      unfolding find_entry head_of bucket_of
      find_marked m l =
          rw (length-mark_ambiguous index.entries p)
            (walk-mark_ambiguous number m l _ index.entries p _)

      apart :
          (e d : Entry) (q : ℕ) (m : Text) (l : Kind)
          → key_eq number n k m l ≡ false
          → same_key number e n k ≡ true
          → same_key number d m l ≡ true
          → get_elem? index.entries p ≡ some e
          → get_elem? index.entries q ≡ some d
          → (q == p) ≡ false
      apart e d q m l other key key' at at' = elim (Bool-cases (q == p)) [
        | inr ne ↦ ne
        | inl same ↦
            let eq : q ≡ p = (==_iff q p).0 same in
            let one : d ≡ e = cc (eq, at, at') in
            absurd (cc (same_key-key_eq number e n k m l key (rw one at key'), other))
      ]

      marked-answer :
          (m : Text) (l : Kind)
          → answer marked m l
            ≡ (if key_eq number n k m l then again (answer index n k) id else answer index m l)
      unfolding answer_of
      marked-answer m l = elim (Bool-cases (key_eq number n k m l)) [
        | inl same ↦
            let (e, at, key) = find-eq_some index n k p hit in
            let (e', at', amb) = mark_ambiguous-at index.entries p e at in
            ground (arith, find_marked m l, find_congr number index n k m l same, at, at', amb)
        | inr other ↦ elim (Option-cases (find_entry number index m l)) [
          | inl miss ↦ ground (arith, find_marked m l, miss)
          | inr (q, hit') ↦
              let (e, at, key) = find-eq_some index n k p hit in
              let (d, at', key') = find-eq_some index m l q hit' in
              let ne = apart e d q m l other key key' at at' in
              ground (arith, find_marked m l, hit', mark_ambiguous-other index.entries p q ne)
        ]
      ]

      marked-IsValid : IsValid marked
      marked-IsValid = record {
        some_buckets = v.some_buckets;
        width = v.width;
        narrow = v.narrow;
        heads = λ i. rw (length-mark_ambiguous index.entries p) (v.heads i);
        down = λ i e at. elim (Option-cases (get_elem? index.entries i)) [
          | inl out ↦ absurd (cc ((get_elem?-mark_ambiguous number index.entries p i).0 out, at))
          | inr (d, here) ↦
              let (d', at', keys) = (get_elem?-mark_ambiguous number index.entries p i).1 d here in
              let one : d' ≡ e = cc (at, at') in
              let same : d'.next ≡ e.next = ap (λ (x : Entry). x.next) one in
              rw (sym same, keys.2) (v.down i d here)
        ];
      }

    module _ (small : length index.entries < end_of_chain)
        (miss : find_entry number index n k ≡ none) where
      abbrev new : Entry
      new = record {
        name = n;
        type_id = id;
        next = head_of number index n k;
        kind = k;
        ambiguous = false;
      }

      abbrev grown : Index
      grown = record index {
        entries = index.entries ++ new ∷ [];
        buckets = set index.buckets (bucket_of number index n k) (length index.entries);
      }

      head-grown :
          (m : Text) (l : Kind)
          → head_of number grown m l ≡ (
              if bucket_of number index m l == bucket_of number index n k
              then length index.entries
              else head_of number index m l)
      unfolding head_of bucket_of
      head-grown m l =
          get_or-set index.buckets _ _ _ _ (unfold bucket_of in bucket_of-lt number index n k v)

      down-grown : (i : ℕ) (e : Entry) → get_elem? grown.entries i ≡ some e → Points i e.next
      down-grown i e at = elim (Bool-cases (ltb i (length index.entries))) [
        | inl old ↦
            let low : i < length index.entries = ground arith in
            v.down i e (sym (get_elem?-append_left index.entries (new ∷ []) i low) ∙ at)
        | inr late ↦
            let high = get_elem?-lt grown.entries i e at in
            let late' : length index.entries ≤ i = ground arith in
            let last : i ≡ length index.entries =
              omega (arith, high, length-append index.entries (new ∷ []), late') in
            let same : new ≡ e = cc (get_elem?-append_last index.entries new, at, last) in
            let points = v.heads (bucket_of number index n k) in
            let next : Points (length index.entries) e.next =
              rw (sym same) (unfold head_of in points) in
            omega (arith, last, next)
      ]

      head-Points : (m : Text) (l : Kind) → Points (length index.entries) (head_of number index m l)
      unfolding head_of
      head-Points m l = v.heads (bucket_of number index m l)

      abbrev found_by : ℕ → List Entry → Text → Kind → ℕ → Option ℕ
      found_by f es m l h = walk number f es m l h

      walk_new :
          (m : Text) (l : Kind)
          → found_by (suc (length index.entries)) grown.entries m l (length index.entries) ≡ (
              if key_eq number n k m l
              then some (length index.entries)
              else found_by (length index.entries) index.entries m l (head_of number index n k))
      walk_new m l =
          let there = get_elem?-append_last index.entries new in
          let far : length index.entries ≢ end_of_chain = λ e. omega (arith, e, small) in
          let kept =
            walk-append number m l (length index.entries) index.entries new _ v.down
              (head-Points n k) in
          let key : same_key number new m l ≡ key_eq number n k m l =
            unfold same_key key_eq in refl in
          walk-suc number m l (length index.entries) grown.entries (length index.entries) new far
            there
          ∙ rw (key, kept) refl

      walk_old :
          (m : Text) (l : Kind)
          → found_by (suc (length index.entries)) grown.entries m l (head_of number index m l)
            ≡ found_by (length index.entries) index.entries m l (head_of number index m l)
      walk_old m l =
          let p = head-Points m l in
          let q : Points (suc (length index.entries)) (head_of number index m l) = ground arith in
          walk-append number m l _ index.entries new _ v.down p
          ∙ walk_enough number m l _ _ index.entries _ v.down q p

      find-grown :
          (m : Text) (l : Kind)
          → find_entry number grown m l ≡ (
              if key_eq number n k m l
              then some (length index.entries)
              else find_entry number index m l)
      unfolding find_entry
      find-grown m l =
          let top : length grown.entries ≡ suc (length index.entries) =
            omega (arith, length-append index.entries (new ∷ [])) in
          elim (Bool-cases (bucket_of number index m l == bucket_of number index n k)) [
            | inl eq ↦
                let same = (==_iff _ _).0 eq in
                let head : head_of number index n k ≡ head_of number index m l =
                  unfold head_of in rw same refl in
                let first : head_of number grown m l ≡ length index.entries =
                  ground (arith, head-grown m l) in
                rw (top, first, walk_new m l, head) refl
            | inr ne ↦
                let first : head_of number grown m l ≡ head_of number index m l =
                  ground (arith, head-grown m l) in
                let other : key_eq number n k m l ≡ false =
                  ground (arith, bucket_congr number index n k m l) in
                rw (top, first, other) (walk_old m l)
          ]

      grown-answer :
          (m : Text) (l : Kind)
          → answer grown m l
            ≡ (if key_eq number n k m l then again (answer index n k) id else answer index m l)
      unfolding answer_of
      grown-answer m l = elim (Bool-cases (key_eq number n k m l)) [
        | inl same ↦ ground (arith, find-grown m l, get_elem?-append_last index.entries new, miss)
        | inr other ↦ elim (Option-cases (find_entry number index m l)) [
          | inl none_there ↦ ground (arith, find-grown m l, none_there)
          | inr (q, hit) ↦
              let (e, at, key) = find-eq_some index m l q hit in
              let low = get_elem?-lt index.entries q e at in
              ground
                (arith, find-grown m l, hit, get_elem?-append_left index.entries (new ∷ []) q low)
        ]
      ]

      grown-IsValid : IsValid grown
      grown-IsValid =
          let longer = length-append index.entries (new ∷ []) in
          record {
            some_buckets = v.some_buckets;
            width =
                rw (length-set index.buckets (bucket_of number index n k) (length index.entries))
                  v.width;
            narrow = v.narrow;
            heads = λ i.
                rw
                  (get_or-set index.buckets (bucket_of number index n k) i (length index.entries)
                    end_of_chain (bucket_of-lt number index n k v))
                  (ground (arith, v.heads i, longer));
            down = λ i e at. let points = down-grown i e at in ground (arith, longer);
          }

    -- What an insertion leaves: a valid index with at most one entry more, whose answers differ at
    -- the inserted key only.
    pub record Inserted (t : Index) : Type 0 where
      pub valid : IsValid t
      pub short : length t.entries ≤ suc (length index.entries)
      pub answers :
          (m : Text) (l : Kind)
          → answer t m l
            ≡ (if key_eq number n k m l then again (answer index n k) id else answer index m l)

    -- On a valid index with room, an insertion leaves a valid index with at most one entry more, and
    -- changes the answers at its own name and kind only: there an absent key becomes found with the
    -- inserted id, and any other answer becomes ambiguous.
    pub insert-Inserted :
        length index.entries < end_of_chain → Inserted (insert number index n k id)
    unfolding insert
    insert-Inserted small = elim (Option-cases (find_entry number index n k)) [
      | inl miss ↦
          let same : insert number index n k id ≡ grown small miss = ground (arith, miss) in
          subst Inserted (sym same) (record {
            valid = grown-IsValid small miss;
            short = omega (arith, length-append index.entries (new small miss ∷ []));
            answers = grown-answer small miss;
          })
      | inr (p, hit) ↦
          let same : insert number index n k id ≡ marked p hit = ground (arith, hit) in
          subst Inserted (sym same) (record {
            valid = marked-IsValid p hit;
            short = omega (arith, length-mark_ambiguous index.entries p);
            answers = marked-answer p hit;
          })
    ]
