-- ===== src/Requirements/Members.antt =====
-- `add_record_member`: the member joins those of its record with a trace, and nothing else changes.
use min_corehdr.Prelude.{
  ℕ, ◌+◌, ◌*◌, ◌^◌, ◌≤◌, ◌<◌, ◌≡◌, refl, sym, ap, ◌∙◌, inl, inr, Bool, true, false, ◌&&◌, ◌||◌,
  Option, none, some, List, [], ◌∷◌, arith, ltb, leb, ◌==◌, if◌then◌else◌, ==_iff, Bool-cases,
  get_or, set, replicate, is_null, length, length-append, length-set, get_or-set,
}
use mathlib.Core.Path.{subst}
use min_corehdr.Errors.{Result-cases, ok, >>=-eq-ok}
use min_corehdr.Btf.{Btf}
use min_corehdr.TypeSet.{u64, word_count_for_bits}
use min_corehdr.Requirements.{
  TraceKind, type_root, record_member, Origin, Requirements, bitset_contains, bitset_add,
  append_trace, contains_type_root, member_words, is_some, words_of, has_record_members,
  contains_record_member, ensure_members, mark_member, record_type, add_record_member,
}
use min_corehdr.Requirements.Bitsets.{
  is_null-eq_false, length-bitset_add, bitset_contains-bitset_add, Appended, append_trace-Appended,
}
use min_corehdr.Requirements.Valid.{marks, IsValid, Traced-append, Traced-last, marks-append}
use min_corehdr.Requirements.Ensured.{
  is_null-set, ensured, ensured-IsValid, ensured-member, words-at, count-at,
}

-- The member is marked, behind its trace.
module _ (b : Btf) (r u : Requirements) (v : IsValid b r) (id i : ℕ)
    (a : Appended record_member id i r u) (h : id < r.type_count)
    (there : is_some (member_words r id) ≡ true)
    (low : i < get_or r.record_member_counts id 0) where
  abbrev words : List ℕ
  words = bitset_add (words_of (member_words r id)) (get_or r.record_member_counts id 0) i

  abbrev marked : Requirements
  marked = record u {
    record_member_words = set r.record_member_words id (some words);
    record_members = u64 (r.record_members + 1);
  }

  marked-words :
      (j : ℕ) → member_words marked j ≡ (if j == id then some words else member_words r j)
  marked-words j =
      get_or-set r.record_member_words id j (some words) none (omega (arith, h, v.words_room))

  marked-member :
      (j m : ℕ)
      → contains_record_member (some marked) j m
        ≡ ((j == id && m == i) || contains_record_member (some r) j m)
  unfolding contains_record_member has_record_members
  marked-member j m = elim (Bool-cases (j == id)) [
    | inl same ↦
        let eq = (==_iff j id).0 same in
        rw (eq, a.counts, a.size)
          (ground (
            arith,
            marked-words id,
            there,
            is_null-set r.record_member_words id (some words),
            is_null-eq_false r.record_member_words (omega (arith, h, v.words_room)),
            bitset_contains-bitset_add (words_of (member_words r id))
                (get_or r.record_member_counts id 0) i m (v.member_room id there) low,
          ))
    | inr other ↦
        rw (a.counts, a.size)
          (ground (arith, marked-words j, is_null-set r.record_member_words id (some words)))
  ]

  marked-root : (j : ℕ) → contains_type_root (some marked) j ≡ contains_type_root (some r) j
  unfolding contains_type_root
  marked-root j = rw (a.roots, a.size) refl

  marked-marks : (k : TraceKind) (j m : ℕ) → marks k r j m ≡ true → marks k marked j m ≡ true
  marked-marks type_root j m c = marked-root j ∙ c
  marked-marks record_member j m c = ground (arith, marked-member j m)

  marked-room :
      (j : ℕ)
      → is_some (member_words marked j) ≡ true
      → get_or marked.record_member_counts j 0 ≤ length (words_of (member_words marked j)) * 64
  marked-room j s = elim (Bool-cases (j == id)) [
    | inl same ↦
        let eq = (==_iff j id).0 same in
        let new : member_words marked j ≡ some words = ground (arith, marked-words j) in
        rw
          (
            new,
            a.counts,
            eq,
            length-bitset_add (words_of (member_words r id)) (get_or r.record_member_counts id 0) i,
          )
          (v.member_room id there)
    | inr other ↦
        let old : member_words marked j ≡ member_words r j = ground (arith, marked-words j) in
        rw (old, a.counts) (v.member_room j (ap (λ (o : Option (List ℕ)). is_some o) (sym old) ∙ s))
  ]

  marked-sized :
      (j : ℕ)
      → is_some (member_words marked j) ≡ true
      → record_type b j ≡ ok (get_or marked.record_member_counts j 0)
  marked-sized j s = elim (Bool-cases (j == id)) [
    | inl same ↦ let eq = (==_iff j id).0 same in rw (eq, a.counts) (v.sized id there)
    | inr other ↦
        let old : member_words marked j ≡ member_words r j = ground (arith, marked-words j) in
        rw a.counts (v.sized j (ap (λ (o : Option (List ℕ)). is_some o) (sym old) ∙ s))
  ]

  marked-IsValid : IsValid b marked
  marked-IsValid = record {
    root_room = rw (a.size, a.roots) v.root_room;
    words_room = rw (a.size, length-set r.record_member_words id (some words)) v.words_room;
    counts_room = rw (a.size, a.counts) v.counts_room;
    member_room = marked-room;
    sized = marked-sized;
    bounded = a.bounded;
    room = a.room;
    counted = omega (
      arith,
      ap length a.traces,
      length-append r.traces (a.trace ∷ []),
      v.counted,
      v.room,
      v.bounded,
      a.type_roots,
    );
    roots_traced = λ j c. Traced-append a (v.roots_traced j (sym (marked-root j) ∙ c));
    members_traced = λ j m c. elim (Bool-cases (j == id && m == i)) [
      | inl new ↦ Traced-last a (ground (arith, ==_iff j id)) (ground (arith, ==_iff m i))
      | inr old ↦ Traced-append a (v.members_traced j m (ground (arith, marked-member j m)))
    ];
    witnessed = marks-append a marked marked-marks (ground (arith, marked-member id i)) v.witnessed;
  }

-- What `add_record_member` leaves: valid requirements with the same roots, in which the members are
-- the old ones and the new one.
pub record Membered (b : Btf) (r : Requirements) (id i : ℕ) (t : Requirements) : Type 0 where
  pub valid : IsValid b t
  pub root : (j : ℕ) → contains_type_root (some t) j ≡ contains_type_root (some r) j
  pub member :
      (j m : ℕ)
      → contains_record_member (some t) j m
        ≡ ((j == id && m == i) || contains_record_member (some r) j m)

-- The requirements with the bit of the member, over those that have its trace.
abbrev with_member : Requirements → ℕ → ℕ → Requirements → Requirements
with_member r id i u = record u {
  record_member_words =
      set r.record_member_words id
        (some (bitset_add (words_of (member_words r id)) (get_or r.record_member_counts id 0) i));
  record_members = u64 (r.record_members + 1);
}

marked_before :
    (b : Btf) (r : Requirements) (v : IsValid b r) (id i : ℕ)
    → id < r.type_count
    → is_some (member_words r id) ≡ true
    → bitset_contains (words_of (member_words r id)) (get_or r.record_member_counts id 0) i ≡ true
    → (j m : ℕ)
    → contains_record_member (some r) j m
      ≡ ((j == id && m == i) || contains_record_member (some r) j m)
unfolding contains_record_member has_record_members
marked_before b r v id i h there old j m = elim (Bool-cases (j == id && m == i)) [
  | inl same ↦
      let e : j ≡ id = ground (arith, ==_iff j id) in
      let f : m ≡ i = ground (arith, ==_iff m i) in
      rw (e, f)
        (ground (
          arith,
          there,
          old,
          is_null-eq_false r.record_member_words (omega (arith, h, v.words_room)),
        ))
  | inr other ↦ ground arith
]

mark_member-Membered :
    (b : Btf) (r : Requirements) (v : IsValid b r) (id i : ℕ) (alloc : ℕ → Bool) (o : Option Origin)
    (t : Requirements)
    → id < r.type_count
    → is_some (member_words r id) ≡ true
    → i < get_or r.record_member_counts id 0
    → mark_member alloc r id i o ≡ ok t
    → Membered b r id i t
unfolding mark_member
mark_member-Membered b r v id i alloc o t h there low e =
    elim (Bool-cases
      (bitset_contains (words_of (member_words r id)) (get_or r.record_member_counts id 0) i)) [
        | inl old ↦
            let same : r ≡ t = ground arith in
            subst (Membered b r id i) same (record {
              valid = v;
              root = λ j. refl;
              member = marked_before b r v id i h there old;
            })
        | inr new ↦
            let (u, run, last) =
              >>=-eq-ok (append_trace alloc r record_member id i o) (λ u. ok (with_member r id i u))
                {b = t} (ground arith) in
            let a = append_trace-Appended alloc r u record_member id i o v.bounded v.room run in
            let same : marked b r u v id i a h there low ≡ t = cc last in
            subst (Membered b r id i) same (record {
              valid = marked-IsValid b r u v id i a h there low;
              root = marked-root b r u v id i a h there low;
              member = marked-member b r u v id i a h there low;
            })
      ]

Membered-ensured :
    (b : Btf) (r : Requirements) (v : IsValid b r) (id n : ℕ) (h : id < r.type_count)
    (sized : record_type b id ≡ ok n) (absent : is_some (member_words r id) ≡ false) (i : ℕ)
    (t : Requirements)
    → Membered b (ensured b r v id n h sized) id i t
    → Membered b r id i t
unfolding contains_type_root
Membered-ensured b r v id n h sized absent i t m = record {
  valid = m.valid;
  root = m.root;
  member = λ j k. m.member j k ∙ rw (ensured-member b r v id n h sized absent j k) refl;
}

-- On valid requirements over a BTF whose records have fewer than 2 ^ 16 members, when
-- `add_record_member` succeeds the member is required, every other member and every root is as
-- before, and the result is valid: each root and each required member has a trace, and each trace
-- stands for one.
pub add_record_member-Membered :
    (b : Btf) (r : Requirements) (id i : ℕ) (alloc : ℕ → Bool) (o : Option Origin)
    (out : Option Requirements)
    → IsValid b r
    → ((j n : ℕ) → record_type b j ≡ ok n → n < 2 ^ 16)
    → add_record_member alloc b (some r) id i o ≡ ok out
    → (t : Requirements) × (out ≡ some t) × Membered b r id i t
unfolding add_record_member ensure_members
add_record_member-Membered b r id i alloc o out v small e =
    elim (Bool-cases
      (is_null r.record_member_words || (is_null r.record_member_counts || leb r.type_count id))) [
        | inl bad ↦ absurd (ground arith)
        | inr good ↦ elim (Result-cases (record_type b id)) [
          | inr (failure, bad) ↦ absurd (ground (arith, bad))
          | inl (n, sized) ↦ elim (Bool-cases (ltb i n)) [
            | inr bad ↦ absurd (ground (arith, sized))
            | inl low ↦ elim (Bool-cases (is_some (member_words r id))) [
              | inl there ↦
                  let h : id < r.type_count = ground arith in
                  let count : n ≡ get_or r.record_member_counts id 0 =
                    cc (sized, v.sized id there) in
                  let (t, run, last) =
                    >>=-eq-ok (mark_member alloc r id i o) (λ t. ok (some t)) {b = out}
                      (ground (arith, sized)) in
                  (t, cc last, mark_member-Membered b r v id i alloc o t h there (ground arith) run)
              | inr absent ↦
                  let h : id < r.type_count = ground arith in
                  let start = ensured b r v id n h sized in
                  let at : member_words start id ≡ some (replicate (word_count_for_bits n) 0) =
                    ground (arith, words-at b r v id n h sized absent id) in
                  let count : get_or start.record_member_counts id 0 ≡ n =
                    ground (arith, count-at b r v id n h sized absent id) in
                  let there : is_some (member_words start id) ≡ true = rw at refl in
                  let (t, run, last) =
                    >>=-eq-ok (mark_member alloc start id i o) (λ t. ok (some t)) {b = out}
                      (ground (arith, sized)) in
                  let fresh = ensured-IsValid b r v id n h sized absent (small id n sized) in
                  let m =
                    mark_member-Membered b start fresh id i alloc o t h there (ground arith) run in
                  (t, cc last, Membered-ensured b r v id n h sized absent i t m)
            ]
          ]
        ]
      ]
