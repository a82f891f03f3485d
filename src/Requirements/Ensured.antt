-- ===== src/Requirements/Ensured.antt =====
-- The lazy allocation of the bit set of a record changes no fact.
use min_corehdr.Prelude.{
  ℕ, zero, suc, ◌*◌, ◌^◌, ◌≤◌, ◌<◌, ◌≡◌, refl, sym, ap, ◌∙◌, inl, inr, true, false, Option, none,
  some, List, [], ◌∷◌, arith, ◌==◌, if◌then◌else◌, ==_iff, Bool-cases, get_or, set, replicate,
  is_null, length, length-set, length-replicate, get_or-set,
}
use min_corehdr.Errors.{ok}
use min_corehdr.Btf.{Btf}
use min_corehdr.TypeSet.{word_count_for_bits}
use min_corehdr.Requirements.{
  TraceKind, type_root, record_member, Requirements, contains_type_root, member_words, is_some,
  words_of, has_record_members, contains_record_member, record_type,
}
use min_corehdr.Requirements.Bitsets.{bitset_contains-replicate}
use min_corehdr.Requirements.Valid.{marks, IsValid}

pub is_null-set {ℓ} : {A : Type ℓ} (xs : List A) (i : ℕ) (a : A) → is_null (set xs i a) ≡ is_null xs
is_null-set [] i a = refl
is_null-set (x ∷ xs) zero a = refl
is_null-set (x ∷ xs) (suc i) a = refl

module _ (b : Btf) (r : Requirements) (v : IsValid b r) (id n : ℕ) (h : id < r.type_count)
    (sized : record_type b id ≡ ok n) where
  abbrev pub ensured : Requirements
  ensured = record r {
    record_member_words = set r.record_member_words id (some (replicate (word_count_for_bits n) 0));
    record_member_counts = set r.record_member_counts id n;
  }

  module _ (absent : is_some (member_words r id) ≡ false) where
    pub words-at :
        (j : ℕ)
        → member_words ensured j
          ≡ (if j == id then some (replicate (word_count_for_bits n) 0) else member_words r j)
    words-at j = get_or-set r.record_member_words id j _ none (omega (arith, h, v.words_room))

    pub count-at :
        (j : ℕ)
        → get_or ensured.record_member_counts j 0
          ≡ (if j == id then n else get_or r.record_member_counts j 0)
    count-at j = get_or-set r.record_member_counts id j n 0 (omega (arith, h, v.counts_room))

    pub ensured-member :
        (j m : ℕ) → contains_record_member (some ensured) j m ≡ contains_record_member (some r) j m
    unfolding contains_record_member has_record_members
    ensured-member j m = elim (Bool-cases (j == id)) [
      | inl same ↦
          let eq = (==_iff j id).0 same in
          let gone : is_some (member_words r j) ≡ false = rw eq absent in
          ground (
            arith,
            words-at j,
            count-at j,
            gone,
            bitset_contains-replicate (word_count_for_bits n) n m,
          )
      | inr other ↦ ground (
        arith,
        words-at j,
        count-at j,
        is_null-set r.record_member_words id (some (replicate (word_count_for_bits n) 0)),
      )
    ]

    ensured-marks : (k : TraceKind) (j m : ℕ) → marks k r j m ≡ true → marks k ensured j m ≡ true
    unfolding contains_type_root
    ensured-marks type_root j m c = c
    ensured-marks record_member j m c = ensured-member j m ∙ c

    ensured-room :
        n < 2 ^ 16
        → (j : ℕ) → is_some (member_words ensured j) ≡ true
        → get_or ensured.record_member_counts j 0 ≤ length (words_of (member_words ensured j)) * 64
    ensured-room small j s = elim (Bool-cases (j == id)) [
      | inl same ↦
          let words : member_words ensured j ≡ some (replicate (word_count_for_bits n) 0) =
            ground (arith, words-at j) in
          let count : get_or ensured.record_member_counts j 0 ≡ n = ground (arith, count-at j) in
          let enough : n ≤ word_count_for_bits n * 64 =
            unfold word_count_for_bits in ground arith in
          rw (words, count, length-replicate {A = ℕ} (word_count_for_bits n) 0) enough
      | inr other ↦
          let words : member_words ensured j ≡ member_words r j = ground (arith, words-at j) in
          let count : get_or ensured.record_member_counts j 0 ≡ get_or r.record_member_counts j 0 =
            ground (arith, count-at j) in
          rw (words, count)
            (v.member_room j (ap (λ (o : Option (List ℕ)). is_some o) (sym words) ∙ s))
    ]

    ensured-sized :
        (j : ℕ)
        → is_some (member_words ensured j) ≡ true
        → record_type b j ≡ ok (get_or ensured.record_member_counts j 0)
    ensured-sized j s = elim (Bool-cases (j == id)) [
      | inl same ↦
          let eq = (==_iff j id).0 same in
          let count : get_or ensured.record_member_counts j 0 ≡ n = ground (arith, count-at j) in
          rw (count, eq) sized
      | inr other ↦
          let words : member_words ensured j ≡ member_words r j = ground (arith, words-at j) in
          let count : get_or ensured.record_member_counts j 0 ≡ get_or r.record_member_counts j 0 =
            ground (arith, count-at j) in
          rw count (v.sized j (ap (λ (o : Option (List ℕ)). is_some o) (sym words) ∙ s))
    ]

    pub ensured-IsValid : n < 2 ^ 16 → IsValid b ensured
    unfolding contains_type_root
    ensured-IsValid small = record {
      root_room = v.root_room;
      words_room =
          rw (length-set r.record_member_words id (some (replicate (word_count_for_bits n) 0)))
            v.words_room;
      counts_room = rw (length-set r.record_member_counts id n) v.counts_room;
      member_room = ensured-room small;
      sized = ensured-sized;
      bounded = v.bounded;
      room = v.room;
      counted = v.counted;
      roots_traced = v.roots_traced;
      members_traced = λ j m c. v.members_traced j m (sym (ensured-member j m) ∙ c);
      witnessed = λ trace m.
          ensured-marks trace.kind trace.type_id trace.member_index (v.witnessed trace m);
    }
