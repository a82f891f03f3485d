-- ===== src/Requirements/Fresh.antt =====
-- Fresh requirements.
use min_corehdr.Prelude.{
  ℕ, ◌-◌, ◌*◌, ◌^◌, ◌≤◌, ◌<◌, ◌≡◌, refl, sym, Bool, true, false, Option, none, some, List, arith,
  ◌==◌, if◌then◌else◌, replicate, length, length-replicate, get_or-replicate, not-Memᴰ-nil,
}
use mathlib.Core.Path.{subst}
use min_corehdr.Btf.{Btf}
use min_corehdr.TypeSet.{word_count_for_bits}
use min_corehdr.Requirements.{
  Requirements, cleared, init, contains_type_root, contains_record_member, has_record_members,
  member_words, is_some,
}
use min_corehdr.Requirements.Bitsets.{bitset_contains-replicate}
use min_corehdr.Requirements.Valid.{IsValid}

module _ (b : Btf) (n : ℕ) where
  abbrev slots : ℕ
  slots = if n == 0 then 1 else n

  slots-le : n ≤ slots
  slots-le = ground arith

  abbrev fresh : Requirements
  fresh = record cleared {
    type_root_words = replicate (word_count_for_bits n) 0;
    record_member_words = replicate slots none;
    record_member_counts = replicate slots 0;
    type_count = n;
    type_root_words_count = word_count_for_bits n;
  }

  fresh-root : (id : ℕ) → contains_type_root (some fresh) id ≡ false
  unfolding contains_type_root
  fresh-root id = bitset_contains-replicate (word_count_for_bits n) n id

  fresh-words : (id : ℕ) → is_some (member_words fresh id) ≡ false
  fresh-words id = rw (get_or-replicate {A = Option (List ℕ)} slots id none) refl

  fresh-member : (id i : ℕ) → contains_record_member (some fresh) id i ≡ false
  unfolding contains_record_member has_record_members
  fresh-member id i = ground (arith, fresh-words id)

  fresh-IsValid : n < 2 ^ 64 - 64 → IsValid b fresh
  fresh-IsValid small =
      let width : n ≤ length {A = ℕ} (replicate slots 0) =
        rw (length-replicate {A = ℕ} slots 0) slots-le in
      let words : n ≤ length {A = Option (List ℕ)} (replicate slots none) =
        rw (length-replicate {A = Option (List ℕ)} slots none) slots-le in
      let roots : n ≤ length {A = ℕ} (replicate (word_count_for_bits n) 0) * 64 =
        rw (length-replicate {A = ℕ} (word_count_for_bits n) 0)
          (unfold word_count_for_bits in ground arith) in
      record {
        root_room = roots;
        words_room = words;
        counts_room = width;
        member_room = λ id h. absurd (cc (fresh-words id, h));
        sized = λ id h. absurd (cc (fresh-words id, h));
        bounded = omega arith;
        room = omega arith;
        counted = refl;
        roots_traced = λ id h. absurd (cc (fresh-root id, h));
        members_traced = λ id i h. absurd (cc (fresh-member id i, h));
        witnessed = λ trace m. absurd (not-Memᴰ-nil trace m);
      }

  -- When `init` for fewer than 2 ^ 64 - 64 types returns 0, it leaves valid requirements, without
  -- a root and without a required member.
  pub init-IsValid :
      (alloc : ℕ → Bool)
      → n < 2 ^ 64 - 64
      → (init alloc n).0 ≡ true
      → IsValid b (init alloc n).1
        × ((id : ℕ) → contains_type_root (some (init alloc n).1) id ≡ false)
        × ((id i : ℕ) → contains_record_member (some (init alloc n).1) id i ≡ false)
  init-IsValid alloc small given =
      let same : (init alloc n).1 ≡ fresh = unfold init in ground arith in
      subst
        (λ r.
          IsValid b r
          × ((id : ℕ) → contains_type_root (some r) id ≡ false)
          × ((id i : ℕ) → contains_record_member (some r) id i ≡ false))
        (sym same) (fresh-IsValid small, fresh-root, fresh-member)
