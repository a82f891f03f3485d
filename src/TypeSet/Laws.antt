-- ===== src/TypeSet/Laws.antt =====
-- Membership in a type set: `init`, `contains` and `add` against the set that they stand for.
use min_corehdr.Prelude.{
  ℕ, ◌+◌, ◌*◌, ◌/◌, ◌%◌, ◌^◌, ◌≤◌, ◌<◌, ◌≡◌, refl, sym, ◌∙◌, inl, inr, Bool, true, false, not, ◌&&◌,
  ◌||◌, arith, ltb, leb, ◌==◌, if◌then◌else◌, Bool-cases, get_or, replicate, length,
  length-replicate, get_or-set, get_or-replicate,
}
use min_corehdr.Bits.{bit_or-lt}
use native.Mathlib.Nat.{pow-le-pow_right}
use Prim.Native.Nat.{bit_or}
use min_corehdr.Count.{card, card-le, card_none, card_insert}
use min_corehdr.TypeSet.{TypeSet, word_count_for_bits, init, has_bit, put_bit, contains, add}
use min_corehdr.TypeSet.Words.{has_bit-replicate, has_bit-put_bit, length-put_bit}

-- Every id below `count` has a bit in the array, and `selected` counts the bits that are set.
pub record IsValid (s : TypeSet) : Type 0 where
  pub width : length s.words ≡ s.word_count
  pub room : s.count ≤ s.word_count * 64
  pub tight : s.word_count * 64 ≤ s.count + 64
  pub small : s.count + 64 < 2 ^ 64
  pub word_small : (i : ℕ) → get_or s.words i 0 < 2 ^ 64
  pub counted : s.selected ≡ card (has_bit s.words) s.count

pub contains-lt : (s : TypeSet) (id : ℕ) → contains s id ≡ true → id < s.count
unfolding contains
contains-lt s id h = ground arith

pub contains-eq-has_bit : (s : TypeSet) (id : ℕ) → id < s.count → contains s id ≡ has_bit s.words id
unfolding contains
contains-eq-has_bit s id h = ground arith

word_count-bounds :
    (n : ℕ)
    → n + 64 < 2 ^ 64
    → (n ≤ word_count_for_bits n * 64) × (word_count_for_bits n * 64 ≤ n + 64)
unfolding word_count_for_bits
word_count-bounds n h = ground arith

blank : ℕ → TypeSet
blank n =
    let wc = word_count_for_bits n in
    record { words = replicate wc 0; count = n; word_count = wc; selected = 0 }

blank-IsValid : (n : ℕ) → n + 64 < 2 ^ 64 → IsValid (blank n)
unfolding blank
blank-IsValid n h =
    let wc = word_count_for_bits n in
    record {
      width = length-replicate wc 0;
      room = (word_count-bounds n h).0;
      tight = (word_count-bounds n h).1;
      small = h;
      word_small = λ i. rw (get_or-replicate {A = ℕ} wc i 0) (omega arith);
      counted = sym (card_none _ n (λ j _. has_bit-replicate wc j));
    }

-- When the allocation succeeds, `init` for fewer than 2 ^ 64 - 64 ids returns 0 and a valid set of
-- that count in which no id is a member.
pub init_lem :
    (alloc : ℕ → Bool) (n : ℕ)
    → n + 64 < 2 ^ 64
    → alloc (word_count_for_bits n * 8) ≡ true
    → ((init alloc n).0 ≡ true)
      × ((init alloc n).1.count ≡ n)
      × IsValid (init alloc n).1
      × ((id : ℕ) → contains (init alloc n).1 id ≡ false)
init_lem alloc n small got =
    let made : init alloc n ≡ (true, blank n) = unfold init blank in rw got refl in
    rw made (
      refl,
      unfold blank in refl,
      blank-IsValid n small,
      λ id. unfold blank contains in ground (arith, has_bit-replicate (word_count_for_bits n) id),
    )

-- What `add` leaves: it answers whether the id is in range and was no member, the id has joined the
-- members and no other id has, and `selected` counts it.
pub record Adds (s : TypeSet) (id : ℕ) (answer : Bool) (t : TypeSet) : Type 0 where
  pub answered : answer ≡ (ltb id s.count && not (contains s id))
  pub valid : IsValid t
  pub count : t.count ≡ s.count
  pub member : (j : ℕ) → contains t j ≡ ((j == id && ltb id s.count) || contains s j)
  pub counted : t.selected ≡ s.selected + (if answer then 1 else 0)

module _ (s : TypeSet) (id : ℕ) (v : IsValid s) where
  put_bit-has_bit :
      (j : ℕ) → id < s.count → has_bit (put_bit s.words id) j ≡ (j == id || has_bit s.words j)
  put_bit-has_bit j h = has_bit-put_bit s.words id j (omega (arith, v.width, v.room))

  pub contains-add :
      (j : ℕ) → contains (add s id).1 j ≡ ((j == id && ltb id s.count) || contains s j)
  unfolding contains add
  contains-add j = ground (arith, put_bit-has_bit j)

  pub add-eq : (add s id).0 ≡ (ltb id s.count && not (contains s id))
  unfolding contains add
  add-eq = ground arith

  pub add-count : (add s id).1.count ≡ s.count
  unfolding add
  add-count = ground arith

  pub add-selected : (add s id).1.selected ≡ s.selected + (if (add s id).0 then 1 else 0)
  unfolding add
  add-selected = ground (arith, v.counted, v.small, card-le (has_bit s.words) s.count)

  put_bit-word_small : (i : ℕ) → id < s.count → get_or (put_bit s.words id) i 0 < 2 ^ 64
  unfolding put_bit
  put_bit-word_small i h =
      let w = get_or s.words (id / 64) 0 in
      let bounded : bit_or w (2 ^ (id % 64)) < 2 ^ 64 =
        bit_or-lt 64 w (2 ^ (id % 64)) (v.word_small (id / 64)) (
          omega
            (arith, pow-le-pow_right {n = 2} (omega arith) {i = id % 64} {j = 63} (omega arith))) in
      rw
        (get_or-set s.words (id / 64) i (bit_or w (2 ^ (id % 64))) 0
          (omega (arith, v.width, v.room)))
        (ground (arith, v.word_small i))

  pub add-IsValid : IsValid (add s id).1
  unfolding add
  add-IsValid = elim (Bool-cases (leb s.count id)) [
    | inl out ↦ rw out v
    | inr within ↦ elim (Bool-cases (has_bit s.words id)) [
      | inl old ↦ rw (within, old) v
      | inr new ↦
          let h : id < s.count = ground arith in
          rw (within, new)
            (record {
              width = length-put_bit s.words id ∙ v.width;
              room = v.room;
              tight = v.tight;
              small = v.small;
              word_small = λ i. put_bit-word_small i h;
              counted =
                  let grown =
                    card_insert (has_bit s.words) (has_bit (put_bit s.words id)) id s.count h new
                      (λ j _. put_bit-has_bit j h) in
                  let bound = card-le (has_bit (put_bit s.words id)) s.count in
                  omega (arith, v.counted, v.small, grown, bound);
            })
    ]
  ]

  -- On a valid set, `add` answers whether the id is below the count and was not in the set; then the
  -- id is in the set, every other id is as before, `selected` has grown by one exactly if the
  -- answer is true, and the set is valid.
  pub add-Adds : Adds s id (add s id).0 (add s id).1
  add-Adds = record {
    answered = add-eq;
    valid = add-IsValid;
    count = add-count;
    member = contains-add;
    counted = add-selected;
  }
