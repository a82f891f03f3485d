-- ===== src/TypeSet/Scan.antt =====
-- What `next` finds: the least member from the cursor on.
use min_corehdr.Prelude.{
  ℕ, zero, suc, ◌+◌, ◌-◌, ◌*◌, ◌/◌, ◌%◌, ◌^◌, ◌≤◌, ◌<◌, ◌≡◌, ap, ◌∙◌, ◌≢◌, inl, inr, true, false,
  none, some, arith, leb, ◌==◌, if◌then◌else◌, leb→le, Bool-cases, List-cases, get_or, is_null,
  length,
}
use Prim.Native.Nat.{bit_and}
use native.Mathlib.Nat.{pow-suc, one-le-pow, pow-le-pow_right}
use min_corehdr.Bits.{
  bit, bit-lt, bit-zero, bit_low, bit-suc, bit_and-one, bit-bit_and, bit-mask_from, bit_and-le,
}
use min_corehdr.TypeSet.{TypeSet, Step, u64, contains, bit_index, mask_from, scan, next, word_of}
use min_corehdr.TypeSet.Words.{has_bit-eq-bit}
use min_corehdr.TypeSet.Laws.{IsValid}

-- `k` is the position of the lowest digit of `w` that is 1.
record IsLowest (w k : ℕ) : Type 0 where
  set_bit : bit w k ≡ 1
  below : (j : ℕ) → j < k → bit w j ≡ 0

-- The loop of `bit_index` finds it within as many rounds as the word has digits.
IsLowest-suc : (w k : ℕ) → w % 2 ≡ 0 → IsLowest (w / 2) k → IsLowest w (suc k)
IsLowest-suc w k even low = record { set_bit = bit-suc w k ∙ low.set_bit; below = below }
  where
    below : (j : ℕ) → j < suc k → bit w j ≡ 0
    below zero h = bit_low w ∙ even
    below (suc j) h = bit-suc w j ∙ low.below j (omega arith)

bit_index-IsLowest :
    (fuel w b : ℕ)
    → w < 2 ^ fuel
    → w ≢ 0
    → (k : ℕ) × (bit_index fuel w b ≡ b + k) × (k < fuel) × IsLowest w k
unfolding bit_index
bit_index-IsLowest zero w b h nz = absurd (nz (omega arith))
bit_index-IsLowest (suc fuel) w b h nz = elim (Bool-cases (w % 2 == 0)) [
  | inl even ↦
      let (k, e, l, low) =
        bit_index-IsLowest fuel (w / 2) (b + 1) (omega (arith, pow-suc 2 fuel))
          (λ z. nz (ground arith)) in
      (suc k, ground (arith, bit_and-one w), omega arith, IsLowest-suc w k (ground arith) low)
  | inr odd ↦ (
    0,
    ground (arith, bit_and-one w),
    omega arith,
    record { set_bit = ground (arith, bit_low w); below = λ j h. absurd (omega arith) },
  )
]

-- The mask is the digits from `off` to 63.
mask_from_lem : (off : ℕ) → off < 64 → mask_from off ≡ 2 ^ 64 - 2 ^ off
mask_from_lem off h =
    let low = one-le-pow off 2 in
    let high = pow-le-pow_right {n = 2} (omega arith) {i = off} {j = 64} (omega arith) in
    omega (arith, low (omega arith), high)

-- What a step from `start` must leave: the least member not below it, and the cursor behind it,
-- or no member at all.
abbrev pub IsNext : TypeSet → ℕ → Step → Type 0
IsNext s start r = elim r.found [
  | none ↦ (j : ℕ) → start ≤ j → contains s j ≡ false
  | some id ↦
      (contains s id ≡ true)
      × (start ≤ id)
      × (r.cursor ≡ id + 1)
      × ((j : ℕ) → start ≤ j → j < id → contains s j ≡ false)
]

module _ (s : TypeSet) (start : ℕ) (v : IsValid s) where
  -- The state of the loop at word `wi`: no member lies in the words before it, and `word` holds
  -- the digits of this one from `start` on.
  record Scanning (wi word : ℕ) : Type 0 where
    within : wi < s.word_count
    begun : start / 64 ≤ wi
    passed : (j : ℕ) → start ≤ j → j / 64 < wi → contains s j ≡ false
    here :
        (k : ℕ)
        → k < 64
        → bit word k ≡ (if leb start (wi * 64 + k) then bit (get_or s.words wi 0) k else 0)
    bounded : word < 2 ^ 64

  contains-false : (j : ℕ) → bit (word_of s.words j) (j % 64) ≡ 0 → contains s j ≡ false
  unfolding contains
  contains-false j z = ground (arith, has_bit-eq-bit s.words j)

  contains-true : (j : ℕ) → j < s.count → bit (word_of s.words j) (j % 64) ≡ 1 → contains s j ≡ true
  unfolding contains
  contains-true j h z = ground (arith, has_bit-eq-bit s.words j)

  contains_past : (j : ℕ) → s.count ≤ j → contains s j ≡ false
  unfolding contains
  contains_past j h = ground arith

  -- A member in word `wi` is a digit of `word`.
  absent_here :
      (wi word j : ℕ)
      → Scanning wi word
      → start ≤ j
      → j / 64 ≡ wi
      → bit word (j % 64) ≡ 0
      → contains s j ≡ false
  absent_here wi word j inv h e z = contains-false j (ground (arith, inv.here (j % 64)))

  -- A word without digits is passed.
  passed_blank :
      (wi word j : ℕ)
      → Scanning wi word
      → word ≡ 0
      → start ≤ j
      → j / 64 < wi + 1
      → contains s j ≡ false
  passed_blank wi word j inv z h b = elim (Bool-cases (j / 64 == wi)) [
    | inl e ↦ absent_here wi word j inv h (ground arith) (rw z (bit-zero (j % 64)))
    | inr ne ↦ inv.passed j h (ground arith)
  ]

  next_word :
      (wi word : ℕ)
      → Scanning wi word
      → word ≡ 0
      → wi + 1 < s.word_count
      → Scanning (wi + 1) (get_or s.words (wi + 1) 0)
  next_word wi word inv z more = record {
    within = more;
    begun = omega (arith, inv.begun);
    passed = λ j h b. passed_blank wi word j inv z h b;
    here = λ k h. ground (arith, inv.begun);
    bounded = v.word_small (wi + 1);
  }

  -- Below the lowest digit of the word there is no member from `start` on.
  absent_below :
      (wi word k j : ℕ)
      → Scanning wi word
      → IsLowest word k
      → start ≤ j
      → j < wi * 64 + k
      → k < 64
      → contains s j ≡ false
  absent_below wi word k j inv low h b l = elim (Bool-cases (j / 64 == wi)) [
    | inl e ↦ absent_here wi word j inv h (ground arith) (low.below (j % 64) (ground arith))
    | inr ne ↦ inv.passed j h (ground arith)
  ]

  found_here :
      (wi word k : ℕ)
      → Scanning wi word
      → IsLowest word k
      → k < 64
      → wi * 64 + k < s.count
      → (contains s (wi * 64 + k) ≡ true) × (start ≤ wi * 64 + k)
  found_here wi word k inv low l h =
      let quotient : (wi * 64 + k) / 64 ≡ wi = omega arith in
      let remainder : (wi * 64 + k) % 64 ≡ k = omega arith in
      (
        contains-true (wi * 64 + k) h
            (rw (quotient, remainder) (ground (arith, inv.here k, low.set_bit))),
        ground (arith, inv.here k, low.set_bit),
      )

  scan-IsNext :
      (left wi word : ℕ)
      → left + wi ≡ s.word_count
      → Scanning wi word
      → IsNext s start (scan s start left wi word)
  unfolding scan
  scan-IsNext zero wi word e inv = absurd (omega (arith, inv.within))
  scan-IsNext (suc left) wi word e inv = elim (Bool-cases (word == 0)) [
    | inl blank ↦ elim (Bool-cases (leb s.word_count (wi + 1))) [
      | inl last ↦
          rw (blank, last)
            (λ j h. elim (Bool-cases (leb s.count j)) [
              | inl out ↦ contains_past j (leb→le _ _ out)
              | inr low ↦ passed_blank wi word j inv (ground arith) h (ground (arith, v.room))
            ])
      | inr more ↦
          rw (blank, more)
            (scan-IsNext left (wi + 1) (get_or s.words (wi + 1) 0) (omega arith)
              (next_word wi word inv (ground arith) (ground arith)))
    ]
    | inr digits ↦
        let (k, at, l, low) = bit_index-IsLowest 64 word 0 inv.bounded (ground arith) in
        let here : u64 (wi * 64 + bit_index 64 word 0) ≡ wi * 64 + k =
          omega (arith, inv.within, v.tight, v.small) in
        elim (Bool-cases (leb s.count (wi * 64 + k))) [
          | inl past ↦
              rw (digits, here, past)
                (λ j h. elim (Bool-cases (leb s.count j)) [
                  | inl out ↦ contains_past j (leb→le _ _ out)
                  | inr below ↦ absent_below wi word k j inv low h (ground arith) l
                ])
          | inr found ↦
              let (member, from) = found_here wi word k inv low l (ground arith) in
              rw (digits, here, found)
                (
                  member,
                  from,
                  ground (arith, v.small),
                  λ j h b. absent_below wi word k j inv low h b l,
                )
        ]
  ]

  -- The first word is masked, so that no member below `start` is seen.
  first_word :
      start < s.count
      → Scanning (start / 64) (bit_and (get_or s.words (start / 64) 0) (mask_from (start % 64)))
  first_word h =
      let w = get_or s.words (start / 64) 0 in
      let off = start % 64 in
      let mask : mask_from off ≡ 2 ^ 64 - 2 ^ off = mask_from_lem off (omega arith) in
      record {
        within = omega (arith, v.room);
        begun = omega arith;
        passed = λ j a b. absurd (omega arith);
        here = λ k l.
            rw (mask, bit-bit_and w (2 ^ 64 - 2 ^ off) k, bit-mask_from off 64 k (omega arith))
              (ground (arith, bit-lt w k));
        bounded = omega (arith, bit_and-le 64 w (mask_from off) (v.word_small (start / 64)));
      }

  null_count : is_null s.words ≡ true → (j : ℕ) → s.count ≤ j
  null_count null j = elim (List-cases s.words) [
    | inl e ↦ omega (arith, ap length e, v.width, v.room)
    | inr (w, ws, e) ↦ ground arith
  ]

  -- On a valid set `next` finds the least member that is not below the cursor and sets the cursor
  -- behind it; it finds none only if no member is left.
  pub next-IsNext : IsNext s start (next s start)
  unfolding next
  next-IsNext = elim (Bool-cases (is_null s.words)) [
    | inl null ↦ rw null (λ j h. contains_past j (null_count null j))
    | inr words ↦ elim (Bool-cases (leb s.count start)) [
      | inl out ↦ rw (words, out) (λ j h. contains_past j (ground arith))
      | inr below ↦
          rw (words, below)
            (scan-IsNext (s.word_count - start / 64) (start / 64) _ (ground (arith, v.room))
              (first_word (ground arith)))
    ]
  ]
