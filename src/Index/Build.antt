-- ===== src/Index/Build.antt =====
-- `mch_btf_index_init` and `mch_btf_index_lookup` against the types of the BTF.
use min_corehdr.Prelude.{
  ℕ, zero, suc, ◌+◌, ◌-◌, ◌*◌, ◌^◌, ◌≤◌, ◌<◌, ◌≡◌, refl, sym, ap, ◌∙◌, inl, inr, Bool, true, false,
  not, ◌&&◌, none, some, [], arith, ltb, ◌==◌, if◌then◌else◌, ==_iff, Bool-cases, Option-cases,
  replicate, length, length-replicate, get_or-replicate, Text, is_empty, text_eq, text_eq_iff,
}
use mathlib.Core.Path.{subst}
use min_corehdr.Errors.{ok}
use min_corehdr.Btf.{Kind, Btf, BtfType, type_name}
use min_corehdr.Index.{
  Index, Answer, answer_of, walk, absent, found, ambiguous, end_of_chain, is_indexed_kind, insert,
  find_entry, lookup, index_type, fill, init, power_loop, next_power_of_two,
}
use min_corehdr.Index.Insert.{IsValid, again, key_eq, find_congr}
use min_corehdr.Index.Answers.{answer, insert-Inserted}

-- The answer that the ids `0 < j < hi` with the property call for.
pub data Verdict (has : ℕ → Bool) (hi : ℕ) : Answer → Type 0 where
  nowhere : ((j : ℕ) → 0 < j → j < hi → has j ≡ false) → Verdict has hi absent
  once :
      (i : ℕ)
      → 0 < i
      → i < hi
      → has i ≡ true
      → ((j : ℕ) → 0 < j → j < hi → has j ≡ true → j ≡ i)
      → Verdict has hi (found i)
  twice :
      (i j : ℕ) → 0 < i → i < j → j < hi → has i ≡ true → has j ≡ true → Verdict has hi ambiguous

module _ (has : ℕ → Bool) (hi : ℕ) where
  pub Verdict-miss : (a : Answer) → Verdict has hi a → has hi ≡ false → Verdict has (hi + 1) a
  Verdict-miss absent (nowhere none_there) h = nowhere (λ j p q. elim (Bool-cases (j == hi)) [
    | inl e ↦ ap has ((==_iff j hi).0 e) ∙ h
    | inr ne ↦ none_there j p (ground arith)
  ])
  Verdict-miss (found _) (once i p q at only) h = once i p (omega arith) at (λ j u w t.
      elim (Bool-cases (j == hi)) [
        | inl e ↦ absurd (cc (ap has ((==_iff j hi).0 e), h, t))
        | inr ne ↦ only j u (ground arith) t
      ])
  Verdict-miss ambiguous (twice i j p q r s t) h = twice i j p q (omega arith) s t

  pub Verdict-hit :
      (a : Answer) → Verdict has hi a → 0 < hi → has hi ≡ true → Verdict has (hi + 1) (again a hi)
  Verdict-hit absent (nowhere none_there) pos h = once hi pos (omega arith) h (λ j p q t.
      elim (Bool-cases (j == hi)) [
        | inl e ↦ (==_iff j hi).0 e
        | inr ne ↦ absurd (cc (none_there j p (ground arith), t))
      ])
  Verdict-hit (found _) (once i p q at only) pos h = twice i hi p q (omega arith) at h
  Verdict-hit ambiguous (twice i j p q r s t) pos h = twice i j p q (omega arith) s t

module _ (number : Kind → ℕ) where
  -- The type is indexed under this name and kind.
  unfoldable pub is_named : Btf → Text → Kind → ℕ → Bool
  is_named b n k j = elim (b.type_by_id j) [
    | none ↦ false
    | some t ↦
        is_indexed_kind t.kind
        && (not (is_empty (type_name b t)) && key_eq number (type_name b t) t.kind n k)
  ]

  module _ (b : Btf) where
    -- What the index holds before the id `id` is read.
    record Filled (id : ℕ) (index : Index) : Type 0 where
      valid : IsValid index
      short : length index.entries < id
      answers : (n : Text) (k : Kind) → Verdict (is_named b n k) id (answer number index n k)

    skipped :
        (id : ℕ) (index : Index)
        → Filled id index
        → ((n : Text) (k : Kind) → is_named b n k id ≡ false)
        → Filled (id + 1) index
    skipped id index f h = record {
      valid = f.valid;
      short = omega (arith, f.short);
      answers = λ n k. Verdict-miss _ id _ (f.answers n k) (h n k);
    }

    inserted :
        (id : ℕ) (index : Index) (t : BtfType)
        → 0 < id
        → id ≤ end_of_chain
        → Filled id index
        → ((n : Text) (k : Kind) → is_named b n k id ≡ key_eq number (type_name b t) t.kind n k)
        → Filled (id + 1) (insert number index (type_name b t) t.kind id)
    inserted id index t pos small f named =
        let i =
          insert-Inserted number index (type_name b t) t.kind id f.valid (omega (arith, f.short)) in
        record {
          valid = i.valid;
          short = omega (arith, i.short, f.short);
          answers = λ n k. elim (Bool-cases (key_eq number (type_name b t) t.kind n k)) [
            | inl same ↦
                let first : answer number index (type_name b t) t.kind ≡ answer number index n k =
                  rw (find_congr number index (type_name b t) t.kind n k same) refl in
                let now : answer number (insert number index (type_name b t) t.kind id) n k
                    ≡ again (answer number index n k) id =
                  rw (sym first) (ground (arith, i.answers n k)) in
                rw now (Verdict-hit _ id _ (f.answers n k) pos (named n k ∙ same))
            | inr other ↦
                let kept : answer number (insert number index (type_name b t) t.kind id) n k
                    ≡ answer number index n k =
                  ground (arith, i.answers n k) in
                rw kept (Verdict-miss _ id _ (f.answers n k) (named n k ∙ other))
          ];
        }

    Filled-index_type :
        (id : ℕ) (index : Index)
        → 0 < id
        → id ≤ end_of_chain
        → Filled id index
        → Filled (id + 1) (index_type number b id index)
    unfolding index_type is_named
    Filled-index_type id index pos small f = elim (Option-cases (b.type_by_id id)) [
      | inl out ↦
          let same : index_type number b id index ≡ index = ground (arith, out) in
          rw same (skipped id index f (λ n k. ground (arith, out)))
      | inr (t, at) ↦ elim (Bool-cases (is_indexed_kind t.kind && not (is_empty (type_name b t)))) [
        | inr not_indexed ↦
            let same : index_type number b id index ≡ index = ground (arith, at) in
            rw same (skipped id index f (λ n k. ground (arith, at)))
        | inl indexed ↦
            let same : index_type number b id index
                ≡ insert number index (type_name b t) t.kind id =
              ground (arith, at) in
            rw same (inserted id index t pos small f (λ n k. ground (arith, at)))
      ]
    ]

    Filled-fill :
        (left id hi : ℕ) (index : Index)
        → 0 < id
        → id + left ≡ hi
        → hi ≤ 2 ^ 32
        → Filled id index
        → Filled hi (fill number b left id index)
    unfolding fill
    Filled-fill zero id hi index pos sum small f = subst (λ m. Filled m index) (omega arith) f
    Filled-fill (suc left) id hi index pos sum small f =
        Filled-fill left (id + 1) hi _ (omega arith) (omega arith) small
          (Filled-index_type id index pos (omega arith) f)

    start : ℕ → Index
    start buckets = record {
      btf = some b;
      buckets = replicate buckets end_of_chain;
      entries = [];
      bucket_count = buckets;
    }

    Filled-start : (buckets : ℕ) → 0 < buckets → buckets ≤ 2 ^ 32 → Filled 1 (start buckets)
    unfolding start answer_of find_entry walk
    Filled-start buckets pos small = record {
      valid = record {
        some_buckets = pos;
        width = omega (arith, length-replicate {A = ℕ} buckets end_of_chain);
        narrow = small;
        heads = λ i. inr (get_or-replicate {A = ℕ} buckets i end_of_chain);
        down = λ i e at. absurd (cc at);
      };
      short = omega arith;
      answers = λ n k. nowhere (λ j p q. absurd (omega (arith, p, q)));
    }

    power_loop-pos : (fuel value result : ℕ) → 0 < result → 0 < power_loop fuel value result
    unfolding power_loop
    power_loop-pos zero value result h = h
    power_loop-pos (suc fuel) value result h =
        ground (arith, power_loop-pos fuel value (result * 2) (omega arith))

    next_power_of_two-pos : (value : ℕ) → 0 < next_power_of_two value
    unfolding next_power_of_two
    next_power_of_two-pos value = ground (arith, power_loop-pos 64 value 1 (omega arith))

    init-Filled :
        (alloc : ℕ → Bool) (index : Index)
        → 0 < b.type_cnt
        → init number alloc b ≡ ok index
        → Filled b.type_cnt index
    unfolding init start
    init-Filled alloc index pos e =
        let capacity : ℕ = if ltb 1 b.type_cnt then b.type_cnt - 1 else 1 in
        let buckets = next_power_of_two (capacity * 2) in
        let room = next_power_of_two-pos (capacity * 2) in
        let small : b.type_cnt ≤ 2 ^ 32 = ground (arith, e) in
        let narrow : buckets ≤ 2 ^ 32 = ground (arith, e) in
        let same : fill number b (b.type_cnt - 1) 1 (start buckets) ≡ index = ground (arith, e) in
        subst (Filled b.type_cnt) same (
          Filled-fill (b.type_cnt - 1) 1 b.type_cnt (start buckets) (omega arith) (omega arith)
            small (Filled-start buckets room narrow))

    pub built-IsValid :
        (alloc : ℕ → Bool) (index : Index)
        → 0 < b.type_cnt
        → init number alloc b ≡ ok index
        → IsValid index
    built-IsValid alloc index pos e = (init-Filled alloc index pos e).valid

    not-is_named : (n : Text) (k : Kind) (j : ℕ) → is_empty n ≡ true → is_named b n k j ≡ false
    unfolding is_named key_eq
    not-is_named n k j empty = elim (Option-cases (b.type_by_id j)) [
      | inl out ↦ ground (arith, out)
      | inr (t, at) ↦ elim (Bool-cases (text_eq (type_name b t) n)) [
        | inl same ↦
            let eq : is_empty (type_name b t) ≡ true =
              ap (λ (s : Text). is_empty s) ((text_eq_iff (type_name b t) n).0 same) ∙ empty in
            ground (arith, at, eq)
        | inr other ↦ ground (arith, at, other)
      ]
    ]

    -- On an index that `init` builds over a BTF with at least the void type, a lookup answers with
    -- the type id exactly if one type of the BTF above 0 is indexed under that name and kind, with
    -- absent if none is, and with ambiguous if several are.
    pub lookup-Verdict :
        (alloc : ℕ → Bool) (index : Index) (n : Text) (k : Kind)
        → 0 < b.type_cnt
        → init number alloc b ≡ ok index
        → Verdict (is_named b n k) b.type_cnt (lookup number index n k)
    unfolding lookup
    lookup-Verdict alloc index n k pos e =
        let f = init-Filled alloc index pos e in
        elim (Bool-cases (is_empty n)) [
          | inl empty ↦
              let same : lookup number index n k ≡ absent = ground arith in
              rw same (nowhere (λ j p q. not-is_named n k j empty))
          | inr full ↦
              let same : lookup number index n k ≡ answer number index n k =
                ground (arith, f.valid.some_buckets) in
              rw same (f.answers n k)
        ]
