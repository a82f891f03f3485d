-- ===== src/Index/Enums.antt =====
-- `mch_btf_index_lookup_anonymous_enum` against the anonymous enums of the BTF.
use min_corehdr.Prelude.{
  ℕ, zero, suc, ◌+◌, ◌-◌, ◌*◌, ◌<◌, ◌≡◌, refl, sym, ap, ◌∙◌, inl, inr, Bool, true, ◌&&◌, Option,
  none, some, [], arith, if◌then◌else◌, Bool-cases, replicate, ltb, is_empty,
}
use mathlib.Core.Path.{subst}
use min_corehdr.Errors.{ok}
use min_corehdr.Btf.{Kind, Btf, BtfType, type_name}
use min_corehdr.Index.{
  Index, Answer, absent, found, ambiguous, is_enum_kind, matches_at, enum_loop,
  lookup_anonymous_enum, index_type, insert, fill, init, next_power_of_two, end_of_chain,
}
use min_corehdr.Index.Build.{Verdict, nowhere, twice, Verdict-miss, Verdict-hit}

module _ (number : Kind → ℕ) where
  module _ (lb rb : Btf) where
    so_far : Option ℕ → Answer
    so_far none = absent
    so_far (some m) = found m

    Verdict-more :
        (has : ℕ → Bool) (left hi : ℕ)
        → Verdict has hi ambiguous
        → Verdict has (hi + left) ambiguous
    Verdict-more has left hi (twice i j p q r s t) = twice i j p q (omega (arith, r)) s t

    enum_loop-Verdict :
        (u : BtfType) (left id : ℕ) (m : Option ℕ)
        → 0 < id
        → Verdict (matches_at number lb rb u) id (so_far m)
        → Verdict (matches_at number lb rb u) (id + left) (enum_loop number lb rb u left id m)
    unfolding enum_loop so_far
    enum_loop-Verdict u zero id none pos v =
        subst (λ h. Verdict (matches_at number lb rb u) h absent) (omega arith) v
    enum_loop-Verdict u zero id (some m) pos v =
        subst (λ h. Verdict (matches_at number lb rb u) h (found m)) (omega arith) v
    enum_loop-Verdict u (suc left) id none pos v =
        let has = matches_at number lb rb u in
        let moved : id + 1 + left ≡ id + suc left = omega arith in
        subst (λ h. Verdict has h (enum_loop number lb rb u (suc left) id none)) moved
          (elim (Bool-cases (has id)) [
            | inl hit ↦ rw hit (
                enum_loop-Verdict u left (id + 1) (some id) (omega arith)
                  (Verdict-hit has id absent v pos hit))
            | inr miss ↦ rw miss (
                enum_loop-Verdict u left (id + 1) none (omega arith)
                  (Verdict-miss has id absent v miss))
          ])
    enum_loop-Verdict u (suc left) id (some m) pos v =
        let has = matches_at number lb rb u in
        let moved : id + 1 + left ≡ id + suc left = omega arith in
        subst (λ h. Verdict has h (enum_loop number lb rb u (suc left) id (some m))) moved
          (elim (Bool-cases (has id)) [
            | inl hit ↦
                rw hit (Verdict-more has left (id + 1) (Verdict-hit has id (found m) v pos hit))
            | inr miss ↦ rw miss (
                enum_loop-Verdict u left (id + 1) (some m) (omega arith)
                  (Verdict-miss has id (found m) v miss))
          ])

  module _ (b : Btf) where
    index_type-btf : (id : ℕ) (index : Index) → (index_type number b id index).btf ≡ index.btf
    unfolding index_type insert
    index_type-btf id index = ground arith

    fill-btf : (left id : ℕ) (index : Index) → (fill number b left id index).btf ≡ index.btf
    unfolding fill
    fill-btf zero id index = refl
    fill-btf (suc left) id index =
        fill-btf left (id + 1) (index_type number b id index) ∙ index_type-btf id index

    init-btf :
        (alloc : ℕ → Bool) (index : Index) → init number alloc b ≡ ok index → index.btf ≡ some b
    unfolding init
    init-btf alloc index e =
        let capacity : ℕ = if ltb 1 b.type_cnt then b.type_cnt - 1 else 1 in
        let buckets = next_power_of_two (capacity * 2) in
        let start : Index = record {
          btf = some b;
          buckets = replicate buckets end_of_chain;
          entries = [];
          bucket_count = buckets;
        } in
        let same : fill number b (b.type_cnt - 1) 1 start ≡ index = ground (arith, e) in
        ap (λ (x : Index). x.btf) (sym same) ∙ fill-btf (b.type_cnt - 1) 1 start

    -- On an index that `init` builds over a BTF, the search for an enum without a name finds the
    -- type id exactly if one type of the BTF above 0 is the same enum.
    pub lookup_anonymous_enum-Verdict :
        (alloc : ℕ → Bool) (index : Index) (object : Btf) (u : BtfType)
        → 0 < b.type_cnt
        → init number alloc b ≡ ok index
        → (is_enum_kind number u.kind && is_empty (type_name object u)) ≡ true
        → Verdict
            (matches_at number b object u)
            b.type_cnt
            (lookup_anonymous_enum number index object u)
    unfolding lookup_anonymous_enum so_far
    lookup_anonymous_enum-Verdict alloc index object u pos e named =
        let there = init-btf alloc index e in
        let all : 1 + (b.type_cnt - 1) ≡ b.type_cnt = omega (arith, pos) in
        let same : lookup_anonymous_enum number index object u
            ≡ enum_loop number b object u (b.type_cnt - 1) 1 none =
          ground (arith, there, named) in
        rw same (
          subst
            (λ h.
              Verdict (matches_at number b object u) h
                (enum_loop number b object u (b.type_cnt - 1) 1 none))
            all
            (enum_loop-Verdict b object u (b.type_cnt - 1) 1 none (omega arith)
              (nowhere (λ j p q. absurd (omega (arith, p, q))))))
