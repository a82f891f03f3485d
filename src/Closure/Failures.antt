-- ===== src/Closure/Failures.antt =====
-- When the calls of `add_dep` fail: with enough memory, only on an id that is out of range.
use min_corehdr.Prelude.{
  ℕ, ◌*◌, ◌^◌, ◌≤◌, ◌≡◌, refl, ap, ◌∙◌, ◌≢◌, inl, inr, Bool, true, List, [], ◌∷◌, Memᴰ, arith,
  Memᴰ-cons,
}
use min_corehdr.Count.{card-le}
use min_corehdr.Errors.{Result-cases, Failure, failed}
use min_corehdr.Btf.{Btf}
use min_corehdr.TypeSet
use min_corehdr.TypeSet.{TypeSet, contains, u64, has_bit}
use min_corehdr.TypeSet.Laws.{IsValid}
use min_corehdr.Closure.{State, add_dep, worklist_push, worklist_grow, worklist_init}
use min_corehdr.Closure.Deps.{add_all}
use min_corehdr.Closure.Grows.{Grows, add_one-Grows}

-- The sizes for which the worklist arithmetic does not reach its limits: a type id has 32 bits.
pub record Fits (st : State) : Type 0 where
  pub valid : IsValid st.required
  pub narrow : st.required.count ≤ 2 ^ 32
  pub slots : st.len ≤ st.required.selected

pub Fits-Grows : (n : ℕ) (ds : List ℕ) (st st' : State) → Grows n ds st st' → Fits st → Fits st'
Fits-Grows n ds st st' g f = record {
  valid = g.valid;
  narrow = omega (arith, g.count, f.narrow);
  slots = omega (arith, g.slots, f.slots);
}

module _ (alloc : ℕ → Bool) (enough : (n : ℕ) → alloc n ≡ true) where
  worklist_grow-total :
      (len cap : ℕ) → len ≤ 2 ^ 32 → (e : Failure) → worklist_grow alloc len cap ≢ failed e
  unfolding worklist_grow
  worklist_grow-total len cap h e f = ground (arith, enough (u64 (cap * 2) * 4))

  pub worklist_init-total : (n : ℕ) → n ≤ 2 ^ 32 → (e : Failure) → worklist_init alloc n ≢ failed e
  unfolding worklist_init
  worklist_init-total n h e f = ground (arith, enough (n * 4), enough (16 * 4))

  pub worklist_push-total :
      (id : ℕ) (st : State) → st.len ≤ 2 ^ 32 → (e : Failure) → worklist_push alloc id st ≢ failed e
  unfolding worklist_push
  worklist_push-total id st h e f = ground (arith, worklist_grow-total st.len st.cap h e)

  module _ (b : Btf) where
    -- The id is out of range, and the message names it.
    abbrev pub IsInvalid : ℕ → Failure → Type 0
    IsInvalid d e = (e ≡ Failure.invalid_dependency d) × (d ≢ 0) × (b.type_cnt ≤ d)

    add_dep-failed :
        (id : ℕ) (st : State) (e : Failure)
        → Fits st
        → add_dep alloc b id st ≡ failed e
        → IsInvalid id e
    unfolding add_dep
    add_dep-failed id st e f h =
        let small : st.len ≤ 2 ^ 32 = omega (
          arith,
          f.slots,
          f.narrow,
          f.valid.counted,
          card-le (has_bit st.required.words) st.required.count,
        ) in
        ground (
          arith,
          worklist_push-total id (record st { required = (TypeSet.add st.required id).1 }) small e,
        )

    pub add_all-failed :
        (ds : List ℕ) (st : State) (e : Failure)
        → Fits st
        → b.type_cnt ≤ st.required.count
        → add_all alloc b ds st ≡ failed e
        → (d : ℕ) × Memᴰ d ds × IsInvalid d e
    unfolding add_all
    add_all-failed [] st e f wide h = cc
    add_all-failed (d ∷ ds) st e f wide h = elim (Result-cases (add_dep alloc b d st)) [
      | inr (e', bad) ↦
          let same : e' ≡ e = ground (arith, bad) in
          (d, (Memᴰ-cons d d ds).1 (inl refl), add_dep-failed d st e f (bad ∙ ap failed same))
      | inl (mid, good) ↦
          let g = add_one-Grows alloc b d st mid f.valid wide good in
          let (c, m, bad) =
            add_all-failed ds mid e (Fits-Grows b.type_cnt (d ∷ []) st mid g f)
              (omega (arith, g.count)) (rw good at h) in
          (c, (Memᴰ-cons c d ds).1 (inr m), bad)
    ]
