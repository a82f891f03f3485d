-- ===== src/Closure/Grows.antt =====
-- What the calls of `add_dep` for one type do to the required types, the worklist and the counters.
use min_corehdr.Prelude.{
  ℕ, ◌+◌, ◌≤◌, ◌<◌, ◌≡◌, refl, ◌∙◌, ◌≢◌, ◌↔◌, ◌⊎◌, inl, ⊎_elim, Bool, true, false, not, ◌&&◌, List,
  [], ◌∷◌, ◌++◌, Memᴰ, arith, ◌==◌, if◌then◌else◌, length, length-append, Memᴰ-cons, Memᴰ-concat,
  Memᴰ-one, not-Memᴰ-nil,
}
use min_corehdr.Errors.{ok, >>=-eq-ok}
use min_corehdr.Btf.{Btf}
use min_corehdr.TypeSet
use min_corehdr.TypeSet.{TypeSet, contains, u64}
use min_corehdr.TypeSet.Laws.{IsValid, contains-add, add-eq, add-count, add-selected, add-IsValid}
use min_corehdr.Closure.{State, add_dep, worklist_push}
use min_corehdr.Closure.Deps.{add_all}

-- `add_dep` pushes `id`.
abbrev pub fresh : ℕ → State → Bool
fresh id st = not (id == 0) && (TypeSet.add st.required id).0

-- One successful call of `add_dep`, field by field.
record Stepped (n id : ℕ) (st st' : State) : Type 0 where
  required : st'.required ≡ (if id == 0 then st.required else (TypeSet.add st.required id).1)
  pending : st'.pending ≡ (if fresh id st then st.pending ++ id ∷ [] else st.pending)
  len : st'.len ≡ st.len + (if fresh id st then 1 else 0)
  added : st'.added_types ≡ (if fresh id st then u64 (st.added_types + 1) else st.added_types)
  in_range : (id ≡ 0) ⊎ (id < n)

-- What calls for the ids `ds` have done between two states: the ids that are not 0 have joined the
-- required types, those that were new have joined the worklist, and the counters agree.
pub record Grows (n : ℕ) (ds : List ℕ) (st st' : State) : Type 0 where
  pub valid : IsValid st'.required
  pub count : st'.required.count ≡ st.required.count
  pub in_range : (v : ℕ) → Memᴰ v ds → (v ≡ 0) ⊎ (v < n)
  pub member :
      (v : ℕ)
      → (contains st'.required v ≡ true) ↔ ((contains st.required v ≡ true) ⊎ Memᴰ v ds × (v ≢ 0))
  pub queue :
      (v : ℕ)
      → Memᴰ v st'.pending
        ↔ (Memᴰ v st.pending ⊎ (contains st'.required v ≡ true) × (contains st.required v ≡ false))
  pub work : st'.required.selected + length st.pending ≡ st.required.selected + length st'.pending
  pub slots : st'.len + st.required.selected ≡ st.len + st'.required.selected
  pub added :
      u64 (st'.added_types + st.required.selected) ≡ u64 (st.added_types + st'.required.selected)

Grows-nil : (n : ℕ) (st : State) → IsValid st.required → Grows n [] st st
Grows-nil n st v = record {
  valid = v;
  count = refl;
  in_range = λ u m. absurd (not-Memᴰ-nil u m);
  member = λ u. (inl, ⊎_elim (λ m. m) (λ (m, _). absurd (not-Memᴰ-nil u m)));
  queue = λ u. (inl, ⊎_elim (λ m. m) (λ (p, q). cc));
  work = refl;
  slots = refl;
  added = refl;
}

Grows-cons :
    (n d : ℕ) (ds : List ℕ) (st mid st' : State)
    → Grows n (d ∷ []) st mid
    → Grows n ds mid st'
    → Grows n (d ∷ ds) st st'
Grows-cons n d ds st mid st' g h = record {
  valid = h.valid;
  count = h.count ∙ g.count;
  in_range = λ v m.
      ground (arith, Memᴰ-cons v d ds, Memᴰ-cons v d [], Memᴰ-one v d, g.in_range v, h.in_range v);
  member = λ v. ground (arith, Memᴰ-cons v d ds, Memᴰ-one v d, g.member v, h.member v);
  queue = λ v. ground (arith, g.queue v, h.queue v, g.member v, h.member v);
  work = omega (arith, g.work, h.work);
  slots = omega (arith, g.slots, h.slots);
  added = omega (arith, g.added, h.added);
}

module _ (alloc : ℕ → Bool) (b : Btf) where
  add_dep-Stepped :
      (id : ℕ) (st st' : State) → add_dep alloc b id st ≡ ok st' → Stepped b.type_cnt id st st'
  unfolding add_dep worklist_push
  add_dep-Stepped id st st' h = ground arith

  add_dep-Grows :
      (id : ℕ) (st st' : State)
      → IsValid st.required
      → b.type_cnt ≤ st.required.count
      → Stepped b.type_cnt id st st'
      → Grows b.type_cnt (id ∷ []) st st'
  add_dep-Grows id st st' v wide h =
      let keep = contains-add st.required id v in
      record {
        valid = ground (arith, h.required, add-IsValid st.required id v);
        count = ground (arith, h.required, add-count st.required id v);
        in_range = λ u m. ground (arith, h.in_range, Memᴰ-one u id);
        member = λ u. ground (arith, h.required, h.in_range, keep u, Memᴰ-one u id);
        queue = λ u. ground (
          arith,
          h.required,
          h.in_range,
          h.pending,
          keep u,
          add-eq st.required id v,
          Memᴰ-concat u id st.pending,
        );
        work = ground (
          arith,
          h.required,
          h.pending,
          add-selected st.required id v,
          length-append st.pending (id ∷ []),
        );
        slots = ground (arith, h.required, h.len, add-selected st.required id v);
        added = ground (arith, h.required, h.added, add-selected st.required id v);
      }

  pub add_one-Grows :
      (id : ℕ) (st st' : State)
      → IsValid st.required
      → b.type_cnt ≤ st.required.count
      → add_dep alloc b id st ≡ ok st'
      → Grows b.type_cnt (id ∷ []) st st'
  add_one-Grows id st st' v wide h = add_dep-Grows id st st' v wide (add_dep-Stepped id st st' h)

  pub add_all-Grows :
      (ds : List ℕ) (st st' : State)
      → IsValid st.required
      → b.type_cnt ≤ st.required.count
      → add_all alloc b ds st ≡ ok st'
      → Grows b.type_cnt ds st st'
  unfolding add_all
  add_all-Grows [] st st' v wide h =
      let same : st ≡ st' = cc in rw (← same) (Grows-nil b.type_cnt st v)
  add_all-Grows (d ∷ ds) st st' v wide h =
      let (mid, first, rest) = >>=-eq-ok (add_dep alloc b d st) _ h in
      let g = add_one-Grows d st mid v wide first in
      Grows-cons b.type_cnt d ds st mid st' g
        (add_all-Grows ds mid st' g.valid (omega (arith, g.count)) rest)
