-- ===== src/Closure/Correct.antt =====
-- The closure computes exactly the reachable types, and fails only on an inconsistent BTF.
use min_corehdr.Prelude.{
  ℕ, zero, suc, ◌+◌, ◌-◌, ◌≤◌, ◌≡◌, refl, sym, ap, ◌∙◌, ◌≢◌, ◌⊎◌, inl, inr, Bool, true, false,
  Option, some, List, [], ◌∷◌, Memᴰ, arith, ◌==◌, ==_iff, Bool-cases, Option-cases, List-cases,
  length, Memᴰ-cons,
}
use min_corehdr.Count.{card-le}
use min_corehdr.Errors.{Result-cases, Failure, ok, failed, ◌>>=◌, >>=-eq-ok}
use min_corehdr.Btf.{Btf, BtfType}
use min_corehdr.TypeSet.{contains, u64, has_bit}
use min_corehdr.TypeSet.Laws.{IsValid}
use min_corehdr.Closure.{State, Options, loop, expand}
use min_corehdr.Closure.Deps.{dep_ids, add_all, add_type_deps-eq}
use min_corehdr.Closure.Grows.{Grows, add_all-Grows}
use min_corehdr.Closure.Failures.{Fits, Fits-Grows, add_all-failed}
use min_corehdr.Closure.Reach.{Dep, Dep-refers, Reach, step, Inconsistent, missing, invalid}

other_waits : (x u : ℕ) (rest : List ℕ) → (x == u) ≡ false → Memᴰ x (u ∷ rest) → Memᴰ x rest
other_waits x u rest other m = ground (arith, Memᴰ-cons x u rest)

-- `selected` and `added` are the counts at the start.
module _ (alloc : ℕ → Bool) (b : Btf) (o : Option Options) (roots : ℕ → Bool)
    (selected added : ℕ) where
  -- The invariant of the main loop.
  pub record Inv (st : State) : Type 0 where
    pub valid : IsValid st.required
    pub wide : b.type_cnt ≤ st.required.count
    pub seeds : (v : ℕ) → roots v ≡ true → contains st.required v ≡ true
    pub queued : (v : ℕ) → Memᴰ v st.pending → (contains st.required v ≡ true) × (v ≢ 0)
    pub sound : (v : ℕ) → contains st.required v ≡ true → Reach b o roots v
    pub closed :
        (u v : ℕ)
        → contains st.required u ≡ true
        → u ≢ 0
        → Dep b o u v
        → Memᴰ u st.pending ⊎ (contains st.required v ≡ true)
    pub counted : u64 (st.added_types + selected) ≡ u64 (added + st.required.selected)

  -- One round, on the id `u` at the head of the worklist.
  expand-Grows :
      (u : ℕ) (rest : List ℕ) (st st' : State)
      → st.pending ≡ u ∷ rest
      → Inv st
      → expand alloc b o u (record st { pending = rest }) ≡ ok st'
      → (t : BtfType) × (b.type_by_id u ≡ some t)
        × Grows b.type_cnt (dep_ids o u t) (record st { pending = rest }) st'
  unfolding expand
  expand-Grows u rest st st' e inv h = elim (Option-cases (b.type_by_id u)) [
    | inl absent ↦ absurd (ground arith)
    | inr (t, found) ↦
        let st₀ = record st { pending = rest } in
        let run : add_all alloc b (dep_ids o u t) st₀ ≡ ok st' =
          sym (add_type_deps-eq alloc b o u t st₀) ∙ ground arith in
        (t, found, add_all-Grows alloc b (dep_ids o u t) st₀ st' inv.valid inv.wide run)
  ]

  Inv-expand :
      (u : ℕ) (rest : List ℕ) (st st' : State)
      → st.pending ≡ u ∷ rest
      → Inv st
      → expand alloc b o u (record st { pending = rest }) ≡ ok st'
      → Inv st'
  Inv-expand u rest st st' e inv h =
      let (t, found, g) = expand-Grows u rest st st' e inv h in
      let head = inv.queued u (rw e ((Memᴰ-cons u u rest).1 (inl refl))) in
      let tail =
        λ (v : ℕ) (m : Memᴰ v rest). inv.queued v (rw e ((Memᴰ-cons v u rest).1 (inr m))) in
      record {
        valid = g.valid;
        wide = omega (arith, g.count, inv.wide);
        seeds = λ v r. (g.member v).1 (inl (inv.seeds v r));
        queued = λ v m. elim ((g.queue v).0 m) [
          | inl old ↦ ((g.member v).1 (inl (tail v old).0), (tail v old).1)
          | inr (now, before) ↦ (now, ground (arith, g.member v))
        ];
        sound = λ v m. elim ((g.member v).0 m) [
          | inl old ↦ inv.sound v old
          | inr (refers, nz) ↦
              step (inv.sound u head.0) head.1
                (record { type = t; found = found; refers = refers; not_void = nz })
        ];
        closed = λ x v m nz d. elim (Bool-cases (x == u)) [
          | inl same ↦
              inr ((g.member v).1 (inr (Dep-refers ((==_iff x u).0 same) found d, d.not_void)))
          | inr other ↦ elim (Bool-cases (contains st.required x)) [
            | inr new ↦ inl ((g.queue x).1 (inr (m, new)))
            | inl old ↦ elim (inv.closed x v old nz d) [
              | inr done ↦ inr ((g.member v).1 (inl done))
              | inl waits ↦ inl ((g.queue x).1 (inl (other_waits x u rest other (rw e at waits))))
            ]
          ]
        ];
        counted = omega (arith, g.added, inv.counted);
      }

  loop_empty : (fuel : ℕ) (st : State) → st.pending ≡ [] → loop alloc b o fuel st ≡ ok st
  unfolding loop
  loop_empty zero st e = ground arith
  loop_empty (suc fuel) st e = ground arith

  loop_round :
      (fuel u : ℕ) (rest : List ℕ) (st : State)
      → st.pending ≡ u ∷ rest
      → loop alloc b o (suc fuel) st
        ≡ (expand alloc b o u (record st { pending = rest }) >>= loop alloc b o fuel)
  unfolding loop
  loop_round fuel u rest st e = ground arith

  loop_stuck :
      (u : ℕ) (rest : List ℕ) (st : State)
      → st.pending ≡ u ∷ rest
      → loop alloc b o 0 st ≡ failed Failure.out_of_fuel
  unfolding loop
  loop_stuck u rest st e = ground arith

  -- When the loop ends the worklist is empty, and the invariant holds.
  pub loop-Inv :
      (fuel : ℕ) (st end : State)
      → Inv st
      → loop alloc b o fuel st ≡ ok end
      → Inv end × (end.pending ≡ [])
  loop-Inv zero st end inv h = elim (List-cases st.pending) [
    | inl empty ↦ let same : st ≡ end = cc (loop_empty 0 st empty, h) in rw (← same) (inv, empty)
    | inr (u, rest, e) ↦ cc (loop_stuck u rest st e, h)
  ]
  loop-Inv (suc fuel) st end inv h = elim (List-cases st.pending) [
    | inl empty ↦
        let same : st ≡ end = cc (loop_empty (suc fuel) st empty, h) in rw (← same) (inv, empty)
    | inr (u, rest, e) ↦
        let (mid, round, more) =
          >>=-eq-ok (expand alloc b o u (record st { pending = rest })) (loop alloc b o fuel)
            (sym (loop_round fuel u rest st e) ∙ h) in
        loop-Inv fuel mid end (Inv-expand u rest st mid e inv round) more
  ]

  -- What the loop still has to do: a round takes one id off the worklist, and puts on only ids that
  -- it selects.
  abbrev pub work : State → ℕ
  work st = st.required.count - st.required.selected + length st.pending

  pub selected-le : (st : State) → IsValid st.required → st.required.selected ≤ st.required.count
  selected-le st v = omega (arith, v.counted, card-le (has_bit st.required.words) st.required.count)

  work-expand :
      (u : ℕ) (rest : List ℕ) (st st' : State)
      → st.pending ≡ u ∷ rest
      → Inv st
      → expand alloc b o u (record st { pending = rest }) ≡ ok st'
      → work st' + 1 ≡ work st
  work-expand u rest st st' e inv h =
      let (t, found, g) = expand-Grows u rest st st' e inv h in
      omega (arith, g.work, g.count, ap length e, selected-le st inv.valid, selected-le st' g.valid)

  module _ (enough : (n : ℕ) → alloc n ≡ true) where
    expand-failed :
        (u : ℕ) (rest : List ℕ) (st : State) (f : Failure)
        → st.pending ≡ u ∷ rest
        → Inv st
        → Fits st
        → expand alloc b o u (record st { pending = rest }) ≡ failed f
        → Inconsistent b o roots f
    unfolding expand
    expand-failed u rest st f e inv fits h =
        let (member, nz) = inv.queued u (rw e ((Memᴰ-cons u u rest).1 (inl refl))) in
        elim (Option-cases (b.type_by_id u)) [
          | inl none_there ↦
              let named : Failure.missing_required_type u ≡ f = ground arith in
              rw (← named) (missing (inv.sound u member) none_there)
          | inr (t, found) ↦
              let st₀ = record st { pending = rest } in
              let run : add_all alloc b (dep_ids o u t) st₀ ≡ failed f =
                sym (add_type_deps-eq alloc b o u t st₀) ∙ ground arith in
              let fits₀ : Fits st₀ = record {
                valid = fits.valid;
                narrow = fits.narrow;
                slots = fits.slots;
              } in
              let (d, refers, bad) =
                add_all-failed alloc enough b (dep_ids o u t) st₀ f fits₀ inv.wide run in
              rw bad.0 (
                invalid (inv.sound u member)
                  (record { type = t; found = found; refers = refers; not_void = bad.1 }) bad.2)
        ]

    -- With fuel for the work left, the loop fails only on an inconsistent BTF.
    pub loop-failed :
        (fuel : ℕ) (st : State) (f : Failure)
        → Inv st
        → Fits st
        → work st ≤ fuel
        → loop alloc b o fuel st ≡ failed f
        → Inconsistent b o roots f
    loop-failed zero st f inv fits w h = elim (List-cases st.pending) [
      | inl empty ↦ cc (loop_empty 0 st empty, h)
      | inr (u, rest, e) ↦ absurd (omega (arith, ap length e))
    ]
    loop-failed (suc fuel) st f inv fits w h = elim (List-cases st.pending) [
      | inl empty ↦ cc (loop_empty (suc fuel) st empty, h)
      | inr (u, rest, e) ↦
          let st₀ = record st { pending = rest } in
          elim (Result-cases (expand alloc b o u st₀)) [
            | inr (f', bad) ↦
                let same : f' ≡ f = cc (loop_round fuel u rest st e, h, bad) in
                rw (← same) (expand-failed u rest st f' e inv fits bad)
            | inl (mid, good) ↦
                let (t, found, g) = expand-Grows u rest st mid e inv good in
                loop-failed fuel mid f (Inv-expand u rest st mid e inv good)
                  (Fits-Grows b.type_cnt (dep_ids o u t) st₀ mid g
                    (record { valid = fits.valid; narrow = fits.narrow; slots = fits.slots }))
                  (omega (arith, work-expand u rest st mid e inv good))
                  (rw (loop_round fuel u rest st e, good) at h)
          ]
    ]
