-- ===== src/Closure/Total.antt =====
-- The whole closure, from the set that `main` has filled with roots.
use min_corehdr.Prelude.{
  ℕ, ◌+◌, ◌-◌, ◌%◌, ◌^◌, ◌≤◌, ◌<◌, ◌≡◌, refl, sym, ap, ◌∙◌, ◌≢◌, ◌↔◌, inl, inr, Bool, true, Option,
  List, [], ◌∷◌, ◌++◌, Memᴰ, arith, length, Memᴰ-cons, not-Memᴰ-nil,
}
use mathlib.Core.List.{append-nil, append_assoc}
use min_corehdr.Count.{card, card-le, card_congr}
use min_corehdr.Errors.{Result-cases, Failure, ok, failed, >>=-eq-ok}
use min_corehdr.Btf.{Btf}
use min_corehdr.TypeSet
use min_corehdr.TypeSet.{TypeSet, contains, u64, has_bit}
use min_corehdr.TypeSet.Laws.{IsValid, contains-lt, contains-eq-has_bit}
use min_corehdr.TypeSet.Iterate.{members, members-mem, length-members, iterate_lem}
use min_corehdr.Closure.{
  State, Options, loop, worklist_init, worklist_push, push_all, start_state, compute,
}
use min_corehdr.Closure.Failures.{Fits, worklist_init-total, worklist_push-total}
use min_corehdr.Closure.Reach.{Reach, root, step, Inconsistent, IsConsistent, not-Inconsistent}
use min_corehdr.Closure.Correct.{Inv, loop-Inv, loop-failed, work}

module _ (alloc : ℕ → Bool) (b : Btf) where
  -- Filling the worklist appends the ids, and touches nothing else.
  record Pushed (ids : List ℕ) (st st' : State) : Type 0 where
    required : st'.required ≡ st.required
    added : st'.added_types ≡ st.added_types
    pending : st'.pending ≡ st.pending ++ ids
    len : st'.len ≡ st.len + length ids

  worklist_push-Pushed :
      (id : ℕ) (st st' : State) → worklist_push alloc id st ≡ ok st' → Pushed (id ∷ []) st st'
  unfolding worklist_push
  worklist_push-Pushed id st st' h = ground arith

  push_all-Pushed :
      (ids : List ℕ) (st st' : State)
      → ((v : ℕ) → Memᴰ v ids → v < 2 ^ 32)
      → push_all alloc b ids st ≡ ok st'
      → Pushed ids st st'
  unfolding push_all
  push_all-Pushed [] st st' small h =
      let same : st ≡ st' = cc in
      rw (← same) (record {
        required = refl;
        added = refl;
        pending = sym (append-nil st.pending);
        len = omega arith;
      })
  push_all-Pushed (id ∷ ids) st st' small h =
      let (mid, first, rest) = >>=-eq-ok (worklist_push alloc (id % 2 ^ 32) st) _ h in
      let p = worklist_push-Pushed (id % 2 ^ 32) st mid first in
      let q = push_all-Pushed ids mid st' (λ v m. small v ((Memᴰ-cons v id ids).1 (inr m))) rest in
      let cast : id % 2 ^ 32 ≡ id = ground (arith, small id ((Memᴰ-cons id id ids).1 (inl refl))) in
      record {
        required = q.required ∙ p.required;
        added = q.added ∙ p.added;
        pending =
            q.pending
            ∙ (ap (λ (l : List ℕ). l ++ ids) (p.pending ∙ ap (λ (w : ℕ). st.pending ++ w ∷ []) cast)
                ∙ append_assoc st.pending (id ∷ []) ids);
        len = omega (arith, p.len, q.len);
      }

  push_all-total :
      ((n : ℕ) → alloc n ≡ true)
      → (ids : List ℕ) (st : State) (f : Failure) → st.len + length ids ≤ 2 ^ 32
      → push_all alloc b ids st ≢ failed f
  unfolding push_all
  push_all-total enough [] st f small h = cc
  push_all-total enough (id ∷ ids) st f small h =
      elim (Result-cases (worklist_push alloc (id % 2 ^ 32) st)) [
        | inr (e, bad) ↦ worklist_push-total alloc enough (id % 2 ^ 32) st (omega arith) e bad
        | inl (mid, good) ↦
            push_all-total enough ids mid f
              (omega (arith, (worklist_push-Pushed (id % 2 ^ 32) st mid good).len)) (rw good at h)
      ]

module _ (s : TypeSet) (v : IsValid s) (narrow : s.count ≤ 2 ^ 32) where
  initial : List ℕ
  initial = members s 1 (s.count - 1)

  initial-mem : (u : ℕ) → Memᴰ u initial ↔ ((contains s u ≡ true) × (u ≢ 0))
  unfolding initial
  initial-mem u = ground (arith, members-mem s 1 (s.count - 1) u, contains-lt s u)

  initial-length : length initial ≤ s.selected
  unfolding initial
  initial-length =
      let same : card (contains s) s.count ≡ card (has_bit s.words) s.count =
        card_congr (contains s) (has_bit s.words) s.count (λ j h. contains-eq-has_bit s j h) in
      ground (arith, length-members s 1 (s.count - 1), same, v.counted)

-- What the closure of `s` leaves when it returns 0.
pub record IsClosure (b : Btf) (o : Option Options) (s : TypeSet) (added : ℕ) (s' : TypeSet)
    (added' : ℕ) : Type 0 where
  pub valid : IsValid s'
  pub exact : (u : ℕ) → (contains s' u ≡ true) ↔ Reach b o (contains s) u
  pub counted : u64 (added' + s.selected) ≡ u64 (added + s'.selected)

module _ (alloc : ℕ → Bool) (b : Btf) (s : TypeSet) (added : ℕ) (o : Option Options) (v : IsValid s)
    (narrow : s.count ≤ 2 ^ 32) (wide : b.type_cnt ≤ s.count) where
  -- The worklist has been filled from the set.
  record Filled (st : State) : Type 0 where
    required : st.required ≡ s
    counter : st.added_types ≡ added
    pending : st.pending ≡ initial s v narrow
    len : st.len ≡ length (initial s v narrow)

  fill-Filled :
      (cap : ℕ) (st : State)
      → push_all alloc b (TypeSet.iterate s.count s 1) (start_state alloc b s added cap) ≡ ok st
      → Filled st
  unfolding initial
  fill-Filled cap st h =
      let ids : TypeSet.iterate s.count s 1 ≡ members s 1 (s.count - 1) = iterate_lem s v 1 in
      let p =
        push_all-Pushed alloc b (members s 1 (s.count - 1)) (start_state alloc b s added cap) st
          (λ u m. omega (arith, contains-lt s u ((members-mem s 1 (s.count - 1) u).0 m).0))
          (rw ids at h) in
      record {
        required = p.required;
        counter = p.added;
        pending = p.pending;
        len = omega (arith, p.len);
      }

  Filled-Inv : (st : State) → Filled st → Inv alloc b o (contains s) s.selected added st
  Filled-Inv st f = record {
    valid = rw f.required v;
    wide = rw f.required wide;
    seeds = λ u h. rw f.required h;
    queued = λ u m. rw f.required ((initial-mem s v narrow u).0 (rw f.pending at m));
    sound = λ u h. root (rw f.required at h);
    closed =
        λ x u h nz d. inl (rw f.pending ((initial-mem s v narrow x).1 (rw f.required at h, nz)));
    counted = rw (f.required, f.counter) refl;
  }

  Filled-Fits : (st : State) → Filled st → Fits st
  Filled-Fits st f = record {
    valid = rw f.required v;
    narrow = rw f.required narrow;
    slots = rw f.required (omega (arith, f.len, initial-length s v narrow));
  }

  complete :
      (end : State)
      → Inv alloc b o (contains s) s.selected added end
      → end.pending ≡ []
      → {u : ℕ} → Reach b o (contains s) u
      → contains end.required u ≡ true
  complete end inv empty (root {v} h) = inv.seeds v h
  complete end inv empty (step {u} {v} r nz d) =
      elim (inv.closed u v (complete end inv empty r) nz d) [
        | inl waits ↦ absurd (not-Memᴰ-nil u (rw empty at waits))
        | inr done ↦ done
      ]

  -- Whenever the closure of a valid set of at most 2 ^ 32 ids, no fewer than the BTF has types,
  -- returns 0, the set it leaves is valid and holds exactly the ids that can be reached.
  pub compute-IsClosure :
      (s' : TypeSet) (added' : ℕ)
      → compute alloc b s added o ≡ ok (s', added')
      → IsClosure b o s added s' added'
  unfolding compute
  compute-IsClosure s' added' h =
      let (cap, _, h₁) = >>=-eq-ok (worklist_init alloc s.selected) _ h in
      let (st, filled, h₂) =
        >>=-eq-ok (push_all alloc b (TypeSet.iterate s.count s 1) (start_state alloc b s added cap))
          _ h₁ in
      let (end, ran, h₃) = >>=-eq-ok (loop alloc b o s.count st) _ h₂ in
      let (inv, empty) =
        loop-Inv alloc b o (contains s) s.selected added s.count st end
          (Filled-Inv st (fill-Filled cap st filled)) ran in
      let same : end.required ≡ s' = ground arith in
      let counter : end.added_types ≡ added' = ground arith in
      rw (← same, ← counter)
        (record {
          valid = inv.valid;
          exact = λ u. (inv.sound u, complete end inv empty);
          counted = inv.counted;
        })

  selected_small : s.selected ≤ 2 ^ 32
  selected_small = omega (arith, v.counted, card-le (has_bit s.words) s.count, narrow)

  initial_small : 0 + length (initial s v narrow) ≤ 2 ^ 32
  initial_small = omega (arith, initial-length s v narrow, selected_small)

  iterate-initial : TypeSet.iterate s.count s 1 ≡ initial s v narrow
  unfolding initial
  iterate-initial = iterate_lem s v 1

  -- The ids not selected and those on the worklist are no more than the bits of the set.
  start_work : (st : State) → Filled st → work alloc b o (contains s) s.selected added st ≤ s.count
  start_work st f =
      rw (f.required, f.pending)
        (omega (arith, initial-length s v narrow, v.counted, card-le (has_bit s.words) s.count))

  loop_of_compute :
      (f : Failure)
      → compute alloc b s added o ≡ failed f
      → (cap : ℕ) → worklist_init alloc s.selected ≡ ok cap
      → (st : State)
      → push_all alloc b (TypeSet.iterate s.count s 1) (start_state alloc b s added cap) ≡ ok st
      → loop alloc b o s.count st ≡ failed f
  unfolding compute
  loop_of_compute f h cap good st filled = ground arith

  -- When every allocation succeeds, the closure of a valid set of at most 2 ^ 32 ids, no fewer than
  -- the BTF has types, fails only on an inconsistent BTF: a type that can be reached has no
  -- definition or refers to an id that is out of range, and the failure names that id. So it ends.
  pub compute-failed :
      ((n : ℕ) → alloc n ≡ true)
      → (f : Failure) → compute alloc b s added o ≡ failed f
      → Inconsistent b o (contains s) f
  compute-failed enough f h = elim (Result-cases (worklist_init alloc s.selected)) [
    | inr (e, bad) ↦ absurd (worklist_init-total alloc enough s.selected selected_small e bad)
    | inl (cap, good) ↦
        let start = start_state alloc b s added cap in
        let ids = TypeSet.iterate s.count s 1 in
        elim (Result-cases (push_all alloc b ids start)) [
          | inr (e, bad) ↦ absurd (
              push_all-total alloc b enough (initial s v narrow) start e initial_small
                (rw iterate-initial at bad))
          | inl (st, filled) ↦
              let full = fill-Filled cap st filled in
              let inv = Filled-Inv st full in
              loop-failed alloc b o (contains s) s.selected added enough s.count st f inv
                (Filled-Fits st full) (start_work st full) (loop_of_compute f h cap good st filled)
        ]
  ]

  -- On a consistent BTF whose type count is the set's count, at most 2 ^ 32, when every allocation
  -- succeeds, the closure of a valid set returns 0; then an id is in the set exactly if it can be
  -- reached from the required ones along the references that the options keep, and the statistics
  -- have grown by the number of ids added.
  pub compute_exact :
      ((n : ℕ) → alloc n ≡ true)
      → s.count ≡ b.type_cnt
      → IsConsistent b o
      → (s' : TypeSet) × (added' : ℕ) × (compute alloc b s added o ≡ ok (s', added'))
        × IsClosure b o s added s' added'
  compute_exact enough same sane = elim (Result-cases (compute alloc b s added o)) [
    | inr (f, bad) ↦ absurd (
        not-Inconsistent b o (contains s) sane (λ u h. rw same at (contains-lt s u h))
          (compute-failed enough f bad))
    | inl ((s', added'), good) ↦ (s', added', good, compute-IsClosure s' added' good)
  ]
