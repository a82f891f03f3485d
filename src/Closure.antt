-- ===== src/Closure.antt =====
-- The dependency closure (src/closure.c, include/min_corehdr/closure.h): a worklist that adds to the
-- required types all that they depend on. `alloc n` says whether an allocation of `n` bytes
-- succeeds.
pub mod Deps
pub mod Kept
pub mod Refers
pub mod Grows
pub mod Failures
pub mod Reach
pub mod Correct
pub mod Total
use min_corehdr.Prelude.{
  ℕ, zero, suc, ◌+◌, ◌-◌, ◌*◌, ◌/◌, ◌%◌, ◌^◌, ◌≤◌, ◌<◌, ◌≡◌, refl, sym, ap, ◌∙◌, ◌≢◌, ◌↔◌, ◌⊎◌, inl,
  inr, ⊎_elim, Bool, true, false, not, ◌&&◌, ◌||◌, Option, none, some, List, [], ◌∷◌, ◌++◌, Memᴰ,
  arith, ltb, leb, ◌==◌, if◌then◌else◌, ltb→lt, lt→ltb, leb→le, ==_iff, Bool-cases, Option-cases,
  List-cases, get_elem?, get_or, set, replicate, is_null, length, length-append, length-set,
  length-replicate, get_or-set, get_or-replicate, get_elem?-get_or, get_elem?-append_left,
  get_elem?-append_last, Memᴰ-cons, Memᴰ-concat, Text, codes, is_empty, text_eq, text_eq_iff,
}
use min_corehdr.Errors.{Failure, Result, ok, failed, ◌>>=◌, ◌>>◌, guard}
use min_corehdr.Btf.{Kind, Btf, BtfType, Member, Param, VarSecinfo}
use min_corehdr.TypeSet
use min_corehdr.TypeSet.{TypeSet, u64}
use min_corehdr.Requirements.{Requirements, has_record_members, contains_record_member}

-- The required types, the worklist and the statistics. `pending` is ids[next .. len), and `len`
-- counts the slots of the array that are written, out of `cap`.
pub record State : Type 0 where
  pub required : TypeSet
  pub pending : List ℕ
  pub len : ℕ
  pub cap : ℕ
  pub added_types : ℕ

-- `struct mch_closure_options`; a null pointer is `none`.
pub record Options : Type 0 where
  pub expand_pointers : Bool
  pub requirements : Option Requirements

-- SIZE_MAX / sizeof(__u32)
abbrev pub max_slots : ℕ
max_slots = (2 ^ 64 - 1) / 4

-- The capacity of a new worklist.
unfoldable pub worklist_init : (ℕ → Bool) → ℕ → Result ℕ
worklist_init alloc initial_cap =
    let cap = if ltb initial_cap 16 then 16 else initial_cap in
    if ltb max_slots cap
    then failed Failure.worklist_too_large
    else if alloc (cap * 4)
    then ok cap
    else failed Failure.worklist_no_memory

-- The capacity that a push needs.
unfoldable pub worklist_grow : (ℕ → Bool) → ℕ → ℕ → Result ℕ
worklist_grow alloc len cap =
    let next_cap = u64 (cap * 2) in
    if not (len == cap)
    then ok cap
    else if ltb ((2 ^ 64 - 1) / 2) cap || ltb max_slots next_cap
    then failed Failure.worklist_too_large
    else if alloc (next_cap * 4)
    then ok next_cap
    else failed Failure.worklist_no_memory_to_grow

unfoldable pub worklist_push : (ℕ → Bool) → ℕ → State → Result State
worklist_push alloc id st = do
  cap ← worklist_grow alloc st.len st.cap
  ok (record st { pending = st.pending ++ id ∷ []; len = st.len + 1; cap = cap })

-- Options that leave a member out.
unfoldable pub prunes : Option Options → ℕ → ℕ → Bool
prunes none id i = false
prunes (some o) id i =
    has_record_members o.requirements id && not (contains_record_member o.requirements id i)

unfoldable pub expands : Option Options → Bool
expands none = false
expands (some o) = o.expand_pointers

module _ (alloc : ℕ → Bool) (b : Btf) where
  unfoldable pub add_dep : ℕ → State → Result State
  add_dep id st =
      let (fresh, required) = TypeSet.add st.required id in
      if id == 0
      then ok st
      else if leb b.type_cnt id
      then failed (Failure.invalid_dependency id)
      else if fresh
      then worklist_push alloc id (record st { required = required })
        >>= (λ st'. ok (record st' { added_types = u64 (st'.added_types + 1) }))
      else ok (record st { required = required })

  unfoldable pub add_params : List Param → State → Result State
  add_params [] st = ok st
  add_params (p ∷ ps) st = add_dep p.type st >>= add_params ps

  unfoldable pub add_vars : List VarSecinfo → State → Result State
  add_vars [] st = ok st
  add_vars (v ∷ vs) st = add_dep v.type st >>= add_vars vs

  module _ (options : Option Options) where
    -- The loop over the members of the record `type_id`, from member `i` on.
    unfoldable pub add_members : ℕ → ℕ → List Member → State → Result State
    add_members type_id i [] st = ok st
    add_members type_id i (m ∷ ms) st =
        (if prunes options type_id i then ok st else add_dep m.type st)
        >>= add_members type_id (i + 1) ms

    -- `switch (kind)`
    unfoldable pub add_deps_of : Kind → ℕ → BtfType → State → Result State
    add_deps_of Kind.ptr type_id t st = if expands options then add_dep t.ref st else ok st
    add_deps_of Kind.typedef type_id t st = add_dep t.ref st
    add_deps_of Kind.volatile_k type_id t st = add_dep t.ref st
    add_deps_of Kind.const_k type_id t st = add_dep t.ref st
    add_deps_of Kind.restrict_k type_id t st = add_dep t.ref st
    add_deps_of Kind.func type_id t st = add_dep t.ref st
    add_deps_of Kind.var type_id t st = add_dep t.ref st
    add_deps_of Kind.decl_tag type_id t st = add_dep t.ref st
    add_deps_of Kind.type_tag type_id t st = add_dep t.ref st
    add_deps_of Kind.array type_id t st =
        add_dep t.array_info.type st >>= add_dep t.array_info.index_type
    add_deps_of Kind.struct_k type_id t st = add_members type_id 0 t.members st
    add_deps_of Kind.union_k type_id t st = add_members type_id 0 t.members st
    add_deps_of Kind.func_proto type_id t st = add_dep t.ref st >>= add_params t.params
    add_deps_of Kind.datasec type_id t st = add_vars t.vars st
    add_deps_of _ type_id t st = ok st

    unfoldable pub add_type_deps : ℕ → BtfType → State → Result State
    unfolding add_deps_of
    add_type_deps type_id t st = add_deps_of t.kind type_id t st

    -- One round of the main loop, on the id that leaves the head of the worklist.
    unfoldable pub expand : ℕ → State → Result State
    expand current st = elim (b.type_by_id current) [
      | none ↦ failed (Failure.missing_required_type current)
      | some t ↦ add_type_deps current t st
    ]

    unfoldable pub loop : ℕ → State → Result State
    loop zero st = elim st.pending [ [] ↦ ok st | _ ∷ _ ↦ failed Failure.out_of_fuel ]
    loop (suc fuel) st = elim st.pending [
      | [] ↦ ok st
      | id ∷ rest ↦ expand id (record st { pending = rest }) >>= loop fuel
    ]

  -- The loop that fills the worklist, with the cast of each id to 32 bits.
  unfoldable pub push_all : List ℕ → State → Result State
  push_all [] st = ok st
  push_all (id ∷ ids) st = worklist_push alloc (id % 2 ^ 32) st >>= push_all ids

  abbrev pub start_state : TypeSet → ℕ → ℕ → State
  start_state required added cap = record {
    required = required;
    pending = [];
    len = 0;
    cap = cap;
    added_types = added;
  }

  -- `mch_compute_dependency_closure_with_options`, from the required types and the statistics to the
  -- new ones. The set has `count` bits, so the loop takes `count` rounds at most.
  unfoldable pub compute : TypeSet → ℕ → Option Options → Result (TypeSet × ℕ)
  compute required added options = do
    cap ← worklist_init alloc required.selected
    st ← push_all (TypeSet.iterate required.count required 1) (start_state required added cap)
    end ← loop options required.count st
    ok (end.required, end.added_types)

  unfoldable pub compute_plain : TypeSet → ℕ → Result (TypeSet × ℕ)
  compute_plain required added = compute required added none
