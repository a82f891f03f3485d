-- ===== src/Closure/Refers.antt =====
-- Which ids a type refers to, as a relation on its kind, and that the closure offers those.
use min_corehdr.Prelude.{
  ℕ, ◌+◌, ◌≡◌, refl, sym, ◌↔◌, inl, inr, Bool, Option, some, [], ◌∷◌, Memᴰ, arith, Bool-cases,
  get_elem?, Memᴰ-cons, Memᴰ-one, not-Memᴰ-nil,
}
use mathlib.Core.Path.{subst}
use min_corehdr.Btf.{Kind, Btf, BtfType, Member, Param, VarSecinfo}
use min_corehdr.Closure.{State, Options, expands, add_type_deps}
use min_corehdr.Closure.Deps.{
  kept_ids, param_ids, var_ids, ids_of, dep_ids, add_all, add_type_deps-eq,
}
use min_corehdr.Closure.Kept.{
  Expands, IsKept, kept_ids-member, member-kept_ids, param_ids-mem, mem-param_ids, var_ids-mem,
  mem-var_ids, expanded, Expands-expands,
}

-- The kinds whose one reference is `type->type`, and the function type, which has it as its result.
pub data IsReference : Kind → Type 0 where
  of_typedef : IsReference Kind.typedef
  of_volatile : IsReference Kind.volatile_k
  of_const : IsReference Kind.const_k
  of_restrict : IsReference Kind.restrict_k
  of_func : IsReference Kind.func
  of_func_proto : IsReference Kind.func_proto
  of_var : IsReference Kind.var
  of_decl_tag : IsReference Kind.decl_tag
  of_type_tag : IsReference Kind.type_tag

pub data IsRecord : Kind → Type 0 where
  of_struct : IsRecord Kind.struct_k
  of_union : IsRecord Kind.union_k

module _ (o : Option Options) (id : ℕ) where
  -- The type `t` under the id `id` refers to `d`, by what its kind says.
  pub data RefersAs (t : BtfType) (d : ℕ) : Kind → Type 0 where
    target : Expands o → d ≡ t.ref → RefersAs t d Kind.ptr
    reference : (k : Kind) → IsReference k → d ≡ t.ref → RefersAs t d k
    element : d ≡ t.array_info.type → RefersAs t d Kind.array
    index : d ≡ t.array_info.index_type → RefersAs t d Kind.array
    member :
        (k : Kind) (i : ℕ) (m : Member)
        → IsRecord k
        → get_elem? t.members i ≡ some m
        → IsKept o id i
        → d ≡ m.type
        → RefersAs t d k
    param : (p : Param) → Memᴰ p t.params → d ≡ p.type → RefersAs t d Kind.func_proto
    variable : (v : VarSecinfo) → Memᴰ v t.vars → d ≡ v.type → RefersAs t d Kind.datasec

  single : (k : Kind) (t : BtfType) (d : ℕ) → IsReference k → Memᴰ d (t.ref ∷ []) → RefersAs t d k
  single k t d r h = reference k r ((Memᴰ-one d t.ref).0 h)

  record_member :
      (k : Kind) (t : BtfType) (d : ℕ)
      → IsRecord k
      → Memᴰ d (kept_ids o id 0 t.members)
      → RefersAs t d k
  record_member k t d r h =
      let (j, m, at, kept, same) = kept_ids-member o id t.members 0 d h in
      member k j m r at (subst (IsKept o id) (omega arith) kept) same

  ids_of-RefersAs : (k : Kind) (t : BtfType) (d : ℕ) → Memᴰ d (ids_of k o id t) → RefersAs t d k
  unfolding ids_of
  ids_of-RefersAs Kind.unkn t d h = absurd (not-Memᴰ-nil d h)
  ids_of-RefersAs Kind.int t d h = absurd (not-Memᴰ-nil d h)
  ids_of-RefersAs Kind.ptr t d h = elim (Bool-cases (expands o)) [
    | inl e ↦ target (expanded o id e) ((Memᴰ-one d t.ref).0 (rw e at h))
    | inr e ↦ absurd (not-Memᴰ-nil d (rw e at h))
  ]
  ids_of-RefersAs Kind.array t d h =
      elim ((Memᴰ-cons d t.array_info.type (t.array_info.index_type ∷ [])).0 h) [
        | inl first ↦ element first
        | inr second ↦ index ((Memᴰ-one d t.array_info.index_type).0 second)
      ]
  ids_of-RefersAs Kind.struct_k t d h = record_member Kind.struct_k t d of_struct h
  ids_of-RefersAs Kind.union_k t d h = record_member Kind.union_k t d of_union h
  ids_of-RefersAs Kind.enum t d h = absurd (not-Memᴰ-nil d h)
  ids_of-RefersAs Kind.fwd t d h = absurd (not-Memᴰ-nil d h)
  ids_of-RefersAs Kind.typedef t d h = single Kind.typedef t d of_typedef h
  ids_of-RefersAs Kind.volatile_k t d h = single Kind.volatile_k t d of_volatile h
  ids_of-RefersAs Kind.const_k t d h = single Kind.const_k t d of_const h
  ids_of-RefersAs Kind.restrict_k t d h = single Kind.restrict_k t d of_restrict h
  ids_of-RefersAs Kind.func t d h = single Kind.func t d of_func h
  ids_of-RefersAs Kind.func_proto t d h = elim ((Memᴰ-cons d t.ref (param_ids t.params)).0 h) [
    | inl result ↦ reference Kind.func_proto of_func_proto result
    | inr rest ↦ let (p, m, same) = param_ids-mem t.params d rest in param p m same
  ]
  ids_of-RefersAs Kind.var t d h = single Kind.var t d of_var h
  ids_of-RefersAs Kind.datasec t d h =
      let (v, m, same) = var_ids-mem t.vars d h in variable v m same
  ids_of-RefersAs Kind.float t d h = absurd (not-Memᴰ-nil d h)
  ids_of-RefersAs Kind.decl_tag t d h = single Kind.decl_tag t d of_decl_tag h
  ids_of-RefersAs Kind.type_tag t d h = single Kind.type_tag t d of_type_tag h
  ids_of-RefersAs Kind.enum64 t d h = absurd (not-Memᴰ-nil d h)
  ids_of-RefersAs (Kind.other n) t d h = absurd (not-Memᴰ-nil d h)

  reference-ids_of : (k : Kind) (t : BtfType) → IsReference k → Memᴰ t.ref (ids_of k o id t)
  unfolding ids_of
  reference-ids_of _ t of_typedef = (Memᴰ-one t.ref t.ref).1 refl
  reference-ids_of _ t of_volatile = (Memᴰ-one t.ref t.ref).1 refl
  reference-ids_of _ t of_const = (Memᴰ-one t.ref t.ref).1 refl
  reference-ids_of _ t of_restrict = (Memᴰ-one t.ref t.ref).1 refl
  reference-ids_of _ t of_func = (Memᴰ-one t.ref t.ref).1 refl
  reference-ids_of _ t of_func_proto = (Memᴰ-cons t.ref t.ref (param_ids t.params)).1 (inl refl)
  reference-ids_of _ t of_var = (Memᴰ-one t.ref t.ref).1 refl
  reference-ids_of _ t of_decl_tag = (Memᴰ-one t.ref t.ref).1 refl
  reference-ids_of _ t of_type_tag = (Memᴰ-one t.ref t.ref).1 refl

  member-ids_of :
      (k : Kind) (t : BtfType) (d : ℕ)
      → IsRecord k
      → Memᴰ d (kept_ids o id 0 t.members)
      → Memᴰ d (ids_of k o id t)
  unfolding ids_of
  member-ids_of _ t d of_struct h = h
  member-ids_of _ t d of_union h = h

  RefersAs-ids_of : (k : Kind) (t : BtfType) (d : ℕ) → RefersAs t d k → Memᴰ d (ids_of k o id t)
  unfolding ids_of
  RefersAs-ids_of _ t d (target x e) = rw (Expands-expands o id x) ((Memᴰ-one d t.ref).1 e)
  RefersAs-ids_of _ t d (reference k r e) =
      subst (λ x. Memᴰ x (ids_of k o id t)) (sym e) (reference-ids_of k t r)
  RefersAs-ids_of _ t d (element e) =
      (Memᴰ-cons d t.array_info.type (t.array_info.index_type ∷ [])).1 (inl e)
  RefersAs-ids_of _ t d (index e) =
      (Memᴰ-cons d t.array_info.type (t.array_info.index_type ∷ [])).1
        (inr ((Memᴰ-one d t.array_info.index_type).1 e))
  RefersAs-ids_of _ t d (member k i m r at kept e) =
      let moved : i ≡ 0 + i = omega arith in
      let inside = member-kept_ids o id t.members 0 i m at (subst (IsKept o id) moved kept) in
      member-ids_of k t d r (subst (λ x. Memᴰ x (kept_ids o id 0 t.members)) (sym e) inside)
  RefersAs-ids_of _ t d (param p m e) =
      (Memᴰ-cons d t.ref (param_ids t.params)).1
        (inr (subst (λ x. Memᴰ x (param_ids t.params)) (sym e) (mem-param_ids t.params p m)))
  RefersAs-ids_of _ t d (variable v m e) =
      subst (λ x. Memᴰ x (var_ids t.vars)) (sym e) (mem-var_ids t.vars v m)

  -- For every type and all options, `add_type_deps` is `add_dep` on each id of the list
  -- `dep_ids`, in order, until one fails. The list has exactly the ids that the type refers to:
  -- the target of a pointer if the options expand pointers; `type->type` of a reference or a
  -- function type; the element and the index type of an array; the type of each member of a record
  -- that the requirements do not leave out, which they do if they name members of the record, but
  -- not this one; the types of the parameters; the types of the variables of a section.
  pub add_type_deps-Refers :
      (alloc : ℕ → Bool) (b : Btf) (t : BtfType) (st : State)
      → (add_type_deps alloc b o id t st ≡ add_all alloc b (dep_ids o id t) st)
        × ((d : ℕ) → Memᴰ d (dep_ids o id t) ↔ RefersAs t d t.kind)
  unfolding dep_ids
  add_type_deps-Refers alloc b t st = (
    add_type_deps-eq alloc b o id t st,
    λ d. (ids_of-RefersAs t.kind t d, RefersAs-ids_of t.kind t d),
  )
