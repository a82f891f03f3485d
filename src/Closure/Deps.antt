-- ===== src/Closure/Deps.antt =====
-- What a type depends on, as a list, and that `add_type_deps` offers exactly that list in order.
use min_corehdr.Prelude.{
  ℕ, ◌+◌, ◌≡◌, refl, sym, inl, inr, Bool, Option, List, [], ◌∷◌, if◌then◌else◌, Bool-cases,
}
use min_corehdr.Errors.{Result, ok, failed, ◌>>=◌}
use min_corehdr.Btf.{Kind, Btf, BtfType, Member, Param, VarSecinfo}
use min_corehdr.Closure.{
  State, Options, prunes, expands, add_dep, add_members, add_params, add_vars, add_deps_of,
  add_type_deps,
}

unfoldable pub kept_ids : Option Options → ℕ → ℕ → List Member → List ℕ
kept_ids o id i [] = []
kept_ids o id i (m ∷ ms) =
    let rest = kept_ids o id (i + 1) ms in if prunes o id i then rest else m.type ∷ rest

unfoldable pub param_ids : List Param → List ℕ
param_ids [] = []
param_ids (p ∷ ps) = p.type ∷ param_ids ps

unfoldable pub var_ids : List VarSecinfo → List ℕ
var_ids [] = []
var_ids (v ∷ vs) = v.type ∷ var_ids vs

unfoldable pub ids_of : Kind → Option Options → ℕ → BtfType → List ℕ
ids_of Kind.ptr o id t = if expands o then t.ref ∷ [] else []
ids_of Kind.typedef o id t = t.ref ∷ []
ids_of Kind.volatile_k o id t = t.ref ∷ []
ids_of Kind.const_k o id t = t.ref ∷ []
ids_of Kind.restrict_k o id t = t.ref ∷ []
ids_of Kind.func o id t = t.ref ∷ []
ids_of Kind.var o id t = t.ref ∷ []
ids_of Kind.decl_tag o id t = t.ref ∷ []
ids_of Kind.type_tag o id t = t.ref ∷ []
ids_of Kind.array o id t = t.array_info.type ∷ t.array_info.index_type ∷ []
ids_of Kind.struct_k o id t = kept_ids o id 0 t.members
ids_of Kind.union_k o id t = kept_ids o id 0 t.members
ids_of Kind.func_proto o id t = t.ref ∷ param_ids t.params
ids_of Kind.datasec o id t = var_ids t.vars
ids_of _ o id t = []

-- The ids that a type refers to: the target of a pointer only under `expand_pointers`, the members
-- of a record less those that the requirements prune.
unfoldable pub dep_ids : Option Options → ℕ → BtfType → List ℕ
unfolding kept_ids param_ids var_ids ids_of
dep_ids o id t = ids_of t.kind o id t

module _ (alloc : ℕ → Bool) (b : Btf) where
  unfoldable pub add_all : List ℕ → State → Result State
  add_all [] st = ok st
  add_all (d ∷ ds) st = add_dep alloc b d st >>= add_all ds

  >>=-ok : (r : Result State) → (r >>= ok) ≡ r
  >>=-ok (ok a) = refl
  >>=-ok (failed e) = refl

  >>=_congr :
      (r : Result State) (f g : State → Result State)
      → ((x : State) → f x ≡ g x)
      → (r >>= f) ≡ (r >>= g)
  >>=_congr (ok a) f g h = h a
  >>=_congr (failed e) f g h = refl

  add_params-eq :
      (ps : List Param) (st : State) → add_params alloc b ps st ≡ add_all (param_ids ps) st
  unfolding add_params param_ids add_all
  add_params-eq [] st = refl
  add_params-eq (p ∷ ps) st = >>=_congr (add_dep alloc b p.type st) _ _ (add_params-eq ps)

  add_vars-eq :
      (vs : List VarSecinfo) (st : State) → add_vars alloc b vs st ≡ add_all (var_ids vs) st
  unfolding add_vars var_ids add_all
  add_vars-eq [] st = refl
  add_vars-eq (v ∷ vs) st = >>=_congr (add_dep alloc b v.type st) _ _ (add_vars-eq vs)

  one : (d : ℕ) (st : State) → add_dep alloc b d st ≡ add_all (d ∷ []) st
  unfolding add_all
  one d st = sym (>>=-ok (add_dep alloc b d st))

  module _ (o : Option Options) where
    add_members-eq :
        (id i : ℕ) (ms : List Member) (st : State)
        → add_members alloc b o id i ms st ≡ add_all (kept_ids o id i ms) st
    unfolding add_members kept_ids add_all
    add_members-eq id i [] st = refl
    add_members-eq id i (m ∷ ms) st = elim (Bool-cases (prunes o id i)) [
      | inl e ↦ rw e (add_members-eq id (i + 1) ms st)
      | inr e ↦ rw e (>>=_congr (add_dep alloc b m.type st) _ _ (add_members-eq id (i + 1) ms))
    ]

    add_deps_of-eq :
        (k : Kind) (id : ℕ) (t : BtfType) (st : State)
        → add_deps_of alloc b o k id t st ≡ add_all (ids_of k o id t) st
    unfolding add_deps_of ids_of
    add_deps_of-eq Kind.unkn id t st = unfold add_all in refl
    add_deps_of-eq Kind.int id t st = unfold add_all in refl
    add_deps_of-eq Kind.ptr id t st = elim (Bool-cases (expands o)) [
      | inl e ↦ rw e (one t.ref st)
      | inr e ↦ rw e (unfold add_all in refl)
    ]
    add_deps_of-eq Kind.array id t st =
        unfold add_all in
        >>=_congr (add_dep alloc b t.array_info.type st) _ _ (one t.array_info.index_type)
    add_deps_of-eq Kind.struct_k id t st = add_members-eq id 0 t.members st
    add_deps_of-eq Kind.union_k id t st = add_members-eq id 0 t.members st
    add_deps_of-eq Kind.enum id t st = unfold add_all in refl
    add_deps_of-eq Kind.fwd id t st = unfold add_all in refl
    add_deps_of-eq Kind.typedef id t st = one t.ref st
    add_deps_of-eq Kind.volatile_k id t st = one t.ref st
    add_deps_of-eq Kind.const_k id t st = one t.ref st
    add_deps_of-eq Kind.restrict_k id t st = one t.ref st
    add_deps_of-eq Kind.func id t st = one t.ref st
    add_deps_of-eq Kind.func_proto id t st =
        unfold add_all in >>=_congr (add_dep alloc b t.ref st) _ _ (add_params-eq t.params)
    add_deps_of-eq Kind.var id t st = one t.ref st
    add_deps_of-eq Kind.datasec id t st = add_vars-eq t.vars st
    add_deps_of-eq Kind.float id t st = unfold add_all in refl
    add_deps_of-eq Kind.decl_tag id t st = one t.ref st
    add_deps_of-eq Kind.type_tag id t st = one t.ref st
    add_deps_of-eq Kind.enum64 id t st = unfold add_all in refl
    add_deps_of-eq (Kind.other n) id t st = unfold add_all in refl

    pub add_type_deps-eq :
        (id : ℕ) (t : BtfType) (st : State)
        → add_type_deps alloc b o id t st ≡ add_all (dep_ids o id t) st
    unfolding add_type_deps dep_ids
    add_type_deps-eq id t st = add_deps_of-eq t.kind id t st
