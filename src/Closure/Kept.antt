-- ===== src/Closure/Kept.antt =====
-- The members, parameters, variables and pointer targets that the options keep.
use min_corehdr.Prelude.{
  ℕ, zero, suc, ◌+◌, ◌≡◌, refl, sym, ap, inl, inr, true, false, Option, some, List, [], ◌∷◌, Memᴰ,
  arith, Bool-cases, Option-cases, get_elem?, Memᴰ-cons, not-Memᴰ-nil,
}
use mathlib.Core.Path.{subst}
use min_corehdr.Btf.{Member, Param, VarSecinfo}
use min_corehdr.Requirements.{has_record_members, contains_record_member}
use min_corehdr.Closure.{Options, prunes, expands}
use min_corehdr.Closure.Deps.{kept_ids, param_ids, var_ids}

-- The options ask for the targets of pointers.
abbrev pub Expands : Option Options → Type 0
Expands o = (opts : Options) × (o ≡ some opts) × (opts.expand_pointers ≡ true)

-- The member `i` of the record `id` is kept: if the requirements name members of the record, it is
-- one of them.
abbrev pub IsKept : Option Options → ℕ → ℕ → Type 0
IsKept o id i =
    (opts : Options)
    → o ≡ some opts
    → has_record_members opts.requirements id ≡ true
    → contains_record_member opts.requirements id i ≡ true

pub param_ids-mem :
    (ps : List Param) (d : ℕ) → Memᴰ d (param_ids ps) → (p : Param) × Memᴰ p ps × (d ≡ p.type)
unfolding param_ids
param_ids-mem [] d h = absurd (not-Memᴰ-nil d h)
param_ids-mem (p ∷ ps) d h = elim ((Memᴰ-cons d p.type (param_ids ps)).0 h) [
  | inl here ↦ (p, (Memᴰ-cons p p ps).1 (inl refl), here)
  | inr there ↦
      let (q, m, same) = param_ids-mem ps d there in (q, (Memᴰ-cons q p ps).1 (inr m), same)
]

pub mem-param_ids : (ps : List Param) (p : Param) → Memᴰ p ps → Memᴰ p.type (param_ids ps)
unfolding param_ids
mem-param_ids [] p h = absurd (not-Memᴰ-nil p h)
mem-param_ids (q ∷ ps) p h = elim ((Memᴰ-cons p q ps).0 h) [
  | inl here ↦ (Memᴰ-cons p.type q.type (param_ids ps)).1 (inl (ap (λ x. x.type) here))
  | inr there ↦ (Memᴰ-cons p.type q.type (param_ids ps)).1 (inr (mem-param_ids ps p there))
]

pub var_ids-mem :
    (vs : List VarSecinfo) (d : ℕ)
    → Memᴰ d (var_ids vs)
    → (v : VarSecinfo) × Memᴰ v vs × (d ≡ v.type)
unfolding var_ids
var_ids-mem [] d h = absurd (not-Memᴰ-nil d h)
var_ids-mem (v ∷ vs) d h = elim ((Memᴰ-cons d v.type (var_ids vs)).0 h) [
  | inl here ↦ (v, (Memᴰ-cons v v vs).1 (inl refl), here)
  | inr there ↦ let (w, m, same) = var_ids-mem vs d there in (w, (Memᴰ-cons w v vs).1 (inr m), same)
]

pub mem-var_ids : (vs : List VarSecinfo) (v : VarSecinfo) → Memᴰ v vs → Memᴰ v.type (var_ids vs)
unfolding var_ids
mem-var_ids [] v h = absurd (not-Memᴰ-nil v h)
mem-var_ids (w ∷ vs) v h = elim ((Memᴰ-cons v w vs).0 h) [
  | inl here ↦ (Memᴰ-cons v.type w.type (var_ids vs)).1 (inl (ap (λ x. x.type) here))
  | inr there ↦ (Memᴰ-cons v.type w.type (var_ids vs)).1 (inr (mem-var_ids vs v there))
]

module _ (o : Option Options) (id : ℕ) where
  prunes-IsKept : (i : ℕ) → prunes o id i ≡ false → IsKept o id i
  unfolding prunes
  prunes-IsKept i e opts same has =
      let now : prunes (some opts) id i ≡ false = subst (λ x. prunes x id i ≡ false) same e in
      ground (arith, now, has)

  IsKept-prunes : (i : ℕ) → IsKept o id i → prunes o id i ≡ false
  unfolding prunes
  IsKept-prunes i h = elim (Option-cases o) [
    | inl none_given ↦ subst (λ x. prunes x id i ≡ false) (sym none_given) refl
    | inr (opts, same) ↦ subst (λ x. prunes x id i ≡ false) (sym same) (ground (arith, h opts same))
  ]

  -- The kept members, from the member `i` on.
  pub kept_ids-member :
      (ms : List Member) (i d : ℕ)
      → Memᴰ d (kept_ids o id i ms)
      → (j : ℕ) × (m : Member) × (get_elem? ms j ≡ some m) × IsKept o id (i + j) × (d ≡ m.type)
  unfolding kept_ids
  kept_ids-member [] i d h = absurd (not-Memᴰ-nil d h)
  kept_ids-member (m ∷ ms) i d h =
      let Found = λ (d : ℕ).
        (j : ℕ) × (n : Member) × (get_elem? (m ∷ ms) j ≡ some n)
        × IsKept o id (i + j)
        × (d ≡ n.type) in
      let later : Memᴰ d (kept_ids o id (i + 1) ms) → Found d = λ rest.
        let (j, n, at, kept, same) = kept_ids-member ms (i + 1) d rest in
        let moved : i + 1 + j ≡ i + suc j = omega arith in
        (suc j, n, at, subst (IsKept o id) moved kept, same) in
      elim (Bool-cases (prunes o id i)) [
        | inl out ↦ later (rw out at h)
        | inr stays ↦ elim ((Memᴰ-cons d m.type (kept_ids o id (i + 1) ms)).0 (rw stays at h)) [
          | inl here ↦
              let moved : i ≡ i + 0 = omega arith in
              (0, m, refl, subst (IsKept o id) moved (prunes-IsKept i stays), here)
          | inr there ↦ later there
        ]
      ]

  pub member-kept_ids :
      (ms : List Member) (i j : ℕ) (m : Member)
      → get_elem? ms j ≡ some m
      → IsKept o id (i + j)
      → Memᴰ m.type (kept_ids o id i ms)
  unfolding kept_ids
  member-kept_ids [] i j m at kept = absurd (cc at)
  member-kept_ids (n ∷ ms) i zero m at kept =
      let same : n ≡ m = cc at in
      let moved : i + 0 ≡ i = omega arith in
      rw (IsKept-prunes i (subst (IsKept o id) moved kept))
        ((Memᴰ-cons m.type n.type (kept_ids o id (i + 1) ms)).1 (inl (ap (λ x. x.type) (sym same))))
  member-kept_ids (n ∷ ms) i (suc j) m at kept =
      let moved : i + suc j ≡ i + 1 + j = omega arith in
      let rest = member-kept_ids ms (i + 1) j m at (subst (IsKept o id) moved kept) in
      elim (Bool-cases (prunes o id i)) [
        | inl out ↦ rw out rest
        | inr stays ↦ rw stays ((Memᴰ-cons m.type n.type (kept_ids o id (i + 1) ms)).1 (inr rest))
      ]

  pub expanded : expands o ≡ true → Expands o
  unfolding expands
  expanded e = elim (Option-cases o) [
    | inl none_given ↦ absurd (cc (subst (λ x. expands x ≡ true) none_given e))
    | inr (opts, same) ↦ (opts, same, subst (λ x. expands x ≡ true) same e)
  ]

  pub Expands-expands : Expands o → expands o ≡ true
  unfolding expands
  Expands-expands (opts, same, e) = subst (λ x. expands x ≡ true) (sym same) e
