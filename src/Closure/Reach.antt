-- ===== src/Closure/Reach.antt =====
-- What the closure promises: the types that can be reached from the required ones.
use min_corehdr.Prelude.{
  ℕ, ◌≤◌, ◌<◌, ◌≡◌, ap, ◌≢◌, inl, inr, Bool, true, Option, none, some, List, [], ◌∷◌, Memᴰ, arith,
  Memᴰ-cons, not-Memᴰ-nil,
}
use mathlib.Core.Path.{subst}
use min_corehdr.Errors.{Failure}
use min_corehdr.Btf.{Btf, BtfType}
use min_corehdr.Closure.{Options}
use min_corehdr.Closure.Deps.{dep_ids}

-- The type `u` refers to the type `v`; id 0 is `void`, which has no definition.
pub record Dep (b : Btf) (o : Option Options) (u v : ℕ) : Type 0 where
  pub type : BtfType
  pub found : b.type_by_id u ≡ some type
  pub refers : Memᴰ v (dep_ids o u type)
  pub not_void : v ≢ 0

pub data Reach (b : Btf) (o : Option Options) (roots : ℕ → Bool) : ℕ → Type 0 where
  root : {v : ℕ} → roots v ≡ true → Reach b o roots v
  step : {u v : ℕ} → Reach b o roots u → u ≢ 0 → Dep b o u v → Reach b o roots v

-- A type has one definition, so its references are those of that definition.
pub Dep-refers :
    {b : Btf} {o : Option Options} {x u v : ℕ} {t : BtfType}
    → x ≡ u
    → b.type_by_id u ≡ some t
    → Dep b o x v
    → Memᴰ v (dep_ids o u t)
Dep-refers {b} {o} {x} {u} {v} {t} e found d =
    let same : d.type ≡ t = cc (d.found, found, ap b.type_by_id e) in
    subst (λ s. Memᴰ v (dep_ids o u s)) same (subst (λ y. Memᴰ v (dep_ids o y d.type)) e d.refers)

-- Why the closure may fail: a type that it reaches has no definition, or refers to an id that is
-- out of range. The failure names that id.
pub data Inconsistent (b : Btf) (o : Option Options) (roots : ℕ → Bool) : Failure → Type 0 where
  missing :
      {u : ℕ}
      → Reach b o roots u
      → b.type_by_id u ≡ none
      → Inconsistent b o roots (Failure.missing_required_type u)
  invalid :
      {u v : ℕ}
      → Reach b o roots u
      → Dep b o u v
      → b.type_cnt ≤ v
      → Inconsistent b o roots (Failure.invalid_dependency v)

abbrev pub Below : ℕ → List ℕ → Type 0
Below n [] = Unit
Below n (x ∷ xs) = (x < n) × Below n xs

-- A BTF in which every id below the count has a type, and refers to such ids alone.
pub record IsConsistent (b : Btf) (o : Option Options) : Type 0 where
  pub has_type : (u : ℕ) → u < b.type_cnt → (t : BtfType) × (b.type_by_id u ≡ some t)
  pub refers_below :
      (u : ℕ) (t : BtfType) → b.type_by_id u ≡ some t → Below b.type_cnt (dep_ids o u t)

Below-mem : (n v : ℕ) (xs : List ℕ) → Below n xs → Memᴰ v xs → v < n
Below-mem n v [] h m = absurd (not-Memᴰ-nil v m)
Below-mem n v (x ∷ xs) h m = elim ((Memᴰ-cons v x xs).0 m) [
  | inl e ↦ omega arith
  | inr later ↦ Below-mem n v xs h.1 later
]

module _ (b : Btf) (o : Option Options) (roots : ℕ → Bool) (c : IsConsistent b o) where
  Dep-lt : {u v : ℕ} → Dep b o u v → v < b.type_cnt
  Dep-lt {u} {v} d = Below-mem b.type_cnt v _ (c.refers_below u d.type d.found) d.refers

  Reach-lt :
      ((v : ℕ) → roots v ≡ true → v < b.type_cnt) → {u : ℕ} → Reach b o roots u → u < b.type_cnt
  Reach-lt h (root {v} r) = h v r
  Reach-lt h (step r nz d) = Dep-lt d

  pub not-Inconsistent :
      ((v : ℕ) → roots v ≡ true → v < b.type_cnt) → {f : Failure} → ¬ Inconsistent b o roots f
  not-Inconsistent h (missing {u} r absent) =
      let (t, e) = c.has_type u (Reach-lt h r) in cc (e, absent)
  not-Inconsistent h (invalid r d out) = omega (arith, Dep-lt d)
