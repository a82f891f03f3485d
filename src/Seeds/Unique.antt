-- ===== src/Seeds/Unique.antt =====
-- The one id with a property, and what an answer of the index says of it.
use min_corehdr.Prelude.{ℕ, ◌<◌, ◌≡◌, refl, sym, ap, ◌↔◌, Bool, true, none, some, arith}
use mathlib.Core.Path.{subst}
use min_corehdr.Errors.{Failure, ok}
use min_corehdr.Index.{Answer, absent, found, ambiguous}
use min_corehdr.Index.Build.{Verdict, nowhere, once, twice}
use min_corehdr.Seeds.{match_of}

-- Exactly one id in the BTF has the property, or none has.
pub record OnlyOne (P : ℕ → Type 0) (cnt id : ℕ) : Type 0 where
  pub above : 0 < id
  pub below : id < cnt
  pub has : P id
  pub only : (j : ℕ) → 0 < j → j < cnt → P j → j ≡ id

abbrev pub NoneHas : (ℕ → Type 0) → ℕ → Type 0
NoneHas P cnt = (j : ℕ) → 0 < j → j < cnt → ¬ P j

module _ (P : ℕ → Type 0) (has : ℕ → Bool) (cnt : ℕ) (means : (j : ℕ) → (has j ≡ true) ↔ P j)
    (e : Failure) where
  pub found-OnlyOne :
      (a : Answer) (id : ℕ) → Verdict has cnt a → match_of a e ≡ ok (some id) → OnlyOne P cnt id
  unfolding match_of
  found-OnlyOne absent id v run = absurd (cc run)
  found-OnlyOne (found _) id (once i p q at only) run =
      let same : i ≡ id = cc run in
      subst (OnlyOne P cnt) same (record {
        above = p;
        below = q;
        has = (means i).0 at;
        only = λ j r s h. only j r s ((means j).1 h);
      })
  found-OnlyOne ambiguous id v run = absurd (cc run)

  pub OnlyOne-found :
      (a : Answer) (id : ℕ) → Verdict has cnt a → OnlyOne P cnt id → match_of a e ≡ ok (some id)
  unfolding match_of
  OnlyOne-found _ id (nowhere none_there) o =
      absurd (cc (none_there id o.above o.below, (means id).1 o.has))
  OnlyOne-found _ id (once i p q at only) o =
      let same : id ≡ i = only id o.above o.below ((means id).1 o.has) in
      ap (λ x. ok (some x)) (sym same)
  OnlyOne-found _ id (twice i j p q r at too) o =
      let first : i ≡ id = o.only i p (omega (arith, q, r)) ((means i).0 at) in
      let second : j ≡ id = o.only j (omega (arith, p, q)) r ((means j).0 too) in
      absurd (omega (arith, first, second, q))

  pub absent-NoneHas : (a : Answer) → Verdict has cnt a → match_of a e ≡ ok none → NoneHas P cnt
  unfolding match_of
  absent-NoneHas absent (nowhere none_there) run =
      λ j p q h. absurd (cc (none_there j p q, (means j).1 h))
  absent-NoneHas (found i) v run = absurd (cc run)
  absent-NoneHas ambiguous v run = absurd (cc run)

  pub NoneHas-absent : (a : Answer) → Verdict has cnt a → NoneHas P cnt → match_of a e ≡ ok none
  unfolding match_of
  NoneHas-absent _ (nowhere none_there) o = refl
  NoneHas-absent _ (once i p q at only) o = absurd (o i p q ((means i).0 at))
  NoneHas-absent _ (twice i j p q r at too) o =
      absurd (o i p (omega (arith, q, r)) ((means i).0 at))
