-- ===== src/TypeSet/Extends.antt =====
-- A valid set that has every member of another one.
use min_corehdr.Prelude.{ℕ, ◌≡◌, refl, ◌∙◌, true, arith}
use min_corehdr.TypeSet.{TypeSet, contains, add}
use min_corehdr.TypeSet.Laws.{IsValid, add-Adds}

pub record Extends (s t : TypeSet) : Type 0 where
  pub valid : IsValid t
  pub count : t.count ≡ s.count
  pub kept : (id : ℕ) → contains s id ≡ true → contains t id ≡ true

pub Extends-refl : (s : TypeSet) → IsValid s → Extends s s
Extends-refl s v = record { valid = v; count = refl; kept = λ id h. h }

pub Extends-trans : (s t u : TypeSet) → Extends s t → Extends t u → Extends s u
Extends-trans s t u a b = record {
  valid = b.valid;
  count = b.count ∙ a.count;
  kept = λ id h. b.kept id (a.kept id h);
}

pub add-Extends : (s : TypeSet) (id : ℕ) → IsValid s → Extends s (add s id).1
add-Extends s id v =
    let added = add-Adds s id v in
    record {
      valid = added.valid;
      count = added.count;
      kept = λ j h. ground (arith, added.member j, h);
    }
