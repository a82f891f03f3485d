-- ===== src/TypeSet/Iterate.antt =====
-- A loop over `next` hands its body the members in ascending order.
use min_corehdr.Prelude.{
  ℕ, zero, suc, ◌+◌, ◌-◌, ◌≤◌, ◌<◌, ◌≡◌, refl, sym, ◌↔◌, inl, inr, true, false, Option, none, some,
  List, [], ◌∷◌, Memᴰ, arith, if◌then◌else◌, Bool-cases, length, Memᴰ-cons,
}
use mathlib.Core.List.Memᴰ
use min_corehdr.Count.{card, card-suc}
use min_corehdr.TypeSet.{TypeSet, contains, next, iterate}
use min_corehdr.TypeSet.Laws.{IsValid, contains-lt}
use min_corehdr.TypeSet.Scan.{IsNext, next-IsNext}

-- The members among `n` ids from `c` on, in ascending order.
unfoldable pub members : TypeSet → ℕ → ℕ → List ℕ
members s c zero = []
members s c (suc n) = let rest = members s (c + 1) n in if contains s c then c ∷ rest else rest

module _ (s : TypeSet) where
  members_none : (c n : ℕ) → ((j : ℕ) → c ≤ j → contains s j ≡ false) → members s c n ≡ []
  unfolding members
  members_none c zero h = refl
  members_none c (suc n) h =
      rw (h c (omega arith)) (members_none (c + 1) n (λ j l. h j (omega arith)))

  -- Ids that are no members are passed over.
  members_skip :
      (k c n m d : ℕ)
      → k + n ≡ m
      → c + k ≡ d
      → ((j : ℕ) → c ≤ j → j < d → contains s j ≡ false)
      → members s c m ≡ members s d n
  unfolding members
  members_skip zero c n m d e f h =
      let p : n ≡ m = omega arith in let q : c ≡ d = omega arith in rw (p, q)
  members_skip (suc k) c n zero d e f h = absurd (omega arith)
  members_skip (suc k) c n (suc m) d e f h =
      rw (h c (omega arith) (omega arith))
        (members_skip k (c + 1) n m d (omega arith) (omega arith) (λ j p q. h j (omega arith) q))

  pub members-mem :
      (c n j : ℕ) → Memᴰ j (members s c n) ↔ ((contains s j ≡ true) × (c ≤ j) × (j < c + n))
  unfolding members
  members-mem c zero j = (λ m. absurd (Memᴰ.not-nil m), λ (a, b, l). absurd (omega arith))
  members-mem c (suc n) j = elim (Bool-cases (contains s c)) [
    | inl e ↦ rw e (grind (arith, members-mem (c + 1) n j, Memᴰ-cons j c (members s (c + 1) n)))
    | inr e ↦ rw e (grind (arith, members-mem (c + 1) n j))
  ]

  pub length-members :
      (c n : ℕ) → length (members s c n) + card (contains s) c ≡ card (contains s) (c + n)
  unfolding members
  length-members c zero = ground arith
  length-members c (suc n) =
      let shift : c + suc n ≡ c + 1 + n = omega arith in
      rw shift (ground (arith, length-members (c + 1) n, card-suc (contains s) c))

  module _ (v : IsValid s) where
    contains_out : (j : ℕ) → s.count ≤ j → contains s j ≡ false
    contains_out j h = elim (Bool-cases (contains s j)) [
      | inl e ↦ absurd (omega (arith, contains-lt s j e))
      | inr e ↦ e
    ]

    -- One round: what is found is the first member of the rest.
    iterate_round :
        (fuel c n : ℕ) (o : Option ℕ) (k : ℕ)
        → IsNext s c (record { found = o; cursor = k })
        → s.count ≤ c + suc fuel
        → s.count ≤ c + n
        → ((d m : ℕ) → s.count ≤ d + fuel → s.count ≤ d + m → iterate fuel s d ≡ members s d m)
        → elim o [ none ↦ [] | some id ↦ id ∷ iterate fuel s k ] ≡ members s c n
    iterate_round fuel c n none k h f g ih = sym (members_none c n h)
    iterate_round fuel c n (some id) k (member, from, behind, gap) f g ih =
        let l = contains-lt s id member in
        let rest = n - (id - c) - 1 in
        let skipped : members s c n ≡ members s id (suc rest) =
          members_skip (id - c) c (suc rest) n id (omega arith) (omega arith) gap in
        let found : members s id (suc rest) ≡ id ∷ members s (id + 1) rest =
          unfold members in rw member refl in
        rw (skipped, found, behind, ih (id + 1) rest (omega arith) (omega arith))

    iterate-members :
        (fuel c n : ℕ) → s.count ≤ c + fuel → s.count ≤ c + n → iterate fuel s c ≡ members s c n
    unfolding iterate
    iterate-members zero c n f g = sym (members_none c n (λ j h. contains_out j (omega arith)))
    iterate-members (suc fuel) c n f g =
        iterate_round fuel c n (next s c).found (next s c).cursor (next-IsNext s c v) f g
          (iterate-members fuel)

    -- On a valid set the loop over `next` that starts at `c` ends, within `count` rounds, and hands on
    -- exactly the members from `c` on, in ascending order.
    pub iterate_lem : (c : ℕ) → iterate s.count s c ≡ members s c (s.count - c)
    iterate_lem c = iterate-members s.count c (s.count - c) (omega arith) (omega arith)
