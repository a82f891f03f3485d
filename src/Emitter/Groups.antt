-- ===== src/Emitter/Groups.antt =====
-- The groups hold the required ids of their kinds in ascending order, and fit into their arrays.
use min_corehdr.Prelude.{
  ℕ, zero, suc, ◌+◌, ◌-◌, ◌%◌, ◌^◌, ◌≤◌, ◌<◌, ◌≡◌, refl, sym, ap, ◌∙◌, inl, inr, Bool, true, false,
  List, [], ◌∷◌, ◌++◌, Memᴰ, arith, ◌==◌, if◌then◌else◌, Bool-cases, length, Memᴰ-cons,
  not-Memᴰ-nil,
}
use mathlib.Core.Path.{subst}
use mathlib.Core.List.{append-nil, append_assoc}
use min_corehdr.Errors.{Failure, ok, failed, >>=-eq-ok, Result-cases}
use min_corehdr.Btf.{Btf, BtfType}
use min_corehdr.TypeSet.{TypeSet, contains, has_bit}
use min_corehdr.Emitter.{
  EmitGroups, groups_init, is_enum_kind, slot, is_forward, collect_type, collect_ids,
  collect_emit_groups,
}
use min_corehdr.Count.{card, card_congr}
use min_corehdr.TypeSet.Laws.{IsValid, contains-eq-has_bit}
use min_corehdr.TypeSet.Iterate.{members, length-members, iterate_lem}
use min_corehdr.Emitter.Names.{type_at}
use min_corehdr.Emitter.Order.{is_named_record, is_typedef_kind}

-- The ids as the 32 bits that are left of them.
unfoldable pub casts : List ℕ → List ℕ
casts [] = []
casts (id ∷ ids) = (id % 2 ^ 32) ∷ casts ids

length-casts : (ids : List ℕ) → length (casts ids) ≡ length ids
unfolding casts
length-casts [] = refl
length-casts (id ∷ ids) = omega (arith, length-casts ids)

pub casts-mem : (ids : List ℕ) (id : ℕ) → id < 2 ^ 32 → Memᴰ id ids → Memᴰ id (casts ids)
unfolding casts
casts-mem [] id small m = absurd (not-Memᴰ-nil id m)
casts-mem (x ∷ ids) id small m = elim ((Memᴰ-cons id x ids).0 m) [
  | inl here ↦ (Memᴰ-cons id (x % 2 ^ 32) (casts ids)).1 (inl (omega (arith, here, small)))
  | inr there ↦ (Memᴰ-cons id (x % 2 ^ 32) (casts ids)).1 (inr (casts-mem ids id small there))
]

module _ (b : Btf) where
  -- The ids whose type passes a test.
  unfoldable pub passing : (BtfType → Bool) → List ℕ → List ℕ
  passing test [] = []
  passing test (id ∷ ids) = elim (type_at b id) [
    | failed e ↦ passing test ids
    | ok t ↦ let rest = passing test ids in if test t then id ∷ rest else rest
  ]

  length-passing : (test : BtfType → Bool) (ids : List ℕ) → length (passing test ids) ≤ length ids
  unfolding passing
  length-passing test [] = omega arith
  length-passing test (id ∷ ids) = ground (arith, length-passing test ids)

  passing-ok :
      (test : BtfType → Bool) (x : ℕ) (ids : List ℕ) (t : BtfType)
      → type_at b x ≡ ok t
      → passing test (x ∷ ids) ≡ (if test t then x ∷ passing test ids else passing test ids)
  unfolding passing
  passing-ok test x ids t at = ground (arith, at)

  passing-failed :
      (test : BtfType → Bool) (x : ℕ) (ids : List ℕ) (e : Failure)
      → type_at b x ≡ failed e
      → passing test (x ∷ ids) ≡ passing test ids
  unfolding passing
  passing-failed test x ids e at = ground (arith, at)

  passing-tail :
      (test : BtfType → Bool) (x : ℕ) (ids : List ℕ) (id : ℕ)
      → Memᴰ id (passing test ids)
      → Memᴰ id (passing test (x ∷ ids))
  passing-tail test x ids id m = elim (Result-cases (type_at b x)) [
    | inr (e, bad) ↦ rw (passing-failed test x ids e bad) m
    | inl (t, good) ↦ elim (Bool-cases (test t)) [
      | inl passes ↦
          rw (passing-ok test x ids t good, passes) ((Memᴰ-cons id x (passing test ids)).1 (inr m))
      | inr fails ↦ rw (passing-ok test x ids t good, fails) m
    ]
  ]

  -- The ids whose type passes are those that pass.
  pub passing-mem :
      (test : BtfType → Bool) (ids : List ℕ) (id : ℕ) (t : BtfType)
      → Memᴰ id ids
      → type_at b id ≡ ok t
      → test t ≡ true
      → Memᴰ id (passing test ids)
  passing-mem test [] id t m at h = absurd (not-Memᴰ-nil id m)
  passing-mem test (x ∷ ids) id t m at h = elim ((Memᴰ-cons id x ids).0 m) [
    | inl here ↦
        let at' : type_at b x ≡ ok t = rw (← here) at in
        rw (passing-ok test x ids t at', h) ((Memᴰ-cons id x (passing test ids)).1 (inl here))
    | inr there ↦ passing-tail test x ids id (passing-mem test ids id t there at h)
  ]

  slot-append :
      (c : Bool) (id : ℕ) (done rest : List ℕ)
      → slot c id done ++ rest ≡ done ++ (if c then id ∷ rest else rest)
  unfolding slot
  slot-append true id done rest = append_assoc done (id ∷ []) rest
  slot-append false id done rest = refl

  slot-passing :
      (test : BtfType → Bool) (id : ℕ) (ids done : List ℕ) (t : BtfType)
      → type_at b id ≡ ok t
      → slot (test t) id done ++ passing test ids ≡ done ++ passing test (id ∷ ids)
  slot-passing test id ids done t at =
      slot-append (test t) id done (passing test ids)
      ∙ ap (λ (x : List ℕ). done ++ x) (sym (passing-ok test id ids t at))

  collect_ids-passing :
      (ids : List ℕ) (start groups : EmitGroups)
      → collect_ids b ids start ≡ ok groups
      → (groups.capacity ≡ start.capacity)
        × (groups.fwds ≡ start.fwds ++ passing (is_forward b) (casts ids))
        × (groups.enums ≡ start.enums ++ passing (λ t. is_enum_kind t.kind) (casts ids))
        × (groups.records ≡ start.records ++ passing (is_named_record b) (casts ids))
        × (groups.typedefs ≡ start.typedefs ++ passing (λ t. is_typedef_kind t.kind) (casts ids))
  unfolding collect_ids collect_type passing casts
  collect_ids-passing [] start groups e =
      let same : start ≡ groups = cc e in
      rw (← same) (
        refl,
        sym (append-nil start.fwds),
        sym (append-nil start.enums),
        sym (append-nil start.records),
        sym (append-nil start.typedefs),
      )
  collect_ids-passing (required_id ∷ ids) start groups e =
      let id = required_id % 2 ^ 32 in
      let (t, at, run) = >>=-eq-ok (type_at b id) _ e in
      let (cap, f, n, r, d) = collect_ids-passing ids (collect_type b id t start) groups run in
      (
        cap,
        f ∙ slot-passing (is_forward b) id (casts ids) start.fwds t at,
        n ∙ slot-passing (λ t. is_enum_kind t.kind) id (casts ids) start.enums t at,
        r ∙ slot-passing (is_named_record b) id (casts ids) start.records t at,
        d ∙ slot-passing (λ t. is_typedef_kind t.kind) id (casts ids) start.typedefs t at,
      )

  -- The groups for a list of ids.
  pub record Grouped (ids : List ℕ) (groups : EmitGroups) : Type 0 where
    pub fwds : groups.fwds ≡ passing (is_forward b) ids
    pub enums : groups.enums ≡ passing (λ t. is_enum_kind t.kind) ids
    pub records : groups.records ≡ passing (is_named_record b) ids
    pub typedefs : groups.typedefs ≡ passing (λ t. is_typedef_kind t.kind) ids
    pub fit :
        (length groups.fwds ≤ groups.capacity)
        × (length groups.enums ≤ groups.capacity)
        × (length groups.records ≤ groups.capacity)
        × (length groups.typedefs ≤ groups.capacity)

  -- The groups for the members of a set.
  abbrev pub Collected : TypeSet → EmitGroups → Type 0
  Collected s groups = Grouped (members s 1 (s.count - 1)) groups

  length-selected : (s : TypeSet) → IsValid s → length (members s 1 (s.count - 1)) ≤ s.selected
  length-selected s v =
      let same =
        card_congr (contains s) (has_bit s.words) s.count (λ j h. contains-eq-has_bit s j h) in
      let counted = length-members s 1 (s.count - 1) in
      elim (Bool-cases (s.count == 0)) [
        | inl none_at_all ↦
            let only : 1 + (s.count - 1) ≡ 1 = ground arith in
            omega (arith, counted, ap (λ n. card (contains s) n) only)
        | inr some_at_all ↦
            let all : 1 + (s.count - 1) ≡ s.count = ground arith in
            omega (arith, counted, same, v.counted, ap (λ n. card (contains s) n) all)
      ]

  -- For a valid set the groups are those of the members above 0, cast to 32 bits.
  pub collect_emit_groups-Grouped :
      (alloc : ℕ → Bool) (s : TypeSet) (empty groups : EmitGroups)
      → IsValid s
      → groups_init alloc s.selected ≡ ok empty
      → collect_emit_groups b s empty ≡ ok groups
      → Grouped (casts (members s 1 (s.count - 1))) groups
  unfolding groups_init collect_emit_groups
  collect_emit_groups-Grouped alloc s empty groups v start run =
      let fresh : (empty.capacity ≡ (if s.selected == 0 then 1 else s.selected))
          × (empty.fwds ≡ [])
          × (empty.enums ≡ [])
          × (empty.records ≡ [])
          × (empty.typedefs ≡ []) =
        ground (arith, start) in
      let (sized, no_fwds, no_enums, no_records, no_typedefs) = fresh in
      let ids = members s 1 (s.count - 1) in
      let kept = casts ids in
      let run' : collect_ids b ids empty ≡ ok groups = rw (← iterate_lem s v 1) run in
      let (cap, f, n, r, d) = collect_ids-passing ids empty groups run' in
      let most = length-selected s v in
      let room : s.selected ≤ groups.capacity = ground (arith, sized, cap) in
      let fwds : groups.fwds ≡ passing (is_forward b) kept = rw no_fwds at f in
      let enums : groups.enums ≡ passing (λ t. is_enum_kind t.kind) kept = rw no_enums at n in
      let records : groups.records ≡ passing (is_named_record b) kept = rw no_records at r in
      let typedefs : groups.typedefs ≡ passing (λ t. is_typedef_kind t.kind) kept =
        rw no_typedefs at d in
      let fits : (test : BtfType → Bool) (group : List ℕ)
          → group ≡ passing test kept
          → length group ≤ groups.capacity =
        λ test group e.
          omega (arith, ap length e, length-passing test kept, length-casts ids, most, room) in
      record {
        fwds = fwds;
        enums = enums;
        records = records;
        typedefs = typedefs;
        fit = (fits _ _ fwds, fits _ _ enums, fits _ _ records, fits _ _ typedefs);
      }

  casts-below :
      (s : TypeSet) (left id : ℕ)
      → id + left ≤ 2 ^ 32
      → casts (members s id left) ≡ members s id left
  unfolding casts members
  casts-below s zero id small = refl
  casts-below s (suc left) id small =
      let rest = casts-below s left (id + 1) (omega (arith, small)) in
      let same : id % 2 ^ 32 ≡ id = omega (arith, small) in
      elim (Bool-cases (contains s id)) [
        | inl inside ↦ rw (inside, same, rest) refl
        | inr outside ↦ rw (outside, rest) refl
      ]

  -- For a valid set of at most 2 ^ 32 ids, the groups that are collected into arrays sized by its
  -- count of selected ids hold, for each of the four tests, the members above 0 that pass it in
  -- ascending order, and no group has more ids than its array has slots.
  pub collect_emit_groups-Collected :
      (alloc : ℕ → Bool) (s : TypeSet) (empty groups : EmitGroups)
      → IsValid s
      → s.count ≤ 2 ^ 32
      → groups_init alloc s.selected ≡ ok empty
      → collect_emit_groups b s empty ≡ ok groups
      → Collected s groups
  collect_emit_groups-Collected alloc s empty groups v small start run =
      subst (λ ids. Grouped ids groups) (casts-below s (s.count - 1) 1 (omega (arith, small)))
        (collect_emit_groups-Grouped alloc s empty groups v start run)
