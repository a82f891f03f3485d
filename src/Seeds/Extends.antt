-- ===== src/Seeds/Extends.antt =====
-- The extraction of seeds only adds to the set.
use min_corehdr.Prelude.{
  ℕ, zero, suc, ◌+◌, ◌-◌, ◌^◌, Bool, true, not, ◌&&◌, Option, none, some, List, [], ◌∷◌,
  if◌then◌else◌, get_elem?, Text, is_empty,
}
use min_corehdr.Errors.{Result, ok, ◌>>=◌}
use min_corehdr.Errors.Yields.{
  Yields, ok-Yields, Yields-failed, bind-Yields, then-Yields, Yields-mono, if-Yields, choice-Yields,
}
use min_corehdr.Btf.{Kind, Btf, BtfType, Member, type_name, is_record_kind}
use min_corehdr.TypeSet
use min_corehdr.TypeSet.{TypeSet, u64}
use min_corehdr.TypeSet.Laws.{IsValid}
use min_corehdr.TypeSet.Extends.{Extends, Extends-refl, Extends-trans, add-Extends}
use min_corehdr.Requirements.{Origin, add_type_root, add_record_member}
use min_corehdr.Index.{Index}
use min_corehdr.Seeds.{
  Seeds, is_seedable_kind, is_enum, resolve_object_type_to_base, seed_origin, add_seed, seed_type,
  seed_types, extract_object_seeds_with_requirements,
}
use min_corehdr.Seeds.Access.{
  Marked, is_unnamed, peel_access_type, parse_access_component, find_base_member, member_type_at,
  mark_found, search_members, mark_path, mark_base_member_path, access_member, access_loop,
  record_access,
}

-- The set after a step has every member of the set before it.
abbrev pub More : Seeds → Seeds → Type 0
More s t = Extends s.seeds t.seeds

abbrev pub MarkedMore : Marked → Marked → Type 0
MarkedMore s t = Extends s.seeds t.seeds

module _ (number : Kind → ℕ) (index : Index) (object : Btf) (alloc : ℕ → Bool)
    (object_path : Text) where
  add_seed-Extends :
      (hit : Option ℕ) (s : Seeds)
      → IsValid s.seeds
      → Yields (More s) (add_seed number index object alloc object_path hit s)
  unfolding add_seed
  add_seed-Extends none s v = ok-Yields (More s) _ (Extends-refl s.seeds v)
  add_seed-Extends (some base) s v =
      then-Yields (More s)
        (add_type_root alloc s.requirements base
          (some (seed_origin number index object alloc object_path)))
        (λ requirements. ok (record {
          seeds = (TypeSet.add s.seeds base).1;
          requirements = requirements;
          stats = record s.stats {
            candidates = u64 (s.stats.candidates + 1);
            kernel_types =
                if (TypeSet.add s.seeds base).0
                then u64 (s.stats.kernel_types + 1)
                else s.stats.kernel_types;
          };
        }))
        (λ requirements. ok-Yields (More s) _ (add-Extends s.seeds base v))

  seed_type-Extends :
      (id : ℕ) (s : Seeds)
      → IsValid s.seeds
      → Yields (More s) (seed_type number index object alloc object_path id s)
  unfolding seed_type
  seed_type-Extends id s v =
      choice-Yields (More s) (object.type_by_id id) _ _ (Yields-failed (More s) _) (λ t.
        if-Yields (More s) (not (is_seedable_kind t.kind)) _ _
          (ok-Yields (More s) s (Extends-refl s.seeds v))
          (if-Yields (More s) (is_empty (type_name object t) && not (is_enum t.kind)) _ _
            (ok-Yields (More s) s (Extends-refl s.seeds v))
            (then-Yields (More s) (resolve_object_type_to_base number index object id true) _
              (λ hit. add_seed-Extends hit s v))))

  seed_types-Extends :
      (left id : ℕ) (s : Seeds)
      → IsValid s.seeds
      → Yields (More s) (seed_types number index object alloc object_path left id s)
  unfolding seed_types
  seed_types-Extends zero id s v = ok-Yields (More s) s (Extends-refl s.seeds v)
  seed_types-Extends (suc left) id s v =
      bind-Yields (More s) (More s) _ _ (seed_type-Extends id s v) (λ t first.
        Yields-mono (More t) (More s) _ (seed_types-Extends left (id + 1) t first.valid)
          (λ u rest. Extends-trans s.seeds t.seeds u.seeds first rest))

  pub extract_object_seeds-Extends :
      (s : Seeds)
      → IsValid s.seeds
      → Yields
          (More s)
          (extract_object_seeds_with_requirements number index object alloc object_path s)
  unfolding extract_object_seeds_with_requirements
  extract_object_seeds-Extends s v = seed_types-Extends (object.type_cnt - 1) 1 s v

-- Beside other results.
abbrev Beside : {A : Type 0} → Marked → A × Marked → Type 0
Beside st r = MarkedMore st r.1

module _ (alloc : ℕ → Bool) (b : Btf) (origin : Option Origin) where
  mark_found-Extends :
      (record_id i : ℕ) (st : Marked)
      → IsValid st.seeds
      → Yields (MarkedMore st) (mark_found alloc b origin record_id i st)
  unfolding mark_found
  mark_found-Extends record_id i st v =
      then-Yields (MarkedMore st) (add_record_member alloc b st.requirements record_id i origin)
        (λ requirements.
          ok (record { seeds = (TypeSet.add st.seeds record_id).1; requirements = requirements }))
        (λ requirements. ok-Yields (MarkedMore st) _ (add-Extends st.seeds record_id v))

  -- The mark of a member, behind steps that extend the set.
  found-Extends :
      {A : Type 0} (record_id i : ℕ) (first st : Marked) (a : A)
      → MarkedMore first st
      → Yields (Beside first) (mark_found alloc b origin record_id i st >>= (λ st'. ok (a, st')))
  found-Extends record_id i first st a before =
      bind-Yields (MarkedMore st) (Beside first) _ _
        (mark_found-Extends record_id i st before.valid)
        (λ u rest.
          ok-Yields (Beside first) _ (Extends-trans first.seeds st.seeds u.seeds before rest))

  module _ (search : ℕ → BtfType → Marked → Result (Option ℕ × Marked))
      (extends : (id : ℕ) (t : BtfType) (st : Marked)
        → IsValid st.seeds
        → Yields (Beside st) (search id t st)) where
    search_members-Extends :
        (record_id i : ℕ) (ms : List Member) (first st : Marked)
        → MarkedMore first st
        → Yields (Beside first) (search_members alloc b origin search record_id i ms st)
    unfolding search_members
    search_members-Extends record_id i [] first st before = ok-Yields (Beside first) _ before
    search_members-Extends record_id i (m ∷ ms) first st before =
        let next = search_members-Extends record_id (i + 1) ms first st before in
        if-Yields (Beside first) (not (is_unnamed (b.name_by_offset m.name_off))) _ _ next (
          choice-Yields (Beside first) (peel_access_type b m.type) _ _ next
            (λ (nested : ℕ × BtfType).
              if-Yields (Beside first) (not (is_record_kind nested.1.kind)) _ _ next (
                bind-Yields (Beside st) (Beside first) _ _
                  (extends nested.0 nested.1 st before.valid)
                  (λ r found.
                    let so_far = Extends-trans first.seeds st.seeds r.1.seeds before found in
                    choice-Yields (Beside first) r.0 _ _
                      (search_members-Extends record_id (i + 1) ms first r.1 so_far)
                      (λ member_type.
                        found-Extends record_id i first r.1 (some member_type) so_far)))))

  mark_path-Extends :
      (left : ℕ) (name : Option Text) (fallback_index record_id : ℕ) (t : BtfType) (st : Marked)
      → IsValid st.seeds
      → Yields (Beside st) (mark_path alloc b origin left name fallback_index record_id t st)
  unfolding mark_path
  mark_path-Extends zero name fallback_index record_id t st v = Yields-failed (Beside st) _
  mark_path-Extends (suc left) name fallback_index record_id t st v =
      let start = Extends-refl st.seeds v in
      choice-Yields (Beside st) (find_base_member b t name fallback_index) _ _
        (if-Yields (Beside st) (is_unnamed name) _ _ (ok-Yields (Beside st) _ start) (
          search_members-Extends (mark_path alloc b origin left name (2 ^ 32 - 1))
            (λ id nested st v. mark_path-Extends left name (2 ^ 32 - 1) id nested st v) record_id 0
            t.members st st start))
        (λ i. found-Extends record_id i st st (some (member_type_at alloc b origin t i)) start)

  module _ (object : Btf) (access : Text) where
    access_member-Extends :
        (index object_id base_id : ℕ) (st : Marked)
        → IsValid st.seeds
        → Yields (Beside st) (access_member alloc b origin object access index object_id base_id st)
    unfolding access_member mark_base_member_path
    access_member-Extends index object_id base_id st v =
        choice-Yields (Beside st) (peel_access_type object object_id) _ _
          (Yields-failed (Beside st) _)
          (λ (object_record : ℕ × BtfType).
            choice-Yields (Beside st) (peel_access_type b base_id) _ _ (Yields-failed (Beside st) _)
              (λ (base_record : ℕ × BtfType).
                if-Yields (Beside st)
                  (not (is_record_kind object_record.1.kind && is_record_kind base_record.1.kind)) _
                  _ (Yields-failed (Beside st) _)
                  (choice-Yields (Beside st) (get_elem? object_record.1.members index) _ _
                    (Yields-failed (Beside st) _)
                    (λ (m : Member).
                      bind-Yields (Beside st) (Beside st) _ _
                        (mark_path-Extends 17 (object.name_by_offset m.name_off) index base_record.0
                          base_record.1 st v)
                        (λ r found.
                          choice-Yields (Beside st) r.0 _ _ (Yields-failed (Beside st) _)
                            (λ base_member_type. ok-Yields (Beside st) _ found))))))

    access_loop-Extends :
        (fuel : ℕ) (text : Text) (object_id base_id : ℕ) (first st : Marked)
        → MarkedMore first st
        → Yields
            (MarkedMore first)
            (access_loop alloc b origin object access fuel text object_id base_id st)
    unfolding access_loop
    access_loop-Extends fuel [] object_id base_id first st before =
        ok-Yields (MarkedMore first) st before
    access_loop-Extends zero (c ∷ cs) object_id base_id first st before =
        Yields-failed (MarkedMore first) _
    access_loop-Extends (suc fuel) (c ∷ cs) object_id base_id first st before =
        choice-Yields (MarkedMore first) (parse_access_component (c ∷ cs)) _ _
          (Yields-failed (MarkedMore first) _)
          (λ (component : ℕ × Text).
            bind-Yields (Beside st) (MarkedMore first) _ _
              (access_member-Extends component.0 object_id base_id st before.valid)
              (λ r found.
                access_loop-Extends fuel component.1 r.0.0 r.0.1 first r.1
                  (Extends-trans first.seeds st.seeds r.1.seeds before found)))

    pub record_access-Extends :
        (object_id base_id : ℕ) (st : Marked)
        → IsValid st.seeds
        → Yields (MarkedMore st) (record_access alloc b origin object access object_id base_id st)
    unfolding record_access
    record_access-Extends object_id base_id st v =
        choice-Yields (MarkedMore st) (parse_access_component access) _ _
          (Yields-failed (MarkedMore st) _)
          (λ (component : ℕ × Text).
            access_loop-Extends _ component.1 object_id base_id st st (Extends-refl st.seeds v))
