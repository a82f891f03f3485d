-- ===== src/Emitter/Complete.antt =====
-- The header has a definition for every required record and typedef with a name.
use min_corehdr.Prelude.{
  ℕ, ◌-◌, ◌^◌, ◌≤◌, ◌<◌, ◌≡◌, refl, ap, ◌∙◌, Bool, true, false, Option, ◌++◌, Memᴰ, arith, ◌==◌,
  if◌then◌else◌, get_or, replicate, length, length-replicate, get_or-replicate, Text, is_empty,
}
use mathlib.Core.List.{append_assoc}
use min_corehdr.Errors.{guard-ok, Failure, ok, failed, >>=-eq-ok}
use min_corehdr.Btf.{Btf, BtfType, type_name}
use min_corehdr.Requirements.{Requirements}
use min_corehdr.TypeSet.{TypeSet, contains}
use min_corehdr.TypeSet.Laws.{IsValid}
use min_corehdr.TypeSet.Iterate.{members, members-mem}
use min_corehdr.Emitter.{
  EmitGroups, groups_init, collect_emit_groups, emission_init, emit_groups, prologue, epilogue,
  emit_header_with_options,
}
use min_corehdr.Emitter.Names.{type_at}
use min_corehdr.Emitter.Order.{Emission, is_named_record, is_typedef_kind}
use min_corehdr.Prelude.Within.{Within}
use min_corehdr.Emitter.Grows.{RecordText, TypedefText, Room}
use min_corehdr.Emitter.Groups.{passing-mem, casts, casts-mem, Grouped, collect_emit_groups-Grouped}
use min_corehdr.Emitter.Loops.{Closed, groups-Grows, groups_record, groups_typedef}

module _ (b : Btf) (requirements : Option Requirements) where
  -- Between the guards stands a text with the definition of every required record and typedef that
  -- has a name.
  pub record Complete (required : TypeSet) (out text : Text) : Type 0 where
    pub body : Text
    pub framed : text ≡ out ++ (prologue b ++ (body ++ epilogue b))
    pub records :
        (id : ℕ) (ty : BtfType)
        → contains required id ≡ true
        → 0 < id
        → type_at b id ≡ ok ty
        → is_named_record b ty ≡ true
        → (w : Text) × RecordText b requirements id w × Within w body
    pub typedefs :
        (id : ℕ) (ty : BtfType)
        → contains required id ≡ true
        → 0 < id
        → type_at b id ≡ ok ty
        → is_typedef_kind ty.kind ≡ true
        → is_empty (type_name b ty) ≡ false
        → (w : Text) × TypedefText b requirements id w × Within w body

  emission_init-Room : (out : Text) → Room b (emission_init b out)
  unfolding emission_init
  emission_init-Room out =
      let slots : ℕ = if b.type_cnt == 0 then 1 else b.type_cnt in
      let enough : b.type_cnt ≤ slots = ground arith in
      let long : b.type_cnt ≤ length {A = ℕ} (replicate slots 0) =
        rw (length-replicate {A = ℕ} slots 0) enough in
      record { records = long; fwds = long; typedefs = long }

  emission_init-zero :
      (out : Text) (id : ℕ)
      → (get_or (emission_init b out).record_state id 0 ≡ 0)
        × (get_or (emission_init b out).typedef_state id 0 ≡ 0)
        × ((emission_init b out).out ≡ out)
  unfolding emission_init
  emission_init-zero out id =
      (get_or-replicate {A = ℕ} _ id 0, get_or-replicate {A = ℕ} _ id 0, refl)

  closing :
      (sound : Bool) (body text : Text)
      → (if sound then ok (body ++ epilogue b) else failed Failure.header_write_failed) ≡ ok text
      → text ≡ body ++ epilogue b
  closing true body text e = ground (arith, e)
  closing false body text e = absurd (cc e)

  member :
      (s : TypeSet) (id : ℕ) → contains s id ≡ true → 0 < id → Memᴰ id (members s 1 (s.count - 1))
  unfolding contains
  member s id m pos =
      (members-mem s 1 (s.count - 1) id).1 (m, omega (arith, pos), ground (arith, m, pos))

  kept :
      (s : TypeSet) (id : ℕ) (ty : BtfType)
      → b.type_cnt ≤ 2 ^ 32
      → contains s id ≡ true
      → 0 < id
      → type_at b id ≡ ok ty
      → Memᴰ id (casts (members s 1 (s.count - 1)))
  unfolding type_at
  kept s id ty small m pos at =
      casts-mem (members s 1 (s.count - 1)) id (ground (arith, small, at)) (member s id m pos)

  groups-Complete :
      (fuel : ℕ) (required : TypeSet) (groups : EmitGroups) (out text : Text) (t : Emission)
      → b.type_cnt ≤ 2 ^ 32
      → Grouped b (casts (members required 1 (required.count - 1))) groups
      → emit_groups b requirements fuel groups (emission_init b (out ++ prologue b)) ≡ ok t
      → text ≡ t.out ++ epilogue b
      → Complete required out text
  groups-Complete fuel required groups out text t small lists run end =
      let s = emission_init b (out ++ prologue b) in
      let r = emission_init-Room (out ++ prologue b) in
      let zero_at = emission_init-zero (out ++ prologue b) in
      let grown = groups-Grows b requirements fuel groups s t r run in
      let closed : Closed b requirements s.record_state = λ id. omega (arith, (zero_at id).0) in
      record {
        body = grown.added;
        framed =
            end
            ∙ ap (λ (x : Text). x ++ epilogue b)
                (grown.out ∙ ap (λ (x : Text). x ++ grown.added) (zero_at 0).2)
            ∙ append_assoc (out ++ prologue b) grown.added (epilogue b)
            ∙ append_assoc out (prologue b) (grown.added ++ epilogue b);
        records = λ id ty m pos at named.
            let here : Memᴰ id groups.records = rw lists.records (
              passing-mem b (is_named_record b) _ id ty (kept required id ty small m pos at) at
                named) in
            let done =
              groups_record b requirements fuel groups s t r run id ty closed here at named in
            grown.record_texts id (omega (arith, (zero_at id).0)) done;
        typedefs = λ id ty m pos at kind named.
            let here : Memᴰ id groups.typedefs = rw lists.typedefs (
              passing-mem b (λ t. is_typedef_kind t.kind) _ id ty
                (kept required id ty small m pos at) at kind) in
            let done =
              groups_typedef b requirements fuel groups s t r run id ty here at kind named in
            grown.typedef_texts id (omega (arith, (zero_at id).1)) done;
      }

  -- For a valid set and a BTF of at most 2 ^ 32 types, a header that is emitted stands behind what
  -- the stream had, in its guards, and has the definition of every required record and of every
  -- required typedef with a name.
  pub emit_header-Complete :
      (fuel : ℕ) (alloc : ℕ → ℕ → Bool) (sound : Bool) (required : TypeSet) (out text : Text)
      → IsValid required
      → b.type_cnt ≤ 2 ^ 32
      → emit_header_with_options b requirements fuel alloc sound required out ≡ ok text
      → Complete required out text
  unfolding emit_header_with_options
  emit_header-Complete fuel alloc sound required out text v small e =
      let slots : ℕ = if b.type_cnt == 0 then 1 else b.type_cnt in
      let e1 = guard-ok (alloc 0 slots) _ _ e in
      let e2 = guard-ok (alloc 1 slots) _ _ e1 in
      let e3 = guard-ok (alloc 2 slots) _ _ e2 in
      let (t, e4, last) =
        >>=-eq-ok _
          (λ (st : Emission).
            if sound then ok (st.out ++ epilogue b) else failed Failure.header_write_failed)
          e3 in
      let (groups, e5, run) =
        >>=-eq-ok _
          (λ groups. emit_groups b requirements fuel groups (emission_init b (out ++ prologue b)))
          e4 in
      let (empty, start, collected) =
        >>=-eq-ok (groups_init (alloc 3) required.selected)
          (λ empty. collect_emit_groups b required empty) e5 in
      let lists = collect_emit_groups-Grouped b (alloc 3) required empty groups v start collected in
      groups-Complete fuel required groups out text t small lists run
        (closing sound t.out text last)
