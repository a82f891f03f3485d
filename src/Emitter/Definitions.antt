-- ===== src/Emitter/Definitions.antt =====
-- The functions that order the definitions let the emission grow, and write what they are asked for.
use min_corehdr.Prelude.{ℕ, zero, suc, ◌≡◌, ◌≢◌, true, false, Option, get_or, is_empty}
use min_corehdr.Errors.{ok}
use min_corehdr.Btf.{Btf, BtfType, type_name}
use min_corehdr.Requirements.{Requirements}
use min_corehdr.Emitter.Names.{type_at}
use min_corehdr.Emitter.Order.{
  Emission, Action, is_named_record, is_typedef_kind, emit_hard_deps, emit_soft_deps,
  emit_typedef_definition, emit_record_definition,
}
use min_corehdr.Emitter.Grows.{Room, Keeps}
use min_corehdr.Emitter.Steps.{
  hard_step-Keeps, soft_step-Keeps, record_step-done, typedef_step-done,
}

module _ (b : Btf) (requirements : Option Requirements) where
  abbrev pub K : Action → Type 0
  K act = Keeps b requirements act

  mutual
    unfolding emit_hard_deps

    pub emit_hard_deps-Keeps : (fuel id : ℕ) → K (emit_hard_deps b requirements fuel id)
    emit_hard_deps-Keeps zero id s t r e = cc e
    emit_hard_deps-Keeps (suc f) id s t r e =
        hard_step-Keeps b requirements f (emit_hard_deps b requirements f)
          (emit_soft_deps b requirements f) (emit_typedef_definition b requirements f)
          (emit_record_definition b requirements f) (emit_hard_deps-Keeps f)
          (emit_soft_deps-Keeps f) (emit_typedef_definition-Keeps f)
          (emit_record_definition-Keeps f) id s t r e

    pub emit_soft_deps-Keeps : (fuel id : ℕ) → K (emit_soft_deps b requirements fuel id)
    emit_soft_deps-Keeps zero id s t r e = cc e
    emit_soft_deps-Keeps (suc f) id s t r e =
        soft_step-Keeps b requirements f (emit_hard_deps b requirements f)
          (emit_soft_deps b requirements f) (emit_typedef_definition b requirements f)
          (emit_record_definition b requirements f) (emit_hard_deps-Keeps f)
          (emit_soft_deps-Keeps f) (emit_typedef_definition-Keeps f)
          (emit_record_definition-Keeps f) id s t r e

    pub emit_typedef_definition-Keeps :
        (fuel id : ℕ) → K (emit_typedef_definition b requirements fuel id)
    emit_typedef_definition-Keeps zero id s t r e = cc e
    emit_typedef_definition-Keeps (suc f) id s t r e =
        (typedef_step-done b requirements f (emit_hard_deps b requirements f)
          (emit_soft_deps b requirements f) (emit_typedef_definition b requirements f)
          (emit_record_definition b requirements f) (emit_hard_deps-Keeps f)
          (emit_soft_deps-Keeps f) (emit_typedef_definition-Keeps f)
          (emit_record_definition-Keeps f) id s t r e).0

    pub emit_record_definition-Keeps :
        (fuel id : ℕ) → K (emit_record_definition b requirements fuel id)
    emit_record_definition-Keeps zero id s t r e = cc e
    emit_record_definition-Keeps (suc f) id s t r e =
        (record_step-done b requirements f (emit_hard_deps b requirements f)
          (emit_soft_deps b requirements f) (emit_typedef_definition b requirements f)
          (emit_record_definition b requirements f) (emit_hard_deps-Keeps f)
          (emit_soft_deps-Keeps f) (emit_typedef_definition-Keeps f)
          (emit_record_definition-Keeps f) id s t r e).0

  pub emit_record_definition-done :
      (fuel id : ℕ) (s u : Emission) (t : BtfType)
      → Room b s
      → emit_record_definition b requirements fuel id s ≡ ok u
      → type_at b id ≡ ok t
      → is_named_record b t ≡ true
      → get_or s.record_state id 0 ≢ 1
      → get_or u.record_state id 0 ≡ 2
  unfolding emit_hard_deps
  emit_record_definition-done zero id s u t r e at named free = cc e
  emit_record_definition-done (suc f) id s u t r e at named free =
      (record_step-done b requirements f (emit_hard_deps b requirements f)
          (emit_soft_deps b requirements f) (emit_typedef_definition b requirements f)
          (emit_record_definition b requirements f) (emit_hard_deps-Keeps f)
          (emit_soft_deps-Keeps f) (emit_typedef_definition-Keeps f)
          (emit_record_definition-Keeps f) id s u r e).1
        t at named free

  pub emit_typedef_definition-done :
      (fuel id : ℕ) (s u : Emission) (t : BtfType)
      → Room b s
      → emit_typedef_definition b requirements fuel id s ≡ ok u
      → type_at b id ≡ ok t
      → is_typedef_kind t.kind ≡ true
      → is_empty (type_name b t) ≡ false
      → get_or u.typedef_state id 0 ≡ 2
  unfolding emit_hard_deps
  emit_typedef_definition-done zero id s u t r e at kind named = cc e
  emit_typedef_definition-done (suc f) id s u t r e at kind named =
      (typedef_step-done b requirements f (emit_hard_deps b requirements f)
          (emit_soft_deps b requirements f) (emit_typedef_definition b requirements f)
          (emit_record_definition b requirements f) (emit_hard_deps-Keeps f)
          (emit_soft_deps-Keeps f) (emit_typedef_definition-Keeps f)
          (emit_record_definition-Keeps f) id s u r e).1
        t at kind named
