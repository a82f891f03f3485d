-- ===== src/Relocations/Extends.antt =====
-- The extraction from the relocations only adds to the set.
use min_corehdr.Prelude.{
  ℕ, zero, suc, ◌+◌, ◌-◌, Bool, true, false, not, ◌||◌, Option, none, some, ltb, ◌==◌,
  if◌then◌else◌, length, Text, codes, is_empty,
}
use min_corehdr.Errors.{Failure, Result, ok, failed}
use min_corehdr.Errors.Yields.{
  Yields, ok-Yields, Yields-failed, bind-Yields, then-Yields, if-Yields, choice-Yields,
}
use min_corehdr.Btf.{Kind, Btf}
use min_corehdr.TypeSet
use min_corehdr.TypeSet.{TypeSet, u64}
use min_corehdr.TypeSet.Laws.{IsValid}
use min_corehdr.TypeSet.Extends.{Extends-refl, Extends-trans, add-Extends}
use min_corehdr.Requirements.{Requirements, Origin, add_type_root}
use min_corehdr.Index.{Index}
use min_corehdr.Seeds.{Seeds, resolve_object_type_to_base}
use min_corehdr.Seeds.Access.{Marked}
use min_corehdr.Seeds.Extends.{More, MarkedMore, record_access-Extends}
use min_corehdr.Relocations.{
  CoreReloKind, BtfExt, same_order, in_context, is_field_relo_kind, record_core_relo_requirements,
  require_relo, core_relo_context, count_relo, relo_origin, extract_relo, extract_relos,
  extract_sections, extract_all, extract_infos, extract_raw,
  extract_core_relo_seeds_with_requirements,
}
use min_corehdr.Relocations.Bytes.{Run, stuck, ran, bind, read_u32, read_header}
use min_corehdr.Relocations.Places.{
  ExtInfo, CoreRelo, read_relo, format_core_relo_location, init_ext_info,
}

-- A property of what a run returns, if it returns something.
unfoldable pub Leaves : {A : Type 0} → (A → Type 0) → Run A → Type 0
Leaves P stuck = Unit {0}
Leaves P (ran r) = Yields P r

ran-Leaves : {A : Type 0} (P : A → Type 0) (r : Result A) → Yields P r → Leaves P (ran r)
unfolding Leaves
ran-Leaves P r h = h

bind-Leaves :
    {A B : Type 0} (P : A → Type 0) (Q : B → Type 0) (r : Run A) (next : A → Run B)
    → Leaves P r
    → ((a : A) → P a → Leaves Q (next a))
    → Leaves Q (bind r next)
unfolding bind Leaves Yields
bind-Leaves P Q stuck next h k = tt
bind-Leaves P Q (ran (failed e)) next h k = tt
bind-Leaves P Q (ran (ok a)) next h k = k a h

then-Leaves :
    {A B : Type 0} (Q : B → Type 0) (r : Run A) (next : A → Run B)
    → ((a : A) → Leaves Q (next a))
    → Leaves Q (bind r next)
unfolding bind Leaves Yields
then-Leaves Q stuck next k = tt
then-Leaves Q (ran (failed e)) next k = tt
then-Leaves Q (ran (ok a)) next k = k a

if-Leaves :
    {A : Type 0} (P : A → Type 0) (c : Bool) (r s : Run A)
    → Leaves P r
    → Leaves P s
    → Leaves P (if c then r else s)
if-Leaves P true r s h k = h
if-Leaves P false r s h k = k

stuck-Leaves : {A : Type 0} (P : A → Type 0) → Leaves P stuck
unfolding Leaves
stuck-Leaves P = tt

failed-Leaves : {A : Type 0} (P : A → Type 0) (e : Failure) → Leaves P (ran (failed e))
failed-Leaves P e = ran-Leaves P (failed e) (Yields-failed P e)

ok-Leaves : {A : Type 0} (P : A → Type 0) (a : A) → P a → Leaves P (ran (ok a))
ok-Leaves P a h = ran-Leaves P (ok a) (ok-Yields P a h)

in_context-Leaves :
    {A : Type 0} (P : A → Type 0) (context : Run Text) (r : Result A)
    → Yields P r
    → Leaves P (in_context context r)
unfolding in_context Yields
in_context-Leaves P context (ok a) h = ok-Leaves P a h
in_context-Leaves P context (failed e) h = then-Leaves P context _ (λ text. failed-Leaves P e)

-- Beside a position.
abbrev Ahead : Seeds → ℕ × Seeds → Type 0
Ahead s r = More s r.1

module _ (relo_kind : ℕ → CoreReloKind) (number : Kind → ℕ) (alloc : ℕ → Bool) (index : Index)
    (object : Btf) (object_path : Text) (little : Bool) where
  record_core-Extends :
      (relo : CoreRelo) (base_id : ℕ) (origin : Origin) (st : Marked)
      → IsValid st.seeds
      → Yields (MarkedMore st) (
          record_core_relo_requirements relo_kind number alloc index object object_path little relo
            base_id origin st)
  unfolding record_core_relo_requirements
  record_core-Extends relo base_id origin st v =
      let same = ok-Yields (MarkedMore st) st (Extends-refl st.seeds v) in
      choice-Yields (MarkedMore st) st.requirements _ _ same (λ (requirements : Requirements).
        if-Yields (MarkedMore st) (not (is_field_relo_kind (relo_kind relo.kind))) _ _ same (
          choice-Yields (MarkedMore st) origin.access _ _ same (λ (access : Text).
            if-Yields (MarkedMore st) (is_empty access) _ _ same (
              choice-Yields (MarkedMore st) index.btf _ _ (Yields-failed (MarkedMore st) _)
                (λ (base : Btf).
                  record_access-Extends alloc base (some origin) object access relo.type_id base_id
                    st v)))))

  require_relo-Extends :
      (relo : CoreRelo) (origin : Origin) (s : Seeds)
      → IsValid s.seeds
      → Yields
          (More s)
          (require_relo relo_kind number alloc index object object_path little relo origin s)
  unfolding require_relo
  require_relo-Extends relo origin s v =
      then-Yields (More s) (resolve_object_type_to_base number index object relo.type_id false) _
        (λ (found : Option ℕ).
          let base_id : ℕ = elim found [ some id ↦ id | none ↦ 0 ] in
          let added = add-Extends s.seeds base_id v in
          then-Yields (More s) (add_type_root alloc s.requirements base_id (some origin)) _
            (λ requirements.
              let st : Marked = record {
                seeds = (TypeSet.add s.seeds base_id).1;
                requirements = requirements;
              } in
              bind-Yields (MarkedMore st) (More s) _ _
                (record_core-Extends relo base_id origin st added.valid)
                (λ marked h.
                  ok-Yields (More s) _ (Extends-trans s.seeds st.seeds marked.seeds added h))))

  module _ (raw : Text) (core_info func_info line_info : ExtInfo) where
    extract_relo-Extends :
        (sec_name_off i : ℕ) (relo : CoreRelo) (s : Seeds)
        → IsValid s.seeds
        → Leaves (More s) (
            extract_relo relo_kind number alloc index object object_path little raw core_info
              func_info line_info sec_name_off i relo s)
    unfolding extract_relo count_relo
    extract_relo-Extends sec_name_off i relo s v =
        then-Leaves (More s)
          (format_core_relo_location little raw object func_info line_info sec_name_off relo 160) _
          (λ location.
            in_context-Leaves (More s)
              (core_relo_context relo_kind number alloc index object object_path little raw
                core_info func_info line_info sec_name_off relo (u64 (s.stats.core_relocations + 1))
                i)
              (require_relo relo_kind number alloc index object object_path little relo
                (relo_origin relo_kind number alloc index object object_path little raw core_info
                  func_info line_info relo location)
                (count_relo relo_kind number alloc index object object_path little raw core_info
                  func_info line_info s))
              (require_relo-Extends relo
                (relo_origin relo_kind number alloc index object object_path little raw core_info
                  func_info line_info relo location)
                (count_relo relo_kind number alloc index object object_path little raw core_info
                  func_info line_info s)
                v))

    extract_relos-Extends :
        (sec_name_off left i pos : ℕ) (first s : Seeds)
        → More first s
        → Leaves (Ahead first) (
            extract_relos relo_kind number alloc index object object_path little raw core_info
              func_info line_info sec_name_off left i pos s)
    unfolding extract_relos
    extract_relos-Extends sec_name_off zero i pos first s before =
        ok-Leaves (Ahead first) (pos, s) before
    extract_relos-Extends sec_name_off (suc left) i pos first s before =
        if-Leaves (Ahead first) (ltb (core_info.end - pos) core_info.rec_size) _ _
          (failed-Leaves (Ahead first) _)
          (then-Leaves (Ahead first) (read_relo little raw pos) _ (λ relo.
            bind-Leaves (More s) (Ahead first) _ _
              (extract_relo-Extends sec_name_off i relo s before.valid)
              (λ t next.
                extract_relos-Extends sec_name_off left (i + 1) (pos + core_info.rec_size) first t
                  (Extends-trans first.seeds s.seeds t.seeds before next))))

    extract_sections-Extends :
        (fuel pos : ℕ) (first s : Seeds)
        → More first s
        → Leaves (Ahead first) (
            extract_sections relo_kind number alloc index object object_path little raw core_info
              func_info line_info fuel pos s)
    unfolding extract_sections
    extract_sections-Extends zero pos first s before =
        if-Leaves (Ahead first) (ltb pos core_info.end) _ _ (stuck-Leaves (Ahead first))
          (ok-Leaves (Ahead first) (pos, s) before)
    extract_sections-Extends (suc fuel) pos first s before =
        if-Leaves (Ahead first) (not (ltb pos core_info.end)) _ _
          (ok-Leaves (Ahead first) (pos, s) before)
          (if-Leaves (Ahead first) (ltb (core_info.end - pos) 8) _ _ (failed-Leaves (Ahead first) _)
            (then-Leaves (Ahead first) (read_u32 little raw pos) _ (λ sec_name_off.
              then-Leaves (Ahead first) (read_u32 little raw (pos + 4)) _ (λ num_info.
                bind-Leaves (Ahead first) (Ahead first) _ _
                  (extract_relos-Extends sec_name_off num_info 0 (pos + 8) first s before)
                  (λ r so_far. extract_sections-Extends fuel r.0 first r.1 so_far)))))

    extract_all-Extends :
        (s : Seeds)
        → IsValid s.seeds
        → Leaves (More s) (
            extract_all relo_kind number alloc index object object_path little raw core_info
              func_info line_info s)
    unfolding extract_all
    extract_all-Extends s v =
        bind-Leaves (Ahead s) (More s) _ _
          (extract_sections-Extends (core_info.end - core_info.pos) core_info.pos s s
            (Extends-refl s.seeds v))
          (λ r so_far.
            if-Leaves (More s) (not (r.0 == core_info.end)) _ _ (failed-Leaves (More s) _)
              (ok-Leaves (More s) r.1 so_far))

  extract_raw-Extends :
      (raw : Text) (s : Seeds)
      → IsValid s.seeds
      → Leaves (More s) (extract_raw relo_kind number alloc index object object_path little raw s)
  unfolding extract_raw extract_infos
  extract_raw-Extends raw s v =
      if-Leaves (More s) (ltb (length raw) 32) _ _ (failed-Leaves (More s) _) (
        then-Leaves (More s) (read_header little raw) _ (λ header.
          if-Leaves (More s) (not (header.magic == 60319) || not (header.version == 1)) _ _
            (failed-Leaves (More s) _)
            (if-Leaves (More s) (ltb header.hdr_len 32 || ltb (length raw) header.hdr_len) _ _
              (failed-Leaves (More s) _)
              (if-Leaves (More s) (ltb header.hdr_len 32) _ _ (failed-Leaves (More s) _) (
                if-Leaves (More s) (header.core_relo_len == 0) _ _
                  (ok-Leaves (More s) s (Extends-refl s.seeds v))
                  (then-Leaves (More s)
                    (init_ext_info little raw header.hdr_len header.core_relo_off
                      header.core_relo_len 16 (codes "CO-RE relocation") true)
                    _
                    (λ core_info.
                      then-Leaves (More s)
                        (init_ext_info little raw header.hdr_len header.func_info_off
                          header.func_info_len 8 (codes "function info") false)
                        _
                        (λ func_info.
                          then-Leaves (More s)
                            (init_ext_info little raw header.hdr_len header.line_info_off
                              header.line_info_len 16 (codes "line info") false)
                            _
                            (λ line_info.
                              extract_all-Extends raw core_info func_info line_info s v)))))))))

  raw_data-Extends :
      (raw_data : Option Text) (s : Seeds)
      → IsValid s.seeds
      → Leaves (More s) (elim raw_data [
        | none ↦ ran (failed Failure.ext_missing)
        | some raw ↦ extract_raw relo_kind number alloc index object object_path little raw s
      ])
  raw_data-Extends none s v = failed-Leaves (More s) _
  raw_data-Extends (some raw) s v = extract_raw-Extends raw s v

  pub extract_core_relo_seeds-Extends :
      (ext : Option BtfExt) (s : Seeds)
      → IsValid s.seeds
      → Leaves (More s) (
          extract_core_relo_seeds_with_requirements relo_kind number alloc index object object_path
            little ext s)
  unfolding extract_core_relo_seeds_with_requirements
  extract_core_relo_seeds-Extends none s v = ok-Leaves (More s) s (Extends-refl s.seeds v)
  extract_core_relo_seeds-Extends (some ext) s v =
      if-Leaves (More s) (not (same_order little ext.little_endian)) _ _ (failed-Leaves (More s) _)
        (raw_data-Extends ext.raw_data s v)
