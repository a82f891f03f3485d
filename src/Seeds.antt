-- ===== src/Seeds.antt =====
-- The types that an object asks for (src/seeds.c, include/min_corehdr/seeds.h): the resolution of
-- an object type to the base BTF, and the seeds from the types of the object. `number` gives the
-- constants of linux/btf.h and `alloc` answers for the allocations of the requirements.
pub mod Kinds
pub mod Unique
pub mod Matches
pub mod Resolve
pub mod Access
pub mod Components
pub mod RoundTrip
pub mod Extends
use min_corehdr.Prelude.{
  ℕ, zero, suc, ◌+◌, ◌-◌, ◌*◌, ◌/◌, ◌%◌, ◌^◌, ◌≤◌, ◌<◌, ◌≡◌, refl, sym, ap, ◌∙◌, ◌≢◌, ◌↔◌, ◌⊎◌, inl,
  inr, ⊎_elim, Bool, true, false, not, ◌&&◌, ◌||◌, Option, none, some, List, [], ◌∷◌, ◌++◌, Memᴰ,
  arith, ltb, leb, ◌==◌, if◌then◌else◌, ltb→lt, lt→ltb, leb→le, ==_iff, Bool-cases, Option-cases,
  List-cases, get_elem?, get_or, set, replicate, is_null, length, length-append, length-set,
  length-replicate, get_or-set, get_or-replicate, get_elem?-get_or, get_elem?-append_left,
  get_elem?-append_last, Memᴰ-cons, Memᴰ-concat, Memᴰ-one, not-Memᴰ-nil, Text, codes, is_empty,
  text_eq, text_eq_iff,
}
use min_corehdr.Errors.{Failure, Result, ok, failed, ◌>>=◌}
use min_corehdr.Btf.{Kind, Btf, BtfType, type_name}
use min_corehdr.TypeSet
use min_corehdr.TypeSet.{TypeSet, u64}
use min_corehdr.Requirements.{Requirements, Source, Origin, add_type_root}
use min_corehdr.Index
use min_corehdr.Index.{Index, Answer, lookup, lookup_anonymous_enum}

unfoldable pub is_seedable_kind : Kind → Bool
is_seedable_kind Kind.struct_k = true
is_seedable_kind Kind.union_k = true
is_seedable_kind Kind.enum = true
is_seedable_kind Kind.enum64 = true
is_seedable_kind Kind.typedef = true
is_seedable_kind Kind.fwd = true
is_seedable_kind _ = false

unfoldable pub is_chain_kind : Kind → Bool
is_chain_kind Kind.typedef = true
is_chain_kind Kind.volatile_k = true
is_chain_kind Kind.const_k = true
is_chain_kind Kind.restrict_k = true
is_chain_kind Kind.type_tag = true
is_chain_kind _ = false

unfoldable pub is_enum : Kind → Bool
is_enum Kind.enum = true
is_enum Kind.enum64 = true
is_enum _ = false

pub record SeedStats : Type 0 where
  pub candidates : ℕ
  pub kernel_types : ℕ
  pub program_local_types : ℕ
  pub core_relocations : ℕ
  pub core_kernel_types : ℕ

abbrev pub stats_init : SeedStats
stats_init = record {
  candidates = 0;
  kernel_types = 0;
  program_local_types = 0;
  core_relocations = 0;
  core_kernel_types = 0;
}

-- A match or none, and an ambiguous one is an error.
unfoldable pub match_of : Answer → Failure → Result (Option ℕ)
match_of Answer.absent e = ok none
match_of (Answer.found id) e = ok (some id)
match_of Answer.ambiguous e = failed e

-- `root_name`, the first name on the chain.
unfoldable pub root_of : Option Text → Text → Option Text
root_of (some root) name = some root
root_of none name = if is_empty name then none else some name

unfoldable pub shown : Option Text → Text
shown (some name) = name
shown none = codes "<anonymous>"

-- What an extraction changes.
pub record Seeds : Type 0 where
  pub seeds : TypeSet
  pub requirements : Option Requirements
  pub stats : SeedStats

module _ (number : Kind → ℕ) (index : Index) (object : Btf) where
  -- The base type for one type of a chain.
  unfoldable pub base_match : BtfType → Result (Option ℕ)
  base_match t =
      if is_seedable_kind t.kind && not (is_empty (type_name object t))
      then match_of (lookup number index (type_name object t) t.kind)
          (Failure.ambiguous_type (type_name object t))
      else if is_enum t.kind && is_empty (type_name object t)
      then match_of (lookup_anonymous_enum number index object t) Failure.ambiguous_anonymous_enum
      else ok none

  -- The loop of `resolve_object_type_to_base` from `id` on, with `left` rounds left. A program-local
  -- type, the result 0, is `none`.
  unfoldable pub resolve_loop : ℕ → ℕ → Bool → Option Text → ℕ → Result (Option ℕ)
  resolve_loop zero object_type_id local root id = failed (Failure.chain_too_deep object_type_id)
  resolve_loop (suc left) object_type_id local root id =
      if id == 0 || leb object.type_cnt id
      then failed (Failure.references_invalid_type id)
      else elim (object.type_by_id id) [
        | none ↦ failed (Failure.object_missing_type id)
        | some t ↦
            let root' = root_of root (type_name object t) in
            let next = resolve_loop left object_type_id local root' t.ref in
            base_match t >>= (λ hit. elim hit [
              | some base ↦ ok (some base)
              | none ↦
                  if is_chain_kind t.kind
                  then next
                  else if local
                  then ok none
                  else failed (Failure.unresolved_type (shown root'))
            ])
      ]

  unfoldable pub resolve_object_type_to_base : ℕ → Bool → Result (Option ℕ)
  resolve_object_type_to_base object_type_id allow_program_local =
      resolve_loop 32 object_type_id allow_program_local none object_type_id

  module _ (alloc : ℕ → Bool) (object_path : Text) where
    pub seed_origin : Origin
    seed_origin = record {
      source = Source.object_btf;
      object_path = some object_path;
      detail = some (codes "seed");
      access = none;
      location = none;
    }

    -- What a resolved type adds.
    unfoldable pub add_seed : Option ℕ → Seeds → Result Seeds
    unfolding seed_origin
    add_seed none s = ok (record s {
      stats = record s.stats {
        candidates = u64 (s.stats.candidates + 1);
        program_local_types = u64 (s.stats.program_local_types + 1);
      };
    })
    add_seed (some base) s = do
      requirements ← add_type_root alloc s.requirements base (some seed_origin)
      let (fresh, seeds) = TypeSet.add s.seeds base
      ok (record {
        seeds = seeds;
        requirements = requirements;
        stats = record s.stats {
          candidates = u64 (s.stats.candidates + 1);
          kernel_types = if fresh then u64 (s.stats.kernel_types + 1) else s.stats.kernel_types;
        };
      })

    -- The body of the loop, on one object id.
    unfoldable pub seed_type : ℕ → Seeds → Result Seeds
    seed_type id s = elim (object.type_by_id id) [
      | none ↦ failed (Failure.object_missing_type id)
      | some t ↦
          if not (is_seedable_kind t.kind)
          then ok s
          else if is_empty (type_name object t) && not (is_enum t.kind)
          then ok s
          else resolve_object_type_to_base id true >>= (λ hit. add_seed hit s)
    ]

    -- The object ids from `id` on, `left` of them.
    unfoldable pub seed_types : ℕ → ℕ → Seeds → Result Seeds
    seed_types zero id s = ok s
    seed_types (suc left) id s = seed_type id s >>= seed_types left (id + 1)

    unfoldable pub extract_object_seeds_with_requirements : Seeds → Result Seeds
    extract_object_seeds_with_requirements s = seed_types (object.type_cnt - 1) 1 s

    unfoldable pub extract_object_seeds : TypeSet → SeedStats → Result Seeds
    extract_object_seeds seeds stats =
        extract_object_seeds_with_requirements
          (record { seeds = seeds; requirements = none; stats = stats })
