-- ===== src/Requirements.antt =====
-- The requirements (src/requirements.c, include/min_corehdr/requirements.h): a bit set of root
-- types, a bit set of required members for each record type, and the list of traces that explains
-- them. A null `mch_requirements` pointer is `none`. `alloc n` says whether an allocation of `n`
-- bytes succeeds; sizes are those of a 64-bit host.
pub mod Bitsets
pub mod Valid
pub mod Roots
pub mod Ensured
pub mod Members
pub mod Fresh
pub mod Explain
pub mod Witnessed
use min_corehdr.Prelude.{
  ℕ, ◌+◌, ◌-◌, ◌*◌, ◌/◌, ◌^◌, Bool, true, false, not, ◌&&◌, ◌||◌, Option, none, some, List, [], ◌∷◌,
  ◌++◌, ltb, leb, ◌==◌, if◌then◌else◌, get_or, set, replicate, is_null, length, Text, is_empty,
}
use min_corehdr.Errors.{Failure, Result, ok, failed, ◌>>=◌, ◌>>◌, guard}
use min_corehdr.Btf.{Btf, vlen, is_record_kind}
use min_corehdr.TypeSet.{u64, word_count_for_bits, has_bit, put_bit}

pub data TraceKind : Type 0 where
  type_root record_member : TraceKind

pub data Source : Type 0 where
  unknown object_btf core_relo : Source

pub record Origin : Type 0 where
  pub source : Source
  pub object_path : Option Text
  pub detail : Option Text
  pub access : Option Text
  pub location : Option Text

pub record Trace : Type 0 where
  pub kind : TraceKind
  pub source : Source
  pub type_id : ℕ
  pub member_index : ℕ
  pub object_path : Option Text
  pub detail : Option Text
  pub access : Option Text
  pub location : Option Text

-- `traces` holds the `trace_count` entries written; a null `record_member_words[i]` is `none`.
pub record Requirements : Type 0 where
  pub type_root_words : List ℕ
  pub record_member_words : List (Option (List ℕ))
  pub record_member_counts : List ℕ
  pub traces : List Trace
  pub type_count : ℕ
  pub type_root_words_count : ℕ
  pub trace_capacity : ℕ
  pub type_roots : ℕ
  pub record_members : ℕ

abbrev pub cleared : Requirements
cleared = record {
  type_root_words = [];
  record_member_words = [];
  record_member_counts = [];
  traces = [];
  type_count = 0;
  type_root_words_count = 0;
  trace_capacity = 0;
  type_roots = 0;
  record_members = 0;
}

-- The return code 0 is `true`. A failed allocation leaves the structure destroyed.
unfoldable pub init : (ℕ → Bool) → ℕ → Bool × Requirements
init alloc n =
    let wc = word_count_for_bits n in
    let slots = if n == 0 then 1 else n in
    if alloc (wc * 8) && (alloc (slots * 8) && alloc (slots * 8))
    then (
      true,
      record cleared {
        type_root_words = replicate wc 0;
        record_member_words = replicate slots none;
        record_member_counts = replicate slots 0;
        type_count = n;
        type_root_words_count = wc;
      },
    )
    else (false, cleared)

unfoldable pub destroy : Requirements → Requirements
destroy r = cleared

unfoldable pub bitset_contains : List ℕ → ℕ → ℕ → Bool
bitset_contains words count id = if is_null words || leb count id then false else has_bit words id

-- The words that `bitset_add` leaves; every caller ignores its result.
unfoldable pub bitset_add : List ℕ → ℕ → ℕ → List ℕ
bitset_add words count id =
    if is_null words || leb count id
    then words
    else if has_bit words id
    then words
    else put_bit words id

-- A null or empty string is recorded as null, and a failed copy is an error of the caller.
unfoldable pub dup_optional : (ℕ → Bool) → Option Text → Result (Option Text)
dup_optional alloc none = ok none
dup_optional alloc (some value) =
    if is_empty value
    then ok none
    else if alloc (length value + 1)
    then ok (some value)
    else failed Failure.trace_no_memory

-- sizeof(struct mch_requirement_trace)
abbrev pub trace_size : ℕ
trace_size = 48

-- The capacity after `ensure_trace_capacity`.
unfoldable pub ensure_trace_capacity : (ℕ → Bool) → Requirements → Result ℕ
ensure_trace_capacity alloc r =
    let next = if r.trace_capacity == 0 then 16 else u64 (r.trace_capacity * 2) in
    if ltb (length r.traces) r.trace_capacity
    then ok r.trace_capacity
    else if ltb next r.trace_capacity || ltb ((2 ^ 64 - 1) / trace_size) next
    then failed Failure.trace_list_too_large
    else if alloc (next * trace_size)
    then ok next
    else failed Failure.trace_list_no_memory

origin_source : Option Origin → Source
origin_source none = Source.unknown
origin_source (some o) = o.source

origin_text : (Origin → Option Text) → Option Origin → Option Text
origin_text field none = none
origin_text field (some o) = field o

-- The trace that `append_trace` builds, with copies of the texts of its origin.
unfoldable pub make_trace : (ℕ → Bool) → TraceKind → ℕ → ℕ → Option Origin → Result Trace
unfolding origin_source origin_text
make_trace alloc kind type_id member_index origin = do
  guard (leb type_id (2 ^ 32 - 1) && leb member_index (2 ^ 32 - 1)) Failure.trace_unsupported_id
  object_path ← dup_optional alloc (origin_text (λ o. o.object_path) origin)
  detail ← dup_optional alloc (origin_text (λ o. o.detail) origin)
  access ← dup_optional alloc (origin_text (λ o. o.access) origin)
  location ← dup_optional alloc (origin_text (λ o. o.location) origin)
  ok (record {
    kind = kind;
    source = origin_source origin;
    type_id = type_id;
    member_index = member_index;
    object_path = object_path;
    detail = detail;
    access = access;
    location = location;
  })

unfoldable pub append_trace :
    (ℕ → Bool) → Requirements → TraceKind → ℕ → ℕ → Option Origin → Result Requirements
append_trace alloc r kind type_id member_index origin = do
  trace ← make_trace alloc kind type_id member_index origin
  capacity ← ensure_trace_capacity alloc r
  ok (record r { traces = r.traces ++ trace ∷ []; trace_capacity = capacity })

unfoldable pub contains_type_root : Option Requirements → ℕ → Bool
contains_type_root none id = false
contains_type_root (some r) id = bitset_contains r.type_root_words r.type_count id

unfoldable pub add_type_root :
    (ℕ → Bool) → Option Requirements → ℕ → Option Origin → Result (Option Requirements)
add_type_root alloc none id origin = ok none
add_type_root alloc (some r) id origin =
    if is_null r.type_root_words || leb r.type_count id
    then failed (Failure.invalid_type_id id)
    else if bitset_contains r.type_root_words r.type_count id
    then ok (some r)
    else do
      t ← append_trace alloc r TraceKind.type_root id 0 origin
      ok (
          some (record t {
            type_root_words = bitset_add r.type_root_words r.type_count id;
            type_roots = u64 (r.type_roots + 1);
          }))

-- `record_member_words[type_id]`, null out of range
abbrev pub member_words : Requirements → ℕ → Option (List ℕ)
member_words r id = get_or r.record_member_words id none

abbrev pub is_some {ℓ} : {A : Type ℓ} → Option A → Bool
is_some none = false
is_some (some a) = true

abbrev pub words_of : Option (List ℕ) → List ℕ
words_of none = []
words_of (some ws) = ws

unfoldable pub has_record_members : Option Requirements → ℕ → Bool
has_record_members none id = false
has_record_members (some r) id =
    not (is_null r.record_member_words) && (ltb id r.type_count && is_some (member_words r id))

unfoldable pub contains_record_member : Option Requirements → ℕ → ℕ → Bool
contains_record_member none id i = false
contains_record_member (some r) id i =
    if has_record_members (some r) id
    then bitset_contains (words_of (member_words r id)) (get_or r.record_member_counts id 0) i
    else false

-- The lazy allocation of the bit set of one record.
unfoldable pub ensure_members : (ℕ → Bool) → Requirements → ℕ → ℕ → Result Requirements
ensure_members alloc r id member_count =
    let words = word_count_for_bits member_count in
    if is_some (member_words r id)
    then ok r
    else if alloc (words * 8)
    then ok (record r {
      record_member_words = set r.record_member_words id (some (replicate words 0));
      record_member_counts = set r.record_member_counts id member_count;
    })
    else failed Failure.members_no_memory

-- The part of `mch_requirements_add_record_member` behind its checks.
unfoldable pub mark_member : (ℕ → Bool) → Requirements → ℕ → ℕ → Option Origin → Result Requirements
mark_member alloc r id i origin =
    let words = words_of (member_words r id) in
    let count = get_or r.record_member_counts id 0 in
    if bitset_contains words count i then ok r else do
      t ← append_trace alloc r TraceKind.record_member id i origin
      ok (record t {
        record_member_words = set r.record_member_words id (some (bitset_add words count i));
        record_members = u64 (r.record_members + 1);
      })

-- The member count of a record type.
unfoldable pub record_type : Btf → ℕ → Result ℕ
record_type b id = elim (b.type_by_id id) [
  | none ↦ failed (Failure.non_record_type_id id)
  | some t ↦ if is_record_kind t.kind then ok (vlen t) else failed (Failure.non_record_type_id id)
]

unfoldable pub add_record_member :
    (ℕ → Bool) → Btf → Option Requirements → ℕ → ℕ → Option Origin → Result (Option Requirements)
add_record_member alloc b none id i origin = ok none
add_record_member alloc b (some r) id i origin =
    if is_null r.record_member_words || (is_null r.record_member_counts || leb r.type_count id)
    then failed (Failure.invalid_type_id id)
    else do
      member_count ← record_type b id
      guard (ltb i member_count) (Failure.invalid_member i id)
      t ← ensure_members alloc r id member_count
      u ← mark_member alloc t id i origin
      ok (some u)

pub record Stats : Type 0 where
  pub type_roots : ℕ
  pub record_members : ℕ
  pub traces : ℕ

unfoldable pub stats : Option Requirements → Stats
stats none = record { type_roots = 0; record_members = 0; traces = 0 }
stats (some r) = record {
  type_roots = r.type_roots;
  record_members = r.record_members;
  traces = length r.traces;
}
