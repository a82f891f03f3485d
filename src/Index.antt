-- ===== src/Index.antt =====
-- The index of the base BTF (src/btf_index.c, include/min_corehdr/btf_index.h): a chained hash table
-- from a name and a kind to the one type that has them. `alloc n` says whether an allocation of `n`
-- bytes succeeds, and `number` gives the constants of linux/btf.h, which the hash mixes in.
pub mod Chains
pub mod Insert
pub mod Answers
pub mod Build
pub mod SameEnum
pub mod Enums
use min_corehdr.Prelude.{
  ℕ, zero, suc, ◌+◌, ◌-◌, ◌*◌, ◌/◌, ◌%◌, ◌^◌, ◌≤◌, ◌<◌, ◌≡◌, refl, sym, ap, ◌∙◌, ◌≢◌, ◌↔◌, ◌⊎◌, inl,
  inr, ⊎_elim, Bool, true, false, not, ◌&&◌, ◌||◌, Option, none, some, List, [], ◌∷◌, ◌++◌, Memᴰ,
  arith, ltb, leb, ◌==◌, if◌then◌else◌, ltb→lt, lt→ltb, leb→le, ==_iff, Bool-cases, Option-cases,
  List-cases, get_elem?, get_or, set, replicate, is_null, length, length-append, length-set,
  length-replicate, get_or-set, get_or-replicate, get_elem?-get_or, get_elem?-append_left,
  get_elem?-append_last, Memᴰ-cons, Memᴰ-concat, Memᴰ-one, not-Memᴰ-nil, Text, codes, is_empty,
  text_eq, text_eq_iff,
}
use Prim.Native.Nat.{bit_and, bit_xor}
use min_corehdr.Errors.{Failure, Result, ok, failed}
use min_corehdr.Btf.{Kind, Btf, BtfType, EnumValue, Enum64Value, type_name}

pub record Entry : Type 0 where
  pub name : Text
  pub type_id : ℕ
  pub next : ℕ
  pub kind : Kind
  pub ambiguous : Bool

-- `entries` holds the `entry_count` slots written; a null `btf` is `none`.
pub record Index : Type 0 where
  pub btf : Option Btf
  pub buckets : List ℕ
  pub entries : List Entry
  pub bucket_count : ℕ

-- UINT32_MAX ends a chain.
abbrev pub end_of_chain : ℕ
end_of_chain = 2 ^ 32 - 1

unfoldable pub is_indexed_kind : Kind → Bool
is_indexed_kind Kind.struct_k = true
is_indexed_kind Kind.union_k = true
is_indexed_kind Kind.enum = true
is_indexed_kind Kind.enum64 = true
is_indexed_kind Kind.typedef = true
is_indexed_kind Kind.fwd = true
is_indexed_kind _ = false

-- The loop of `next_power_of_two`; `result` doubles at most 64 times.
unfoldable pub power_loop : ℕ → ℕ → ℕ → ℕ
power_loop zero value result = result
power_loop (suc fuel) value result =
    let rest = power_loop fuel value (result * 2) in
    if ltb result value && leb result ((2 ^ 64 - 1) / 2) then rest else result

unfoldable pub next_power_of_two : ℕ → ℕ
unfolding power_loop
next_power_of_two value =
    let result = power_loop 64 value 1 in if ltb result value then value else result

unfoldable pub hash_bytes : ℕ → Text → ℕ
hash_bytes hash [] = hash
hash_bytes hash (c ∷ s) = hash_bytes (bit_xor hash c * 16777619 % 2 ^ 32) s

hash_bytes-lt : (s : Text) (hash : ℕ) → hash < 2 ^ 32 → hash_bytes hash s < 2 ^ 32
unfolding hash_bytes
hash_bytes-lt [] hash h = h
hash_bytes-lt (c ∷ s) hash h = hash_bytes-lt s _ (omega arith)

unfoldable pub hash_name_kind : Text → ℕ → ℕ
unfolding hash_bytes
hash_name_kind name kind = hash_bytes (bit_xor 2166136261 (kind % 2 ^ 8) * 16777619 % 2 ^ 32) name

abbrev pub init_empty : Index
init_empty = record { btf = none; buckets = []; entries = []; bucket_count = 0 }

unfoldable pub destroy : Index → Index
destroy index = init_empty

-- What a lookup answers: 0, 1 with the type id, or -1.
pub data Answer : Type 0 where
  absent : Answer
  found : ℕ → Answer
  ambiguous : Answer

module _ (number : Kind → ℕ) where
  -- `entry->kind == kind && strcmp(entry->name, name) == 0`
  unfoldable pub same_key : Entry → Text → Kind → Bool
  same_key e name kind = number e.kind == number kind && text_eq e.name name

  unfoldable pub bucket_of : Index → Text → Kind → ℕ
  bucket_of index name kind =
      bit_and (hash_name_kind name (number kind)) ((index.bucket_count - 1) % 2 ^ 32)

  -- The walk of a chain from an entry id, to the position of the entry that matches. A chain leads
  -- to ever smaller positions, so as many rounds as there are entries are enough.
  unfoldable pub walk : ℕ → List Entry → Text → Kind → ℕ → Option ℕ
  walk zero entries name kind id = none
  walk (suc fuel) entries name kind id =
      let entry : Option ℕ = elim (get_elem? entries id) [
        | none ↦ none
        | some e ↦
            let rest = walk fuel entries name kind e.next in
            if same_key e name kind then some id else rest
      ] in
      if id == end_of_chain then none else entry

  unfoldable pub head_of : Index → Text → Kind → ℕ
  unfolding bucket_of
  head_of index name kind = get_or index.buckets (bucket_of index name kind) end_of_chain

  unfoldable pub find_entry : Index → Text → Kind → Option ℕ
  find_entry index name kind =
      walk (length index.entries) index.entries name kind (head_of index name kind)

  unfoldable pub mark_ambiguous : List Entry → ℕ → List Entry
  mark_ambiguous [] i = []
  mark_ambiguous (e ∷ es) zero = record e { ambiguous = true; type_id = 0 } ∷ es
  mark_ambiguous (e ∷ es) (suc i) = e ∷ mark_ambiguous es i

  unfoldable pub insert : Index → Text → Kind → ℕ → Index
  insert index name kind id = elim (find_entry index name kind) [
    | some at ↦ record index { entries = mark_ambiguous index.entries at }
    | none ↦
        let entry : Entry = record {
          name = name;
          type_id = id;
          next = head_of index name kind;
          kind = kind;
          ambiguous = false;
        } in
        record index {
          entries = index.entries ++ entry ∷ [];
          buckets = set index.buckets (bucket_of index name kind) (length index.entries);
        }
  ]

  unfoldable pub answer_of : List Entry → Option ℕ → Answer
  answer_of entries none = absent
  answer_of entries (some at) = elim (get_elem? entries at) [
    | none ↦ absent
    | some e ↦ if e.ambiguous then ambiguous else found e.type_id
  ]

  unfoldable pub lookup : Index → Text → Kind → Answer
  lookup index name kind =
      if index.bucket_count == 0 || is_empty name
      then absent
      else answer_of index.entries (find_entry index name kind)

  -- The body of the loop of `mch_btf_index_init`, on one id.
  unfoldable pub index_type : Btf → ℕ → Index → Index
  index_type b id index = elim (b.type_by_id id) [
    | none ↦ index
    | some t ↦
        if not (is_indexed_kind t.kind)
        then index
        else if is_empty (type_name b t)
        then index
        else insert index (type_name b t) t.kind id
  ]

  -- The ids from `id` on, `left` of them.
  unfoldable pub fill : Btf → ℕ → ℕ → Index → Index
  fill b zero id index = index
  fill b (suc left) id index = fill b left (id + 1) (index_type b id index)

  -- sizeof(struct mch_btf_index_entry)
  abbrev pub entry_size : ℕ
  entry_size = 24

  unfoldable pub init : (ℕ → Bool) → Btf → Result Index
  init alloc b =
      let capacity = if ltb 1 b.type_cnt then b.type_cnt - 1 else 1 in
      let buckets = next_power_of_two (capacity * 2) in
      if ltb (2 ^ 32 - 1) capacity || ltb ((2 ^ 64 - 1) / 2) capacity
      then failed Failure.index_too_large
      else if ltb (2 ^ 32 - 1) buckets
      then failed Failure.index_too_large
      else if alloc (buckets * 4) && alloc (capacity * entry_size)
      then ok (
          fill b (b.type_cnt - 1) 1 (record {
            btf = some b;
            buckets = replicate buckets end_of_chain;
            entries = [];
            bucket_count = buckets;
          }))
      else failed Failure.index_no_memory

  abbrev pub names_match : Option Text → Option Text → Bool
  names_match (some l) (some r) = text_eq l r
  names_match (some l) none = false
  names_match none r = false

  pub values_match : Btf → List EnumValue → Btf → List EnumValue → Bool
  values_match lb [] rb [] = true
  values_match lb [] rb (r ∷ rs) = false
  values_match lb (l ∷ ls) rb [] = false
  values_match lb (l ∷ ls) rb (r ∷ rs) =
      names_match (lb.name_by_offset l.name_off) (rb.name_by_offset r.name_off)
      && ((l.val == r.val) && values_match lb ls rb rs)

  pub values64_match : Btf → List Enum64Value → Btf → List Enum64Value → Bool
  values64_match lb [] rb [] = true
  values64_match lb [] rb (r ∷ rs) = false
  values64_match lb (l ∷ ls) rb [] = false
  values64_match lb (l ∷ ls) rb (r ∷ rs) =
      names_match (lb.name_by_offset l.name_off) (rb.name_by_offset r.name_off)
      && ((l.val_lo32 == r.val_lo32) && ((l.val_hi32 == r.val_hi32) && values64_match lb ls rb rs))

  abbrev pub bool_eq : Bool → Bool → Bool
  bool_eq true c = c
  bool_eq false c = not c

  -- The enumerators of an enum, matched pairwise; the lists have one length exactly if `btf_vlen`
  -- agrees.
  pub enumerators_match : Kind → Btf → BtfType → Btf → BtfType → Bool
  unfolding values_match values64_match
  enumerators_match Kind.enum base t object u = values_match base t.values object u.values
  enumerators_match _ base t object u = values64_match base t.values64 object u.values64

  unfoldable pub anonymous_enum_matches : Btf → BtfType → Btf → BtfType → Bool
  unfolding enumerators_match
  anonymous_enum_matches base t object u =
      number t.kind == number u.kind
      && ((t.ref == u.ref)
          && (bool_eq t.kflag u.kflag
              && (is_empty (type_name base t) && enumerators_match t.kind base t object u)))

  pub is_enum_kind : Kind → Bool
  is_enum_kind Kind.enum = true
  is_enum_kind Kind.enum64 = true
  is_enum_kind _ = false

  pub matches_at : Btf → Btf → BtfType → ℕ → Bool
  matches_at base object u id = elim (base.type_by_id id) [
    | none ↦ false
    | some t ↦ anonymous_enum_matches base t object u
  ]

  -- The loop over `left` base ids from `id` on, with the match found so far.
  unfoldable pub enum_loop : Btf → Btf → BtfType → ℕ → ℕ → Option ℕ → Answer
  unfolding matches_at
  enum_loop base object u zero id none = absent
  enum_loop base object u zero id (some m) = found m
  enum_loop base object u (suc left) id none =
      enum_loop base object u left (id + 1) (if matches_at base object u id then some id else none)
  enum_loop base object u (suc left) id (some m) =
      let rest = enum_loop base object u left (id + 1) (some m) in
      if matches_at base object u id then ambiguous else rest

  unfoldable pub lookup_anonymous_enum : Index → Btf → BtfType → Answer
  unfolding is_enum_kind
  lookup_anonymous_enum index object u = elim index.btf [
    | none ↦ absent
    | some base ↦
        if is_enum_kind u.kind && is_empty (type_name object u)
        then enum_loop base object u (base.type_cnt - 1) 1 none
        else absent
  ]
