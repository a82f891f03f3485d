-- ===== src/Requirements/Bitsets.antt =====
-- The bit sets of the requirements, and the growth of the trace list.
use min_corehdr.Prelude.{
  ℕ, ◌-◌, ◌*◌, ◌/◌, ◌^◌, ◌≤◌, ◌<◌, ◌≡◌, refl, Bool, true, false, ◌||◌, Option, List, [], ◌∷◌, ◌++◌,
  arith, ◌==◌, replicate, is_null, length, length-append,
}
use min_corehdr.Errors.{ok, >>=-eq-ok}
use min_corehdr.TypeSet.{put_bit}
use min_corehdr.TypeSet.Words.{has_bit-put_bit, length-put_bit, has_bit-replicate}
use min_corehdr.Requirements.{
  TraceKind, Trace, Origin, Requirements, bitset_contains, bitset_add, append_trace, make_trace,
  ensure_trace_capacity, trace_size,
}

is_null-eq : {A : Type 0} (xs : List A) → is_null xs ≡ (length xs == 0)
is_null-eq [] = refl
is_null-eq (x ∷ xs) = ground arith

pub is_null-eq_false : {A : Type 0} (xs : List A) → 0 < length xs → is_null xs ≡ false
is_null-eq_false xs h = ground (arith, is_null-eq xs)

pub length-bitset_add : (ws : List ℕ) (count id : ℕ) → length (bitset_add ws count id) ≡ length ws
unfolding bitset_add
length-bitset_add ws count id = ground (arith, length-put_bit ws id)

-- A bit set with a bit for each id below its count gains the id that is added.
pub bitset_contains-bitset_add :
    (ws : List ℕ) (count id j : ℕ)
    → count ≤ length ws * 64
    → id < count
    → bitset_contains (bitset_add ws count id) count j ≡ (j == id || bitset_contains ws count j)
unfolding bitset_contains bitset_add
bitset_contains-bitset_add ws count id j room h =
    let there = is_null-eq_false ws (omega arith) in
    let kept = is_null-eq_false (put_bit ws id) (omega (arith, length-put_bit ws id)) in
    ground (arith, there, kept, has_bit-put_bit ws id j)

pub bitset_contains-lt :
    (ws : List ℕ) (count id : ℕ) → bitset_contains ws count id ≡ true → id < count
unfolding bitset_contains
bitset_contains-lt ws count id h = ground arith

pub bitset_contains-replicate : (n count id : ℕ) → bitset_contains (replicate n 0) count id ≡ false
unfolding bitset_contains
bitset_contains-replicate n count id = ground (arith, has_bit-replicate n id)

-- One trace has been appended, and nothing else has changed but the capacity.
pub record Appended (kind : TraceKind) (id i : ℕ) (r t : Requirements) : Type 0 where
  pub roots : t.type_root_words ≡ r.type_root_words
  pub members : t.record_member_words ≡ r.record_member_words
  pub counts : t.record_member_counts ≡ r.record_member_counts
  pub size : t.type_count ≡ r.type_count
  pub type_roots : t.type_roots ≡ r.type_roots
  pub record_members : t.record_members ≡ r.record_members
  pub trace : Trace
  pub traces : t.traces ≡ r.traces ++ trace ∷ []
  pub trace_kind : trace.kind ≡ kind
  pub trace_type : trace.type_id ≡ id
  pub trace_member : trace.member_index ≡ i
  pub room : length t.traces ≤ t.trace_capacity
  pub bounded : t.trace_capacity ≤ (2 ^ 64 - 1) / trace_size

ensure_trace_capacity-bounds :
    (alloc : ℕ → Bool) (r : Requirements) (c : ℕ)
    → r.trace_capacity ≤ (2 ^ 64 - 1) / trace_size
    → length r.traces ≤ r.trace_capacity
    → ensure_trace_capacity alloc r ≡ ok c
    → (length r.traces < c) × (c ≤ (2 ^ 64 - 1) / trace_size)
unfolding ensure_trace_capacity
ensure_trace_capacity-bounds alloc r c h room e = ground arith

make_trace-fields :
    (alloc : ℕ → Bool) (kind : TraceKind) (id i : ℕ) (o : Option Origin) (tr : Trace)
    → make_trace alloc kind id i o ≡ ok tr
    → (tr.kind ≡ kind) × (tr.type_id ≡ id) × (tr.member_index ≡ i)
unfolding make_trace
make_trace-fields alloc kind id i o tr e = ground arith

pub append_trace-Appended :
    (alloc : ℕ → Bool) (r t : Requirements) (kind : TraceKind) (id i : ℕ) (o : Option Origin)
    → r.trace_capacity ≤ (2 ^ 64 - 1) / trace_size
    → length r.traces ≤ r.trace_capacity
    → append_trace alloc r kind id i o ≡ ok t
    → Appended kind id i r t
unfolding append_trace
append_trace-Appended alloc r t kind id i o h room e =
    let (tr, made, e₁) = >>=-eq-ok (make_trace alloc kind id i o) _ e in
    let (c, grown, e₂) = >>=-eq-ok (ensure_trace_capacity alloc r) _ e₁ in
    let (k, ty, m) = make_trace-fields alloc kind id i o tr made in
    let (more, most) = ensure_trace_capacity-bounds alloc r c h room grown in
    let same : record r { traces = r.traces ++ tr ∷ []; trace_capacity = c } ≡ t = cc in
    rw (← same) (record {
      roots = refl;
      members = refl;
      counts = refl;
      size = refl;
      type_roots = refl;
      record_members = refl;
      trace = tr;
      traces = refl;
      trace_kind = k;
      trace_type = ty;
      trace_member = m;
      room = omega (arith, length-append r.traces (tr ∷ []));
      bounded = most;
    })
