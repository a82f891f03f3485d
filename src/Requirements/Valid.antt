-- ===== src/Requirements/Valid.antt =====
-- Every root and every required member has a trace, and every trace stands for one.
use min_corehdr.Prelude.{
  ℕ, ◌+◌, ◌-◌, ◌*◌, ◌/◌, ◌^◌, ◌≤◌, ◌≡◌, refl, ◌∙◌, inl, inr, Bool, true, some, List, Memᴰ, get_or,
  length, Memᴰ-concat,
}
use min_corehdr.Errors.{ok}
use min_corehdr.Btf.{Btf}
use min_corehdr.Requirements.{
  TraceKind, type_root, record_member, Trace, Requirements, trace_size, contains_type_root,
  member_words, is_some, words_of, contains_record_member, record_type,
}
use min_corehdr.Requirements.Bitsets.{Appended}

-- The fact that a trace of this kind stands for.
abbrev pub marks : TraceKind → Requirements → ℕ → ℕ → Bool
marks type_root r id i = contains_type_root (some r) id
marks record_member r id i = contains_record_member (some r) id i

-- A trace of this kind names the type and the member.
pub record Traced (traces : List Trace) (kind : TraceKind) (id i : ℕ) : Type 0 where
  pub trace : Trace
  pub listed : Memᴰ trace traces
  pub kind_eq : trace.kind ≡ kind
  pub type_eq : trace.type_id ≡ id
  pub member_eq : trace.member_index ≡ i

-- Requirements over the types of `b`.
pub record IsValid (b : Btf) (r : Requirements) : Type 0 where
  pub root_room : r.type_count ≤ length r.type_root_words * 64
  pub words_room : r.type_count ≤ length r.record_member_words
  pub counts_room : r.type_count ≤ length r.record_member_counts
  pub member_room :
      (id : ℕ)
      → is_some (member_words r id) ≡ true
      → get_or r.record_member_counts id 0 ≤ length (words_of (member_words r id)) * 64
  pub sized :
      (id : ℕ)
      → is_some (member_words r id) ≡ true
      → record_type b id ≡ ok (get_or r.record_member_counts id 0)
  pub bounded : r.trace_capacity ≤ (2 ^ 64 - 1) / trace_size
  pub room : length r.traces ≤ r.trace_capacity
  pub counted : length r.traces ≡ r.type_roots + r.record_members
  pub roots_traced :
      (id : ℕ) → contains_type_root (some r) id ≡ true → Traced r.traces type_root id 0
  pub members_traced :
      (id i : ℕ) → contains_record_member (some r) id i ≡ true → Traced r.traces record_member id i
  pub witnessed :
      (trace : Trace)
      → Memᴰ trace r.traces
      → marks trace.kind r trace.type_id trace.member_index ≡ true

module _ {r t : Requirements} {kind : TraceKind} {id i : ℕ} (a : Appended kind id i r t) where
  pub Traced-append : {k : TraceKind} {j m : ℕ} → Traced r.traces k j m → Traced t.traces k j m
  Traced-append w = record {
    trace = w.trace;
    listed = rw a.traces ((Memᴰ-concat w.trace a.trace r.traces).1 (inl w.listed));
    kind_eq = w.kind_eq;
    type_eq = w.type_eq;
    member_eq = w.member_eq;
  }

  pub Traced-last : {j m : ℕ} → id ≡ j → i ≡ m → Traced t.traces kind j m
  Traced-last e f = record {
    trace = a.trace;
    listed = rw a.traces ((Memᴰ-concat a.trace a.trace r.traces).1 (inr refl));
    kind_eq = a.trace_kind;
    type_eq = a.trace_type ∙ e;
    member_eq = a.trace_member ∙ f;
  }

  -- If all old facts stay and the new one holds, every trace is good.
  pub marks-append :
      (s : Requirements)
      → ((k : TraceKind) (j m : ℕ) → marks k r j m ≡ true → marks k s j m ≡ true)
      → marks kind s id i ≡ true
      → ((trace : Trace)
          → Memᴰ trace r.traces
          → marks trace.kind r trace.type_id trace.member_index ≡ true)
      → (trace : Trace) → Memᴰ trace t.traces
      → marks trace.kind s trace.type_id trace.member_index ≡ true
  marks-append s keep fresh good trace m =
      elim ((Memᴰ-concat trace a.trace r.traces).0 (rw a.traces at m)) [
        | inl old ↦ keep trace.kind trace.type_id trace.member_index (good trace old)
        | inr new ↦ simp (new, a.trace_kind, a.trace_type, a.trace_member) fresh
      ]
