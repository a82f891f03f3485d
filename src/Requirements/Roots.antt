-- ===== src/Requirements/Roots.antt =====
-- `add_type_root`: the root joins the roots with a trace, and nothing else changes.
use min_corehdr.Prelude.{
  ℕ, ◌+◌, ◌<◌, ◌≡◌, refl, sym, ap, ◌∙◌, inl, inr, Bool, true, ◌||◌, Option, some, [], ◌∷◌, arith,
  leb, ◌==◌, ==_iff, Bool-cases, is_null, length, length-append,
}
use min_corehdr.Errors.{ok, >>=-eq-ok}
use min_corehdr.Btf.{Btf}
use min_corehdr.TypeSet.{u64}
use min_corehdr.Requirements.{
  TraceKind, type_root, record_member, Origin, Requirements, bitset_contains, bitset_add,
  append_trace, contains_type_root, add_type_root, has_record_members, contains_record_member,
}
use min_corehdr.Requirements.Bitsets.{
  length-bitset_add, bitset_contains-bitset_add, Appended, append_trace-Appended,
}
use min_corehdr.Requirements.Valid.{marks, IsValid, Traced-append, Traced-last, marks-append}

module _ (b : Btf) (r : Requirements) (v : IsValid b r) (id : ℕ) where
  abbrev rooted : Requirements → Requirements
  rooted u = record u {
    type_root_words = bitset_add r.type_root_words r.type_count id;
    type_roots = u64 (r.type_roots + 1);
  }

  module _ (u : Requirements) (a : Appended type_root id 0 r u) (h : id < r.type_count) where
    rooted-root :
        (j : ℕ)
        → contains_type_root (some (rooted u)) j ≡ (j == id || contains_type_root (some r) j)
    unfolding contains_type_root
    rooted-root j =
        rw a.size (bitset_contains-bitset_add r.type_root_words r.type_count id j v.root_room h)

    rooted-kept :
        (j i : ℕ)
        → contains_record_member (some (rooted u)) j i ≡ contains_record_member (some r) j i
    unfolding contains_record_member has_record_members
    rooted-kept j i = rw (a.members, a.counts, a.size) refl

    rooted-marks : (k : TraceKind) (j i : ℕ) → marks k r j i ≡ true → marks k (rooted u) j i ≡ true
    rooted-marks type_root j i c = ground (arith, rooted-root j)
    rooted-marks record_member j i c = rooted-kept j i ∙ c

    rooted-IsValid : IsValid b (rooted u)
    rooted-IsValid = record {
      root_room =
          rw a.size
            (omega (arith, length-bitset_add r.type_root_words r.type_count id, v.root_room));
      words_room = rw (a.size, a.members) v.words_room;
      counts_room = rw (a.size, a.counts) v.counts_room;
      member_room = λ j s. rw (a.members, a.counts) (v.member_room j (rw a.members at s));
      sized = λ j s. rw a.counts (v.sized j (rw a.members at s));
      bounded = a.bounded;
      room = a.room;
      counted = omega (
        arith,
        ap length a.traces,
        length-append r.traces (a.trace ∷ []),
        v.counted,
        v.room,
        v.bounded,
        a.type_roots,
        a.record_members,
      );
      roots_traced = λ j c. elim (Bool-cases (j == id)) [
        | inl e ↦ Traced-last a (sym ((==_iff j id).0 e)) refl
        | inr ne ↦ Traced-append a (v.roots_traced j (ground (arith, rooted-root j)))
      ];
      members_traced = λ j i c. Traced-append a (v.members_traced j i (sym (rooted-kept j i) ∙ c));
      witnessed =
          marks-append a (rooted u) rooted-marks (ground (arith, rooted-root id)) v.witnessed;
    }

  -- What `add_type_root` leaves.
  pub record Rooted (t : Requirements) : Type 0 where
    pub valid : IsValid b t
    pub root : (j : ℕ) → contains_type_root (some t) j ≡ (j == id || contains_type_root (some r) j)
    pub kept : (j i : ℕ) → contains_record_member (some t) j i ≡ contains_record_member (some r) j i

  -- On valid requirements, when `add_type_root` succeeds the type is a root, every other type is a
  -- root exactly as before, the required members are as before, and the result is valid: each root
  -- and each required member has a trace, and each trace stands for one.
  pub add_type_root-Rooted :
      (alloc : ℕ → Bool) (o : Option Origin) (out : Option Requirements)
      → add_type_root alloc (some r) id o ≡ ok out
      → (t : Requirements) × (out ≡ some t) × Rooted t
  unfolding add_type_root
  add_type_root-Rooted alloc o out e =
      elim (Bool-cases (is_null r.type_root_words || leb r.type_count id)) [
        | inl bad ↦ absurd (ground arith)
        | inr good ↦ elim (Bool-cases (bitset_contains r.type_root_words r.type_count id)) [
          | inl old ↦ (
            r,
            ground arith,
            record {
              valid = v;
              root = λ j. unfold contains_type_root in ground arith;
              kept = λ j i. refl;
            },
          )
          | inr new ↦
              let (u, run, last) =
                >>=-eq-ok (append_trace alloc r type_root id 0 o) (λ u. ok (some (rooted u)))
                  {b = out} (ground arith) in
              let a = append_trace-Appended alloc r u type_root id 0 o v.bounded v.room run in
              let h : id < r.type_count = ground arith in
              (
                rooted u,
                ground arith,
                record {
                  valid = rooted-IsValid u a h;
                  root = rooted-root u a h;
                  kept = rooted-kept u a h;
                },
              )
        ]
      ]
