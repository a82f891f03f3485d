-- ===== src/Requirements/Witnessed.antt =====
-- Valid requirements can be explained, and the explanation names every root and every member.
use min_corehdr.Prelude.{
  ℕ, ◌<◌, ◌≡◌, refl, sym, ap, ◌∙◌, ◌≢◌, inl, inr, true, none, some, List, [], ◌∷◌, ◌++◌, Memᴰ,
  arith, Option-cases, List-cases, get_or, length, get_elem?-some, Memᴰ-cons, not-Memᴰ-nil, Text,
  codes,
}
use mathlib.Core.Path.{subst}
use min_corehdr.Prelude.Within.{Within, Within-left}
use min_corehdr.Errors.{ok, ◌>>=◌, >>=-eq-ok}
use min_corehdr.Btf.{Btf, BtfType, vlen, is_record_kind}
use min_corehdr.Requirements.{
  TraceKind, type_root, record_member, Trace, Requirements, contains_type_root,
  contains_record_member, has_record_members, member_words, is_some, words_of, record_type,
  bitset_contains,
}
use min_corehdr.Requirements.Bitsets.{bitset_contains-lt}
use min_corehdr.Requirements.Valid.{IsValid, Traced, marks}
use min_corehdr.Requirements.Explain.{
  root_line, member_line, fact_line, origin_text, trace_line, trace_lines, checked,
  write_explanation,
}

module _ (b : Btf) where
  -- The traces have lines, and each of them is in the text.
  record Printed (traces : List Trace) : Type 0 where
    text : Text
    run : trace_lines b traces ≡ ok text
    each :
        (trace : Trace)
        → Memᴰ trace traces
        → (line : Text) × (trace_line b trace ≡ ok line) × Within line text

  trace_lines-Printed :
      (traces : List Trace)
      → ((trace : Trace) → Memᴰ trace traces → (line : Text) × (trace_line b trace ≡ ok line))
      → Printed traces
  unfolding trace_lines
  trace_lines-Printed [] h = record {
    text = [];
    run = refl;
    each = λ trace m. absurd (not-Memᴰ-nil trace m);
  }
  trace_lines-Printed (first ∷ traces) h =
      let (line, e) = h first ((Memᴰ-cons first first traces).1 (inl refl)) in
      let rest =
        trace_lines-Printed traces
          (λ trace m. h trace ((Memᴰ-cons trace first traces).1 (inr m))) in
      record {
        text = line ++ rest.text;
        run = rw (e, rest.run) refl;
        each = λ trace m. elim ((Memᴰ-cons trace first traces).0 m) [
          | inl here ↦ (line, rw here e, record { front = []; back = rest.text; split = refl })
          | inr there ↦
              let (own, at, inside) = rest.each trace there in
              (own, at, Within-left own rest.text line inside)
        ];
      }

  -- A required member is a member of its record.
  member_of :
      (r : Requirements) (id i : ℕ)
      → IsValid b r
      → contains_record_member (some r) id i ≡ true
      → (t : BtfType) × (b.type_by_id id ≡ some t) × (i < vlen t) × (is_record_kind t.kind ≡ true)
  unfolding contains_record_member has_record_members record_type
  member_of r id i v h =
      let has : is_some (member_words r id) ≡ true = ground (arith, h) in
      let marked : bitset_contains (words_of (member_words r id))
            (get_or r.record_member_counts id 0) i
          ≡ true =
        ground (arith, h) in
      let inside =
        bitset_contains-lt (words_of (member_words r id)) (get_or r.record_member_counts id 0) i
          marked in
      let sized = v.sized id has in
      elim (Option-cases (b.type_by_id id)) [
        | inl gone ↦ absurd (ground (arith, sized, gone))
        | inr (t, at) ↦
            let both : (is_record_kind t.kind ≡ true)
                × (vlen t ≡ get_or r.record_member_counts id 0) =
              ground (arith, sized, at) in
            (t, at, omega (arith, inside, both.1), both.0)
      ]

  vlen-members : (t : BtfType) → is_record_kind t.kind ≡ true → vlen t ≡ length t.members
  unfolding vlen is_record_kind
  vlen-members t h = ground (arith, h)

  trace_line-some :
      (trace : Trace) (t : BtfType)
      → b.type_by_id trace.type_id ≡ some t
      → trace_line b trace ≡ (
          fact_line b trace.kind trace.type_id trace.member_index t
          >>= (λ fact. ok (fact ++ origin_text b trace)))
  unfolding trace_line
  trace_line-some trace t at = ground (arith, at)

  module _ (r : Requirements) (v : IsValid b r)
      (roots : (id : ℕ)
        → contains_type_root (some r) id ≡ true
        → (t : BtfType) × (b.type_by_id id ≡ some t)) where
    has_fact :
        (kind : TraceKind) (id i : ℕ)
        → marks kind r id i ≡ true
        → (t : BtfType) × (b.type_by_id id ≡ some t)
          × (line : Text) × (fact_line b kind id i t ≡ ok line)
    unfolding fact_line
    has_fact type_root id i marked = let (t, at) = roots id marked in (t, at, root_line b t, refl)
    has_fact record_member id i marked =
        let (t, at, inside, kind) = member_of r id i v marked in
        let (m, here) = get_elem?-some t.members i (omega (arith, inside, vlen-members t kind)) in
        (t, at, member_line b t m, ground (arith, here, inside))

    has_line :
        (trace : Trace) → Memᴰ trace r.traces → (line : Text) × (trace_line b trace ≡ ok line)
    has_line trace listed =
        let (t, at, line, e) =
          has_fact trace.kind trace.type_id trace.member_index (v.witnessed trace listed) in
        (
          line ++ origin_text b trace,
          trace_line-some trace t at ∙ ap (λ r. r >>= (λ fact. ok (fact ++ origin_text b trace))) e,
        )

    lines : Printed r.traces
    lines = trace_lines-Printed r.traces has_line

  -- The text has a line with this beginning that a trace of this kind gives.
  pub record Explained (traces : List Trace) (kind : TraceKind) (id i : ℕ) (text : Text)
      : Type 0 where
    pub traced : Traced traces kind id i
    pub type : BtfType
    pub typed : b.type_by_id id ≡ some type
    pub fact : Text
    pub fact_eq : fact_line b kind id i type ≡ ok fact
    pub inside : Within (fact ++ origin_text b traced.trace) text

  trace_line-none :
      (trace : Trace) (line : Text)
      → b.type_by_id trace.type_id ≡ none
      → trace_line b trace ≢ ok line
  unfolding trace_line
  trace_line-none trace line gone e = ground (arith, gone, e)

  silent :
      {kind : TraceKind} {id i : ℕ} {traces : List Trace} → traces ≡ [] → ¬ Traced traces kind id i
  silent nil traced = not-Memᴰ-nil traced.trace (rw nil at traced.listed)

  ok-inj : {A : Type 0} {x y : A} → ok x ≡ ok y → x ≡ y
  ok-inj e = cc e

  fact-Explained :
      (r : Requirements) (kind : TraceKind) (id i : ℕ) (text : Text)
      → (all : Printed r.traces) → ((line : Text) → Within line all.text → Within line text)
      → Traced r.traces kind id i
      → Explained r.traces kind id i text
  fact-Explained r kind id i text all wider traced =
      let trace = traced.trace in
      let (line, run, inside) = all.each trace traced.listed in
      elim (Option-cases (b.type_by_id trace.type_id)) [
        | inl gone ↦ absurd (trace_line-none trace line gone run)
        | inr (t, at) ↦
            let (fact, e, last) =
              >>=-eq-ok _ (λ fact. ok (fact ++ origin_text b trace))
                (sym (trace_line-some trace t at) ∙ run) in
            record {
              traced = traced;
              type = t;
              typed = rw (← traced.type_eq) at;
              fact = fact;
              fact_eq = rw (← traced.kind_eq, ← traced.type_eq, ← traced.member_eq) e;
              inside = wider _ (subst (λ x. Within x all.text) (sym (ok-inj last)) inside);
            }
      ]

  -- For valid requirements whose roots are types of the BTF, and a stream without an error, the
  -- explanation is written, and for every root and every required member it has a line.
  pub write_explanation-Explained :
      (r : Requirements)
      → IsValid b r
      → ((id : ℕ)
          → contains_type_root (some r) id ≡ true
          → (t : BtfType) × (b.type_by_id id ≡ some t))
      → (text : Text) × (write_explanation b true (some r) ≡ ok text)
        × ((id : ℕ)
            → contains_type_root (some r) id ≡ true
            → Explained r.traces type_root id 0 text)
        × ((id i : ℕ)
            → contains_record_member (some r) id i ≡ true
            → Explained r.traces record_member id i text)
  unfolding write_explanation checked
  write_explanation-Explained r v roots =
      let all = lines r v roots in
      elim (List-cases r.traces) [
        | inl nil ↦ (
          codes "requirements:\n" ++ codes "  direct requirements: 0\n",
          rw nil refl,
          λ id h. absurd (silent nil (v.roots_traced id h)),
          λ id i h. absurd (silent nil (v.members_traced id i h)),
        )
        | inr (first, rest, e) ↦
            let wider : (line : Text)
                → Within line all.text
                → Within line (codes "requirements:\n" ++ all.text) =
              λ line w. Within-left line all.text (codes "requirements:\n") w in
            (
              codes "requirements:\n" ++ all.text,
              ground (arith, e, all.run),
              λ id h. fact-Explained r type_root id 0 _ all wider (v.roots_traced id h),
              λ id i h. fact-Explained r record_member id i _ all wider (v.members_traced id i h),
            )
      ]
