-- ===== src/Emitter/Written.antt =====
-- A definition that is written: its state, and its text behind what it needs.
use min_corehdr.Prelude.{
  ℕ, ◌<◌, ◌≡◌, sym, ap, ◌∙◌, ◌≢◌, inl, inr, Option, [], ◌++◌, arith, ◌==◌, if◌then◌else◌, ==_iff,
  Bool-cases, get_or, set, length-set, get_or-set, Text,
}
use mathlib.Core.List.{append-nil, append_assoc}
use mathlib.Core.Path.{subst}
use min_corehdr.Errors.{ok}
use min_corehdr.Btf.{Btf, BtfType}
use min_corehdr.Requirements.{Requirements}
use min_corehdr.Emitter.Names.{type_at}
use min_corehdr.Emitter.Order.{Emission, write, set_record, set_typedef, record_text, typedef_text}
use min_corehdr.Prelude.Within.{Within, Within-left, Within-right}
use min_corehdr.Emitter.Grows.{Settles, RecordText, TypedefText, Room, Grows}

pub type_at-lt : (b : Btf) (id : ℕ) (t : BtfType) → type_at b id ≡ ok t → id < b.type_cnt
unfolding type_at
type_at-lt b id t e = ground arith

Within-refl : (text : Text) → Within text text
Within-refl text = record { front = []; back = []; split = sym (append-nil text) }

record-Room :
    (b : Btf) (u : Emission) (id v : ℕ) (text : Text)
    → Room b u
    → Room b (set_record id v (write text u))
record-Room b u id v text r = record {
  records = omega (arith, length-set u.record_state id v, r.records);
  fwds = r.fwds;
  typedefs = r.typedefs;
}

record-Settles :
    (s u : Emission) (id j : ℕ)
    → get_or (set s.record_state id 1) j 0 ≡ (if j == id then 1 else get_or s.record_state j 0)
    → get_or (set u.record_state id 2) j 0 ≡ (if j == id then 2 else get_or u.record_state j 0)
    → get_or s.record_state id 0 ≢ 1
    → Settles (get_or (set s.record_state id 1) j 0) (get_or u.record_state j 0)
    → Settles (get_or s.record_state j 0) (get_or (set u.record_state id 2) j 0)
record-Settles s u id j begun done fresh g = elim (Bool-cases (j == id)) [
  | inl same ↦ let eq = (==_iff j id).0 same in inr (rw eq fresh, ground (arith, done))
  | inr other ↦
      let p : get_or (set s.record_state id 1) j 0 ≡ get_or s.record_state j 0 =
        ground (arith, begun) in
      let q : get_or (set u.record_state id 2) j 0 ≡ get_or u.record_state j 0 =
        ground (arith, done) in
      rw (← p, q) g
]

typedef-Room :
    (b : Btf) (u : Emission) (id v : ℕ) (text : Text)
    → Room b u
    → Room b (set_typedef id v (write text u))
typedef-Room b u id v text r = record {
  typedefs = omega (arith, length-set u.typedef_state id v, r.typedefs);
  fwds = r.fwds;
  records = r.records;
}

typedef-Settles :
    (s u : Emission) (id j : ℕ)
    → get_or (set s.typedef_state id 1) j 0 ≡ (if j == id then 1 else get_or s.typedef_state j 0)
    → get_or (set u.typedef_state id 2) j 0 ≡ (if j == id then 2 else get_or u.typedef_state j 0)
    → get_or s.typedef_state id 0 ≢ 1
    → Settles (get_or (set s.typedef_state id 1) j 0) (get_or u.typedef_state j 0)
    → Settles (get_or s.typedef_state j 0) (get_or (set u.typedef_state id 2) j 0)
typedef-Settles s u id j begun done fresh g = elim (Bool-cases (j == id)) [
  | inl same ↦ let eq = (==_iff j id).0 same in inr (rw eq fresh, ground (arith, done))
  | inr other ↦
      let p : get_or (set s.typedef_state id 1) j 0 ≡ get_or s.typedef_state j 0 =
        ground (arith, begun) in
      let q : get_or (set u.typedef_state id 2) j 0 ≡ get_or u.typedef_state j 0 =
        ground (arith, done) in
      rw (← p, q) g
]

module _ (b : Btf) (requirements : Option Requirements) where
  abbrev G : Emission → Emission → Type 0
  G s t = Grows b requirements s t

  -- A record goes from its old state over 1 to 2, with its text behind what it needs.
  pub record-Grows :
      (s u : Emission) (id fuel : ℕ) (t : BtfType) (text : Text)
      → Room b s
      → type_at b id ≡ ok t
      → record_text b requirements fuel id t ≡ ok text
      → get_or s.record_state id 0 ≢ 1
      → G (set_record id 1 s) u
      → G s (set_record id 2 (write text u))
  record-Grows s u id fuel t text r at written fresh g =
      let low = type_at-lt b id t at in
      let begun : (j : ℕ)
          → get_or (set s.record_state id 1) j 0
            ≡ (if j == id then 1 else get_or s.record_state j 0) =
        λ j. get_or-set s.record_state id j 1 0 (omega (arith, low, r.records)) in
      let done : (j : ℕ)
          → get_or (set u.record_state id 2) j 0
            ≡ (if j == id then 2 else get_or u.record_state j 0) =
        λ j. get_or-set u.record_state id j 2 0 (omega (arith, low, g.room.records)) in
      record {
        added = g.added ++ text;
        out = ap (λ (x : Text). x ++ text) g.out ∙ append_assoc s.out g.added text;
        room = record-Room b u id 2 text g.room;
        records = λ j. record-Settles s u id j (begun j) (done j) fresh (g.records j);
        typedefs = g.typedefs;
        fwds = g.fwds;
        record_texts = λ j p q. elim (Bool-cases (j == id)) [
          | inl same ↦
              let eq : id ≡ j = sym ((==_iff j id).0 same) in
              (
                text,
                subst (λ x. RecordText b requirements x text) eq
                    (record { fuel = fuel; type = t; typed = at; written = written }),
                Within-left text text g.added (Within-refl text),
              )
          | inr other ↦
              let (w, made, within) =
                g.record_texts j (ground (arith, begun j)) (ground (arith, done j)) in
              (w, made, Within-right w g.added text within)
        ];
        typedef_texts = λ j p q.
            let (w, made, within) = g.typedef_texts j p q in
            (w, made, Within-right w g.added text within);
      }

  -- A typedef goes from its old state over 1 to 2, with its text behind what it needs.
  pub typedef-Grows :
      (s u : Emission) (id fuel : ℕ) (t : BtfType) (text : Text)
      → Room b s
      → type_at b id ≡ ok t
      → typedef_text b requirements fuel t ≡ ok text
      → get_or s.typedef_state id 0 ≢ 1
      → G (set_typedef id 1 s) u
      → G s (set_typedef id 2 (write text u))
  typedef-Grows s u id fuel t text r at written fresh g =
      let low = type_at-lt b id t at in
      let begun : (j : ℕ)
          → get_or (set s.typedef_state id 1) j 0
            ≡ (if j == id then 1 else get_or s.typedef_state j 0) =
        λ j. get_or-set s.typedef_state id j 1 0 (omega (arith, low, r.typedefs)) in
      let done : (j : ℕ)
          → get_or (set u.typedef_state id 2) j 0
            ≡ (if j == id then 2 else get_or u.typedef_state j 0) =
        λ j. get_or-set u.typedef_state id j 2 0 (omega (arith, low, g.room.typedefs)) in
      record {
        added = g.added ++ text;
        out = ap (λ (x : Text). x ++ text) g.out ∙ append_assoc s.out g.added text;
        room = typedef-Room b u id 2 text g.room;
        typedefs = λ j. typedef-Settles s u id j (begun j) (done j) fresh (g.typedefs j);
        records = g.records;
        fwds = g.fwds;
        typedef_texts = λ j p q. elim (Bool-cases (j == id)) [
          | inl same ↦
              let eq : id ≡ j = sym ((==_iff j id).0 same) in
              (
                text,
                subst (λ x. TypedefText b requirements x text) eq
                    (record { fuel = fuel; type = t; typed = at; written = written }),
                Within-left text text g.added (Within-refl text),
              )
          | inr other ↦
              let (w, made, within) =
                g.typedef_texts j (ground (arith, begun j)) (ground (arith, done j)) in
              (w, made, Within-right w g.added text within)
        ];
        record_texts = λ j p q.
            let (w, made, within) = g.record_texts j p q in
            (w, made, Within-right w g.added text within);
      }
