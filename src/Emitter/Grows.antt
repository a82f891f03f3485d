-- ===== src/Emitter/Grows.antt =====
-- What an emission leaves: more text, and states that only move on to "written" together with the
-- text of the definition.
use min_corehdr.Prelude.{
  ℕ, ◌≤◌, ◌≡◌, refl, sym, ap, ◌∙◌, ◌≢◌, ◌⊎◌, inl, inr, Option, [], ◌++◌, arith, ◌==◌, ==_iff,
  Bool-cases, get_or, length, Text,
}
use mathlib.Core.List.{append-nil, append_assoc}
use min_corehdr.Prelude.Within.{Within, Within-left, Within-right}
use min_corehdr.Errors.{ok, ◌>>=◌, >>=-eq-ok}
use min_corehdr.Btf.{Btf, BtfType}
use min_corehdr.Requirements.{Requirements}
use min_corehdr.Emitter.Names.{type_at}
use min_corehdr.Emitter.Order.{Emission, Action, write, record_text, typedef_text}

-- A state stays, or becomes 2 and was not 1.
abbrev pub Settles : ℕ → ℕ → Type 0
Settles old new = (old ≡ new) ⊎ ((old ≢ 1) × (new ≡ 2))

-- The arrays have a state for each type.
pub record Room (b : Btf) (s : Emission) : Type 0 where
  pub records : b.type_cnt ≤ length s.record_state
  pub fwds : b.type_cnt ≤ length s.fwd_state
  pub typedefs : b.type_cnt ≤ length s.typedef_state

module _ (b : Btf) (requirements : Option Requirements) where
  -- The definition of this record, or of this typedef, as some amount of fuel gives it.
  pub record RecordText (id : ℕ) (text : Text) : Type 0 where
    pub fuel : ℕ
    pub type : BtfType
    pub typed : type_at b id ≡ ok type
    pub written : record_text b requirements fuel id type ≡ ok text

  pub record TypedefText (id : ℕ) (text : Text) : Type 0 where
    pub fuel : ℕ
    pub type : BtfType
    pub typed : type_at b id ≡ ok type
    pub written : typedef_text b requirements fuel type ≡ ok text

  pub record Grows (s t : Emission) : Type 0 where
    pub added : Text
    pub out : t.out ≡ s.out ++ added
    pub room : Room b t
    pub records : (id : ℕ) → Settles (get_or s.record_state id 0) (get_or t.record_state id 0)
    pub typedefs : (id : ℕ) → Settles (get_or s.typedef_state id 0) (get_or t.typedef_state id 0)
    pub fwds : (id : ℕ) → get_or s.fwd_state id 0 ≢ 0 → get_or t.fwd_state id 0 ≢ 0
    pub record_texts :
        (id : ℕ)
        → get_or s.record_state id 0 ≢ 2
        → get_or t.record_state id 0 ≡ 2
        → (text : Text) × RecordText id text × Within text added
    pub typedef_texts :
        (id : ℕ)
        → get_or s.typedef_state id 0 ≢ 2
        → get_or t.typedef_state id 0 ≡ 2
        → (text : Text) × TypedefText id text × Within text added

  pub Grows-refl : (s : Emission) → Room b s → Grows s s
  Grows-refl s r = record {
    added = [];
    out = sym (append-nil s.out);
    room = r;
    records = λ id. inl refl;
    typedefs = λ id. inl refl;
    fwds = λ id h. h;
    record_texts = λ id h k. absurd (h k);
    typedef_texts = λ id h k. absurd (h k);
  }

  Settles-trans : (a c d : ℕ) → Settles a c → Settles c d → Settles a d
  Settles-trans a c d p q = ground arith

  pub Grows-trans : {s t u : Emission} → Grows s t → Grows t u → Grows s u
  Grows-trans {s} {t} {u} g h = record {
    added = g.added ++ h.added;
    out = h.out ∙ ap (λ (x : Text). x ++ h.added) g.out ∙ append_assoc s.out g.added h.added;
    room = h.room;
    records = λ id. Settles-trans _ (get_or t.record_state id 0) _ (g.records id) (h.records id);
    typedefs =
        λ id. Settles-trans _ (get_or t.typedef_state id 0) _ (g.typedefs id) (h.typedefs id);
    fwds = λ id p. h.fwds id (g.fwds id p);
    record_texts = λ id p q. elim (Bool-cases (get_or t.record_state id 0 == 2)) [
      | inl early ↦
          let (w, r, i) = g.record_texts id p ((==_iff _ _).0 early) in
          (w, r, Within-right w g.added h.added i)
      | inr late ↦
          let (w, r, i) = h.record_texts id (ground arith) q in
          (w, r, Within-left w h.added g.added i)
    ];
    typedef_texts = λ id p q. elim (Bool-cases (get_or t.typedef_state id 0 == 2)) [
      | inl early ↦
          let (w, r, i) = g.typedef_texts id p ((==_iff _ _).0 early) in
          (w, r, Within-right w g.added h.added i)
      | inr late ↦
          let (w, r, i) = h.typedef_texts id (ground arith) q in
          (w, r, Within-left w h.added g.added i)
    ];
  }

  -- An action that only lets the emission grow.
  abbrev pub Keeps : Action → Type 0
  Keeps act = (s t : Emission) → Room b s → act s ≡ ok t → Grows s t

  pub Keeps-ok : Keeps (λ s. ok s)
  Keeps-ok s t r e = let same : s ≡ t = cc e in rw (← same) (Grows-refl s r)

  pub Keeps-bind : (f g : Action) → Keeps f → Keeps g → Keeps (λ s. f s >>= g)
  Keeps-bind f g kf kg s t r e =
      let (u, run, last) = >>=-eq-ok (f s) g e in
      let first = kf s u r run in Grows-trans first (kg u t first.room last)

  -- Text that belongs to no definition.
  pub write-Grows : (text : Text) (s : Emission) → Room b s → Grows s (write text s)
  write-Grows text s r = record {
    added = text;
    out = refl;
    room = record { records = r.records; fwds = r.fwds; typedefs = r.typedefs };
    records = λ id. inl refl;
    typedefs = λ id. inl refl;
    fwds = λ id h. h;
    record_texts = λ id h k. absurd (h k);
    typedef_texts = λ id h k. absurd (h k);
  }
