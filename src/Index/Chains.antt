-- ===== src/Index/Chains.antt =====
-- Chains of the index: how a walk reads the entries, and what an insertion does to it.
use min_corehdr.Prelude.{
  ℕ, zero, suc, ◌<◌, ◌≡◌, refl, ◌∙◌, ◌≢◌, ◌⊎◌, inl, inr, true, Option, none, some, List, [], ◌∷◌,
  ◌++◌, arith, ◌==◌, if◌then◌else◌, ==_iff, Bool-cases, Option-cases, get_elem?, length,
  get_elem?-append_left, Text,
}
use min_corehdr.Btf.{Kind}
use min_corehdr.Index.{Entry, end_of_chain, same_key, walk, mark_ambiguous}

-- A position below `n`, or the end of a chain.
abbrev pub Points : ℕ → ℕ → Type 0
Points n id = (id < n) ⊎ (id ≡ end_of_chain)

-- Every chain leads down.
abbrev pub Descends : List Entry → Type 0
Descends entries = (i : ℕ) (e : Entry) → get_elem? entries i ≡ some e → Points i e.next

pub get_elem?-mark_ambiguous :
    (number : Kind → ℕ) (entries : List Entry) (i j : ℕ)
    → (get_elem? entries j ≡ none → get_elem? (mark_ambiguous number entries i) j ≡ none)
      × ((e : Entry)
          → get_elem? entries j ≡ some e
          → (e' : Entry) × (get_elem? (mark_ambiguous number entries i) j ≡ some e')
            × ((e'.name ≡ e.name) × (e'.kind ≡ e.kind) × (e'.next ≡ e.next)))
unfolding mark_ambiguous
get_elem?-mark_ambiguous number [] i j = (λ h. h, λ e h. (e, h, (refl, refl, refl)))
get_elem?-mark_ambiguous number (x ∷ xs) zero zero =
    (λ h. cc, λ e h. (record x { ambiguous = true; type_id = 0 }, refl, ground arith))
get_elem?-mark_ambiguous number (x ∷ xs) zero (suc j) = (λ h. h, λ e h. (e, h, (refl, refl, refl)))
get_elem?-mark_ambiguous number (x ∷ xs) (suc i) zero = (λ h. h, λ e h. (e, h, (refl, refl, refl)))
get_elem?-mark_ambiguous number (x ∷ xs) (suc i) (suc j) = get_elem?-mark_ambiguous number xs i j

module _ (number : Kind → ℕ) (name : Text) (kind : Kind) where
  abbrev w : ℕ → List Entry → ℕ → Option ℕ
  w fuel entries id = walk number fuel entries name kind id

  -- One round of a walk that has not reached the end.
  pub walk-suc :
      (fuel : ℕ) (entries : List Entry) (id : ℕ) (e : Entry)
      → id ≢ end_of_chain
      → get_elem? entries id ≡ some e
      → w (suc fuel) entries id
        ≡ (if same_key number e name kind then some id else w fuel entries e.next)
  unfolding walk
  walk-suc fuel entries id e ne at = ground (arith, at)

  walk-suc-none :
      (fuel : ℕ) (entries : List Entry) (id : ℕ)
      → get_elem? entries id ≡ none
      → w (suc fuel) entries id ≡ none
  unfolding walk
  walk-suc-none fuel entries id at = ground (arith, at)

  walk_end :
      (fuel : ℕ) (entries : List Entry) (id : ℕ) → id ≡ end_of_chain → w fuel entries id ≡ none
  unfolding walk
  walk_end zero entries id e = refl
  walk_end (suc fuel) entries id e = ground arith

  -- Fuel above the position makes no difference.
  pub walk_enough :
      (f g : ℕ) (entries : List Entry) (id : ℕ)
      → Descends entries
      → Points f id
      → Points g id
      → w f entries id ≡ w g entries id
  walk_enough zero g entries id down p q =
      let e : id ≡ end_of_chain = ground arith in
      cc (walk_end 0 entries id e, walk_end g entries id e)
  walk_enough (suc f) zero entries id down p q =
      let e : id ≡ end_of_chain = ground arith in
      cc (walk_end (suc f) entries id e, walk_end 0 entries id e)
  walk_enough (suc f) (suc g) entries id down p q = elim (Bool-cases (id == end_of_chain)) [
    | inl e ↦
        let e' = (==_iff id end_of_chain).0 e in
        cc (walk_end (suc f) entries id e', walk_end (suc g) entries id e')
    | inr ne ↦ elim (Option-cases (get_elem? entries id)) [
      | inl out ↦ cc (walk-suc-none f entries id out, walk-suc-none g entries id out)
      | inr (e, at) ↦
          let ne' : id ≢ end_of_chain = ground arith in
          let rest =
            walk_enough f g entries e.next down (ground (arith, down id e at))
              (ground (arith, down id e at)) in
          rw (walk-suc f entries id e ne' at, walk-suc g entries id e ne' at, rest) refl
    ]
  ]

  -- A walk does not see an entry that is appended behind its start.
  pub walk-append :
      (f : ℕ) (entries : List Entry) (new : Entry) (id : ℕ)
      → Descends entries
      → Points (length entries) id
      → w f (entries ++ new ∷ []) id ≡ w f entries id
  walk-append zero entries new id down p = unfold walk in refl
  walk-append (suc f) entries new id down p = elim (Bool-cases (id == end_of_chain)) [
    | inl e ↦
        let e' = (==_iff id end_of_chain).0 e in
        cc (walk_end (suc f) (entries ++ new ∷ []) id e', walk_end (suc f) entries id e')
    | inr ne ↦
        let ne' : id ≢ end_of_chain = ground arith in
        let l : id < length entries = ground arith in
        let kept = get_elem?-append_left entries (new ∷ []) id l in
        elim (Option-cases (get_elem? entries id)) [
          | inl out ↦ cc (
            walk-suc-none f entries id out,
            walk-suc-none f (entries ++ new ∷ []) id (kept ∙ out),
          )
          | inr (e, at) ↦
              let rest = walk-append f entries new e.next down (ground (arith, down id e at)) in
              rw
                (
                  walk-suc f (entries ++ new ∷ []) id e ne' (kept ∙ at),
                  walk-suc f entries id e ne' at,
                  rest,
                )
                refl
        ]
  ]

  -- Marking an entry ambiguous changes no key and no link.
  pub walk-mark_ambiguous :
      (f : ℕ) (entries : List Entry) (i id : ℕ)
      → w f (mark_ambiguous number entries i) id ≡ w f entries id
  walk-mark_ambiguous zero entries i id = unfold walk in refl
  walk-mark_ambiguous (suc f) entries i id = elim (Bool-cases (id == end_of_chain)) [
    | inl e ↦
        let e' = (==_iff id end_of_chain).0 e in
        cc
          (walk_end (suc f) (mark_ambiguous number entries i) id e', walk_end (suc f) entries id e')
    | inr ne ↦
        let ne' : id ≢ end_of_chain = ground arith in
        let marked = get_elem?-mark_ambiguous number entries i id in
        elim (Option-cases (get_elem? entries id)) [
          | inl out ↦ cc (
            walk-suc-none f entries id out,
            walk-suc-none f (mark_ambiguous number entries i) id (marked.0 out),
          )
          | inr (e, at) ↦
              let (e', at', keys) = marked.1 e at in
              let rest = walk-mark_ambiguous f entries i e.next in
              let same : same_key number e' name kind ≡ same_key number e name kind =
                unfold same_key in ground (arith, keys) in
              rw
                (
                  walk-suc f (mark_ambiguous number entries i) id e' ne' at',
                  walk-suc f entries id e ne' at,
                  same,
                  keys.2,
                  rest,
                )
                refl
        ]
  ]
