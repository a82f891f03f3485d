-- ===== src/Index/Insert.antt =====
-- What an insertion does to every lookup.
use min_corehdr.Prelude.{
  ℕ, zero, suc, ◌-◌, ◌%◌, ◌^◌, ◌≤◌, ◌<◌, ◌≡◌, refl, inl, inr, Bool, true, ◌&&◌, some, List, arith,
  ◌==◌, Bool-cases, Option-cases, get_elem?, get_or, length, Text, text_eq, text_eq_iff,
}
use min_corehdr.Bits.{bit_and-le}
use min_corehdr.Btf.{Kind}
use min_corehdr.Index.{
  Entry, Index, Answer, absent, found, ambiguous, end_of_chain, same_key, bucket_of, walk, head_of,
  find_entry, hash_name_kind, hash_bytes-lt,
}
use min_corehdr.Index.Chains.{Points, Descends}

pub record IsValid (index : Index) : Type 0 where
  pub some_buckets : 0 < index.bucket_count
  pub width : index.bucket_count ≤ length index.buckets
  pub narrow : index.bucket_count ≤ 2 ^ 32
  pub heads : (i : ℕ) → Points (length index.entries) (get_or index.buckets i end_of_chain)
  pub down : Descends index.entries

-- A type with the same name and kind once more.
abbrev pub again : Answer → ℕ → Answer
again absent id = found id
again _ id = ambiguous

module _ (number : Kind → ℕ) where
  -- Two keys with one name and one kind.
  unfoldable pub key_eq : Text → Kind → Text → Kind → Bool
  key_eq n k m l = number k == number l && text_eq n m

  key_eq_congr :
      (e : Entry) (n : Text) (k : Kind) (m : Text) (l : Kind)
      → key_eq n k m l ≡ true
      → same_key number e n k ≡ same_key number e m l
  unfolding key_eq same_key
  key_eq_congr e n k m l h =
      ground (arith, text_eq_iff n m, text_eq_iff e.name n, text_eq_iff e.name m)

  pub same_key-key_eq :
      (e : Entry) (n : Text) (k : Kind) (m : Text) (l : Kind)
      → same_key number e n k ≡ true
      → same_key number e m l ≡ true
      → key_eq n k m l ≡ true
  unfolding key_eq same_key
  same_key-key_eq e n k m l p q =
      ground (arith, text_eq_iff n m, text_eq_iff e.name n, text_eq_iff e.name m)

  walk_congr :
      (f : ℕ) (entries : List Entry) (id : ℕ) (n : Text) (k : Kind) (m : Text) (l : Kind)
      → key_eq n k m l ≡ true
      → walk number f entries n k id ≡ walk number f entries m l id
  unfolding walk
  walk_congr zero entries id n k m l h = refl
  walk_congr (suc f) entries id n k m l h = elim (Option-cases (get_elem? entries id)) [
    | inl out ↦ ground (arith, out)
    | inr (e, at) ↦
        ground (arith, at, key_eq_congr e n k m l h, walk_congr f entries e.next n k m l h)
  ]

  pub bucket_congr :
      (index : Index) (n : Text) (k : Kind) (m : Text) (l : Kind)
      → key_eq n k m l ≡ true
      → bucket_of number index n k ≡ bucket_of number index m l
  unfolding bucket_of key_eq
  bucket_congr index n k m l h =
      let same_name : n ≡ m = ground (arith, text_eq_iff n m) in
      let same_kind : number k ≡ number l = ground arith in rw (same_name, same_kind) refl

  pub find_congr :
      (index : Index) (n : Text) (k : Kind) (m : Text) (l : Kind)
      → key_eq n k m l ≡ true
      → find_entry number index n k ≡ find_entry number index m l
  unfolding find_entry head_of
  find_congr index n k m l h =
      rw (bucket_congr index n k m l h) (walk_congr _ index.entries _ n k m l h)

  -- A walk stops at an entry with the key.
  pub walk-eq_some :
      (f : ℕ) (entries : List Entry) (id p : ℕ) (n : Text) (k : Kind)
      → walk number f entries n k id ≡ some p
      → (e : Entry) × (get_elem? entries p ≡ some e) × (same_key number e n k ≡ true)
  unfolding walk
  walk-eq_some zero entries id p n k h = cc
  walk-eq_some (suc f) entries id p n k h = elim (Option-cases (get_elem? entries id)) [
    | inl out ↦ absurd (ground (arith, out))
    | inr (e, at) ↦ elim (Bool-cases (same_key number e n k)) [
      | inl hit ↦ (e, ground (arith, at), hit)
      | inr miss ↦ walk-eq_some f entries e.next p n k (ground (arith, at))
    ]
  ]

  hash-lt : (n : Text) (c : ℕ) → hash_name_kind n c < 2 ^ 32
  unfolding hash_name_kind
  hash-lt n c = hash_bytes-lt n _ (omega arith)

  pub bucket_of-lt :
      (index : Index) (n : Text) (k : Kind)
      → IsValid index
      → bucket_of number index n k < length index.buckets
  unfolding bucket_of
  bucket_of-lt index n k v =
      let below =
        bit_and-le 32 (hash_name_kind n (number k)) ((index.bucket_count - 1) % 2 ^ 32)
          (hash-lt n (number k)) in
      omega (arith, below, v.some_buckets, v.width)
