-- ===== src/TypeSet.antt =====
-- The set of type ids (src/type_set.c, include/min_corehdr/type_set.h): an array of 64-bit words,
-- one bit for each id. A null `words` pointer is the empty array, since `init` never makes an
-- empty one; a set passed as a null pointer is not modelled.
pub mod Words
pub mod Laws
pub mod Scan
pub mod Iterate
pub mod Extends
use Prim.Native.Nat.{bit_and, bit_or}
use min_corehdr.Prelude.{
  ℕ, zero, suc, ◌+◌, ◌-◌, ◌*◌, ◌/◌, ◌%◌, ◌^◌, Bool, true, false, not, Option, none, some, List, [],
  ◌∷◌, leb, ◌==◌, if◌then◌else◌, get_or, set, replicate, is_null,
}

pub record TypeSet : Type 0 where
  pub words : List ℕ
  pub count : ℕ
  pub word_count : ℕ
  pub selected : ℕ

-- `size_t` and `uint64_t` arithmetic wraps at 2 ^ 64.
abbrev pub u64 : ℕ → ℕ
u64 n = n % 2 ^ 64

unfoldable pub word_count_for_bits : ℕ → ℕ
word_count_for_bits n = if n == 0 then 1 else u64 (n + 63) / 64

abbrev pub cleared : TypeSet
cleared = record { words = []; count = 0; word_count = 0; selected = 0 }

-- `alloc n` says whether an allocation of `n` bytes succeeds. The return code 0 is `true`.
unfoldable pub init : (ℕ → Bool) → ℕ → Bool × TypeSet
init alloc n =
    let wc = word_count_for_bits n in
    if alloc (wc * 8)
    then (true, record { words = replicate wc 0; count = n; word_count = wc; selected = 0 })
    else (false, cleared)

unfoldable pub destroy : TypeSet → TypeSet
destroy s = cleared

-- `words[id >> 6] & (UINT64_C(1) << (id & 63u))`, as a test. No read is out of bounds in a valid
-- set, so the default of `get_or` is never seen.
abbrev pub word_of : List ℕ → ℕ → ℕ
word_of ws id = get_or ws (id / 64) 0

abbrev pub mask_of : ℕ → ℕ
mask_of id = 2 ^ (id % 64)

unfoldable pub has_bit : List ℕ → ℕ → Bool
has_bit ws id = not (bit_and (word_of ws id) (mask_of id) == 0)

unfoldable pub put_bit : List ℕ → ℕ → List ℕ
put_bit ws id = set ws (id / 64) (bit_or (word_of ws id) (mask_of id))

unfoldable pub contains : TypeSet → ℕ → Bool
contains s id = if leb s.count id then false else has_bit s.words id

unfoldable pub add : TypeSet → ℕ → Bool × TypeSet
add s id =
    if leb s.count id
    then (false, s)
    else if has_bit s.words id
    then (false, s)
    else (true, record s { words = put_bit s.words id; selected = u64 (s.selected + 1) })

-- `bit_index` of a word that is not 0, by the loop of its portable branch; a 64-bit word with a
-- digit leaves the loop within 64 rounds.
unfoldable pub bit_index : ℕ → ℕ → ℕ → ℕ
bit_index zero word b = b
bit_index (suc fuel) word b =
    let rest = bit_index fuel (word / 2) (b + 1) in if bit_and word 1 == 0 then rest else b

-- What `next` leaves in `*id` (`none`: it returned false) and in `*cursor`.
pub record Step : Type 0 where
  pub found : Option ℕ
  pub cursor : ℕ

-- `~UINT64_C(0) << bit_offset`
abbrev pub mask_from : ℕ → ℕ
mask_from off = u64 ((2 ^ 64 - 1) * 2 ^ off)

-- The `while` loop of `next`, with `left = word_count - word_index` rounds at most.
unfoldable pub scan : TypeSet → ℕ → ℕ → ℕ → ℕ → Step
scan s cursor zero word_index word = record { found = none; cursor = s.count }
scan s cursor (suc left) word_index word =
    let found = u64 (word_index * 64 + bit_index 64 word 0) in
    let rest =
      if leb s.word_count (word_index + 1)
      then record { found = none; cursor = s.count }
      else scan s cursor left (word_index + 1) (get_or s.words (word_index + 1) 0) in
    if word == 0
    then rest
    else if leb s.count found
    then record { found = none; cursor = cursor }
    else record { found = some found; cursor = u64 (found + 1) }

unfoldable pub next : TypeSet → ℕ → Step
next s cursor =
    let wi = cursor / 64 in
    if is_null s.words
    then record { found = none; cursor = cursor }
    else if leb s.count cursor
    then record { found = none; cursor = cursor }
    else scan s cursor (s.word_count - wi) wi
        (bit_and (get_or s.words wi 0) (mask_from (cursor % 64)))

-- `while (mch_type_set_next(set, &cursor, &id))`: the ids handed to the body, in order.
unfoldable pub iterate : ℕ → TypeSet → ℕ → List ℕ
iterate zero s cursor = []
iterate (suc fuel) s cursor = elim (next s cursor).found [
  | none ↦ []
  | some id ↦ id ∷ iterate fuel s (next s cursor).cursor
]
