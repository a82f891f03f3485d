-- ===== src/Relocations/Bytes.antt =====
-- Reads from the raw bytes of .BTF.ext (src/seeds.c). C leaves a read past the bytes undefined:
-- here it makes the run stuck, and so does a loop of the model that is given too few rounds.
use min_corehdr.Prelude.{
  ℕ, zero, suc, ◌+◌, ◌*◌, ◌≤◌, ◌≡◌, refl, ◌≢◌, Bool, true, false, Option, none, some, List, [], ◌∷◌,
  arith, leb, if◌then◌else◌, get_or, length, Text,
}
use min_corehdr.Errors.{Result, ok, failed}

pub data Run (A : Type 0) : Type 0 where
  stuck : Run A
  ran : Result A → Run A

unfoldable pub bind : {A B : Type 0} → Run A → (A → Run B) → Run B
bind stuck next = stuck
bind (ran (failed e)) next = ran (failed e)
bind (ran (ok a)) next = next a

-- A run that does not get stuck, and the property of what it gives.
unfoldable pub Holds : {A : Type 0} → (A → Type 0) → Run A → Type 0
Holds P stuck = ⊥
Holds P (ran (failed e)) = Unit {0}
Holds P (ran (ok a)) = P a

-- No more than that it does not get stuck.
abbrev pub Any : {A : Type 0} → A → Type 0
Any a = Unit {0}

pub ran-Holds : {A : Type 0} (r : Result A) → Holds Any (ran r)
unfolding Holds
ran-Holds (ok a) = tt
ran-Holds (failed e) = tt

pub Holds-not_stuck : {A : Type 0} (P : A → Type 0) (r : Run A) → Holds P r → r ≢ stuck
unfolding Holds
Holds-not_stuck P stuck h e = h
Holds-not_stuck P (ran r) h e = cc e

pub bind-Holds :
    {A B : Type 0} (P : A → Type 0) (Q : B → Type 0) (r : Run A) (next : A → Run B)
    → Holds P r
    → ((a : A) → P a → Holds Q (next a))
    → Holds Q (bind r next)
unfolding bind Holds
bind-Holds P Q stuck next h k = absurd h
bind-Holds P Q (ran (failed e)) next h k = tt
bind-Holds P Q (ran (ok a)) next h k = k a h

pub then-Holds :
    {A B : Type 0} (Q : B → Type 0) (r : Run A) (next : A → Run B)
    → Holds Any r
    → ((a : A) → Holds Q (next a))
    → Holds Q (bind r next)
then-Holds Q r next h k = bind-Holds Any Q r next h (λ a u. k a)

pub Holds-mono :
    {A : Type 0} (P Q : A → Type 0) (r : Run A) → Holds P r → ((a : A) → P a → Q a) → Holds Q r
unfolding Holds
Holds-mono P Q stuck h k = h
Holds-mono P Q (ran (failed e)) h k = tt
Holds-mono P Q (ran (ok a)) h k = k a h

pub choice-Holds :
    {X A : Type 0} (P : A → Type 0) (o : Option X) (nothing : Run A) (next : X → Run A)
    → Holds P nothing
    → ((x : X) → Holds P (next x))
    → Holds P (elim o [ none ↦ nothing | some x ↦ next x ])
choice-Holds P none nothing next h k = h
choice-Holds P (some x) nothing next h k = k x

pub if-Holds :
    {A : Type 0} (P : A → Type 0) (c : Bool) (r s : Run A)
    → (c ≡ true → Holds P r)
    → (c ≡ false → Holds P s)
    → Holds P (if c then r else s)
if-Holds P true r s h k = h refl
if-Holds P false r s h k = k refl

-- The number of these bytes, the lowest one first.
unfoldable pub number_of : List ℕ → ℕ
number_of [] = 0
number_of (c ∷ cs) = c + 256 * number_of cs

-- `count` bytes from `at` on.
unfoldable pub bytes_at : Text → ℕ → ℕ → List ℕ
bytes_at raw at zero = []
bytes_at raw at (suc count) = get_or raw at 0 ∷ bytes_at raw (at + 1) count

reversed : List ℕ → List ℕ → List ℕ
reversed [] acc = acc
reversed (c ∷ cs) acc = reversed cs (c ∷ acc)

-- `mch_btf_ext_header`
pub record Header : Type 0 where
  pub magic : ℕ
  pub version : ℕ
  pub flags : ℕ
  pub hdr_len : ℕ
  pub func_info_off : ℕ
  pub func_info_len : ℕ
  pub line_info_off : ℕ
  pub line_info_len : ℕ
  pub core_relo_off : ℕ
  pub core_relo_len : ℕ

module _ (little : Bool) (raw : Text) where
  -- `memcpy` of a number of `size` bytes on a host of this endianness.
  unfoldable pub read : ℕ → ℕ → Run ℕ
  unfolding reversed
  read size at =
      let bytes = bytes_at raw at size in
      if leb (at + size) (length raw)
      then ran (ok (number_of (if little then bytes else reversed bytes [])))
      else stuck

  unfoldable pub read_u32 : ℕ → Run ℕ
  read_u32 at = read 4 at

  read-Holds : (size at : ℕ) → at + size ≤ length raw → Holds Any (read size at)
  unfolding read Holds
  read-Holds size at h =
      let fits : leb (at + size) (length raw) ≡ true = ground (arith, h) in rw fits tt

  pub read_u32-Holds : (at : ℕ) → at + 4 ≤ length raw → Holds Any (read_u32 at)
  unfolding read_u32
  read_u32-Holds at h = read-Holds 4 at h

  unfoldable pub read_header : Run Header
  read_header = bind (read 2 0) (λ magic. bind (read 1 2) (λ version. bind (read 1 3) (λ flags.
      bind (read_u32 4) (λ hdr_len. bind (read_u32 8) (λ func_info_off.
        bind (read_u32 12) (λ func_info_len. bind (read_u32 16) (λ line_info_off.
          bind (read_u32 20) (λ line_info_len. bind (read_u32 24) (λ core_relo_off.
            bind (read_u32 28) (λ core_relo_len. ran (
              ok (record {
                magic = magic;
                version = version;
                flags = flags;
                hdr_len = hdr_len;
                func_info_off = func_info_off;
                func_info_len = func_info_len;
                line_info_off = line_info_off;
                line_info_len = line_info_len;
                core_relo_off = core_relo_off;
                core_relo_len = core_relo_len;
              }))))))))))))

  -- The header lies within the first 32 bytes.
  pub read_header-Holds : 32 ≤ length raw → Holds Any read_header
  unfolding read_header
  read_header-Holds h =
      let word : (at : ℕ) → at + 4 ≤ 32 → Holds Any (read_u32 at) =
        λ at l. read_u32-Holds at (omega (arith, h, l)) in
      then-Holds Any _ _ (read-Holds 2 0 (omega (arith, h))) (λ _.
        then-Holds Any _ _ (read-Holds 1 2 (omega (arith, h))) (λ _.
          then-Holds Any _ _ (read-Holds 1 3 (omega (arith, h))) (λ _.
            then-Holds Any _ _ (word 4 (omega arith)) (λ _.
              then-Holds Any _ _ (word 8 (omega arith)) (λ _.
                then-Holds Any _ _ (word 12 (omega arith)) (λ _.
                  then-Holds Any _ _ (word 16 (omega arith)) (λ _.
                    then-Holds Any _ _ (word 20 (omega arith)) (λ _.
                      then-Holds Any _ _ (word 24 (omega arith))
                        (λ _. then-Holds Any _ _ (word 28 (omega arith)) (λ _. ran-Holds _))))))))))
