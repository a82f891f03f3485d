-- ===== src/Errors/Yields.antt =====
-- A property of what a function returns if it does not fail.
use min_corehdr.Prelude.{◌≡◌, refl, Bool, true, false, Option, none, some, if◌then◌else◌}
use mathlib.Core.Path.{subst}
use min_corehdr.Errors.{Failure, Result, ok, failed, ◌>>=◌}

unfoldable pub Yields : {A : Type 0} → (A → Type 0) → Result A → Type 0
Yields P (failed e) = Unit {0}
Yields P (ok a) = P a

pub Yields-ok : {A : Type 0} (P : A → Type 0) (r : Result A) (a : A) → Yields P r → r ≡ ok a → P a
unfolding Yields
Yields-ok P r a h e = subst (Yields P) e h

pub ok-Yields : {A : Type 0} (P : A → Type 0) (a : A) → P a → Yields P (ok a)
unfolding Yields
ok-Yields P a h = h

pub Yields-failed : {A : Type 0} (P : A → Type 0) (e : Failure) → Yields P (failed e)
unfolding Yields
Yields-failed P e = tt

pub self-Yields : {A : Type 0} (r : Result A) → Yields (λ a. r ≡ ok a) r
unfolding Yields
self-Yields (failed e) = tt
self-Yields (ok a) = refl

pub Yields-mono :
    {A : Type 0} (P Q : A → Type 0) (r : Result A) → Yields P r → ((a : A) → P a → Q a) → Yields Q r
unfolding Yields
Yields-mono P Q (failed e) h k = tt
Yields-mono P Q (ok a) h k = k a h

pub bind-Yields :
    {A B : Type 0} (P : A → Type 0) (Q : B → Type 0) (r : Result A) (next : A → Result B)
    → Yields P r
    → ((a : A) → P a → Yields Q (next a))
    → Yields Q (r >>= next)
unfolding Yields
bind-Yields P Q (failed e) next h k = tt
bind-Yields P Q (ok a) next h k = k a h

-- Whatever comes before.
pub then-Yields :
    {A B : Type 0} (Q : B → Type 0) (r : Result A) (next : A → Result B)
    → ((a : A) → Yields Q (next a))
    → Yields Q (r >>= next)
unfolding Yields
then-Yields Q (failed e) next k = tt
then-Yields Q (ok a) next k = k a

pub if-Yields :
    {A : Type 0} (P : A → Type 0) (c : Bool) (r s : Result A)
    → Yields P r
    → Yields P s
    → Yields P (if c then r else s)
if-Yields P true r s h k = h
if-Yields P false r s h k = k

pub choice-Yields :
    {X A : Type 0} (P : A → Type 0) (o : Option X) (nothing : Result A) (next : X → Result A)
    → Yields P nothing
    → ((x : X) → Yields P (next x))
    → Yields P (elim o [ none ↦ nothing | some x ↦ next x ])
choice-Yields P none nothing next h k = h
choice-Yields P (some x) nothing next h k = k x
