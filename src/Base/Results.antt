-- ===== src/Base/Results.antt =====
-- Go's (value, error) pair, for a type of errors, and its chaining.
use mathlib.Core.Bool.{Bool, true, false}
use mathlib.Core.Option.{Option, none, some}
use mathlib.Core.Path.{◌≡◌, refl}
use mathlib.Core.Logic.{◌⊎◌, inl, inr}

pub data Result (E : Type 0) (A : Type 0) : Type 0 where
  err : E → Result E A
  ok : A → Result E A

-- `if test { return nil, e }`
abbrev pub fail_if : {E : Type 0} → Bool → E → Result E (Unit {0})
fail_if false e = ok tt
fail_if true e = err e

-- An Option as a (value, error) pair.
abbrev pub or_fail : {E A : Type 0} → Option A → E → Result E A
or_fail none e = err e
or_fail (some a) e = ok a

-- An error of one component inside another's.
abbrev pub wrap_err : {E F A : Type 0} → (E → F) → Result E A → Result F A
wrap_err f (err e) = err (f e)
wrap_err f (ok a) = ok a

pub Result-cases :
    {E A : Type 0} → (m : Result E A) → ((a : A) × (m ≡ ok a)) ⊎ ((e : E) × (m ≡ err e))
Result-cases (err e) = inr (e, refl)
Result-cases (ok a) = inl (a, refl)

infixl 5 ◌>>=◌ ◌>>◌
-- `if err != nil { return nil, err }`
abbrev pub ◌>>=◌ : {E A B : Type 0} → Result E A → (A → Result E B) → Result E B
err e >>= next = err e
ok a >>= next = next a

abbrev pub ◌>>◌ : {E B : Type 0} → Result E (Unit {0}) → Result E B → Result E B
check >> next = check >>= λ _. next

-- What a chain that ends in a value says of its first step.
pub fail_if-ok :
    {E B : Type 0} (b : Bool) (e : E) (next : Unit {0} → Result E B) {r : B}
    → (fail_if b e >>= next) ≡ ok r
    → (b ≡ false) × (next tt ≡ ok r)
fail_if-ok false e next h = (refl, h)
fail_if-ok true e next h = absurd cc

pub bind-ok :
    {E A B : Type 0} (m : Result E A) (next : A → Result E B) {r : B}
    → (m >>= next) ≡ ok r
    → (a : A) × (m ≡ ok a) × (next a ≡ ok r)
bind-ok (err e) next h = absurd cc
bind-ok (ok a) next h = (a, refl, h)

pub ok-injective : {E A : Type 0} {a b : A} → Path (Result E A) (ok a) (ok b) → a ≡ b
ok-injective h = cc

pub wrap_err-ok :
    {E F A : Type 0} (f : E → F) (m : Result E A) {a : A} → wrap_err f m ≡ ok a → m ≡ ok a
wrap_err-ok f (err e) h = absurd cc
wrap_err-ok f (ok a) h = cc

pub or_fail-ok : {E A : Type 0} (o : Option A) (e : E) {a : A} → or_fail o e ≡ ok a → o ≡ some a
or_fail-ok none e h = absurd cc
or_fail-ok (some a) e h = cc
