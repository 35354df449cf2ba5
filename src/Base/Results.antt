-- ===== src/Base/Results.antt =====
-- `Result<A, E>`, and the outcome of a method that takes `&mut self`.
use mathlib.Core.Bool.{Bool, true, false}
use mathlib.Core.Path.{◌≡◌, refl}
use mathlib.Core.Logic.{◌⊎◌, inl, inr}

pub data Result (E A : Type 0) : Type 0 where
  ok : A → Result E A
  err : E → Result E A

infixl 5 ◌>>=◌ ◌>>◌
abbrev pub ◌>>=◌ : {E A B : Type 0} → Result E A → (A → Result E B) → Result E B
ok a >>= f = f a
err e >>= f = err e

abbrev pub ◌>>◌ : {E B : Type 0} → Result E (Unit {0}) → Result E B → Result E B
m >> k = m >>= λ _. k

abbrev pub guard : {E : Type 0} → Bool → E → Result E (Unit {0})
guard true e = ok tt
guard false e = err e

-- The object after the call, with the error if the method returned one; or a panic.
pub data Outcome (E S : Type 0) : Type 0 where
  done : S → Outcome E S
  fail : S → E → Outcome E S
  panic : Outcome E S

-- The result of a function that can also panic.
pub data Attempt (E A : Type 0) : Type 0 where
  returned : A → Attempt E A
  refused : E → Attempt E A
  panicked : Attempt E A

pub Result-cases :
    {E A : Type 0} (r : Result E A) → ((a : A) × (r ≡ ok a)) ⊎ ((e : E) × (r ≡ err e))
Result-cases (ok a) = inl (a, refl)
Result-cases (err e) = inr (e, refl)

pub Attempt-cases :
    {E A : Type 0} (r : Attempt E A)
    → (r ≡ panicked) ⊎ (((e : E) × (r ≡ refused e)) ⊎ ((a : A) × (r ≡ returned a)))
Attempt-cases panicked = inl refl
Attempt-cases (refused e) = inr (inl (e, refl))
Attempt-cases (returned a) = inr (inr (a, refl))

abbrev pub bind : {E A B : Type 0} → Attempt E A → (A → Attempt E B) → Attempt E B
bind panicked f = panicked
bind (refused e) f = refused e
bind (returned a) f = f a

-- A function that returns a `Result` does not panic.
abbrev pub lift : {E A : Type 0} → Result E A → Attempt E A
lift (ok a) = returned a
lift (err e) = refused e

-- The value of a `Result` that succeeded.
abbrev Succeeds : {E A : Type 0} → Result E A → A → Type 0
Succeeds r a = r ≡ ok a

pub ok-inj : {E A : Type 0} {a b : A} → Succeeds {E = E} (ok a) b → a ≡ b
ok-inj e = cc

pub err-ne-ok : {E A : Type 0} {e : E} {a : A} → ¬ Succeeds (err e) a
err-ne-ok = cc

-- What came before a call that returned has returned.
abbrev Returns : {E A : Type 0} → Attempt E A → A → Type 0
Returns r a = r ≡ returned a

pub bind-returned :
    {E A B : Type 0} (m : Attempt E A) (f : A → Attempt E B) (b : B)
    → bind m f ≡ returned b
    → (a : A) × (m ≡ returned a) × (f a ≡ returned b)
bind-returned panicked f b e = absurd (cc)
bind-returned (refused x) f b e = absurd (cc)
bind-returned (returned a) f b e = (a, refl, e)

pub returned-inj : {E A : Type 0} {a b : A} → Returns {E = E} (returned a) b → a ≡ b
returned-inj e = cc

pub refused-ne-returned : {E A : Type 0} {e : E} {a : A} → ¬ Returns (refused e) a
refused-ne-returned = cc

pub panicked-ne-returned : {E A : Type 0} {a : A} → ¬ Returns {E = E} panicked a
panicked-ne-returned = cc
