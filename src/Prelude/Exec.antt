-- ===== src/Prelude/Exec.antt =====
-- Code that changes a state and may return an error. What was changed before an error stays
-- changed, so the state comes back beside the error too.
use mathlib.Core.Path.{◌≡◌, refl}
use mathlib.Core.Logic.{◌⊎◌, inl, inr}

pub data Result {ℓ} (E A : Type ℓ) : Type ℓ where
  ok : A → Result E A
  err : E → Result E A

pub Result-cases {ℓ} :
    {E A : Type ℓ} (r : Result E A) → ((a : A) × (r ≡ ok a)) ⊎ ((e : E) × (r ≡ err e))
Result-cases (ok a) = inl (a, refl)
Result-cases (err e) = inr (e, refl)

abbrev pub Exec {ℓ} : Type ℓ → Type ℓ → Type ℓ → Type ℓ
Exec S E A = S → Result E A × S

module _ {ℓ} {S E A : Type ℓ} where
  abbrev pub pure : A → Exec S E A
  pure a s = (ok a, s)

  abbrev pub raise : E → Exec S E A
  raise e s = (err e, s)

  -- A call that reads the state and leaves it alone.
  abbrev pub reads : (S → Result E A) → Exec S E A
  reads f s = (f s, s)

module _ {ℓ} {S E F A B : Type ℓ} where
  -- Go's `if err != nil { … }` after a call that returns a value and an error.
  abbrev pub resume_with : Result E A → (A → Exec S F B) → (E → Exec S F B) → Exec S F B
  resume_with (ok a) f g s = f a s
  resume_with (err e) f g s = g e s

  abbrev pub handle : Exec S E A → (A → Exec S F B) → (E → Exec S F B) → Exec S F B
  handle m f g s = let (r, s') = m s in resume_with r f g s'

module _ {ℓ} {S E A B : Type ℓ} where
  infixl 10 ◌>>=◌ ◌>>◌
  abbrev pub ◌>>=◌ : Exec S E A → (A → Exec S E B) → Exec S E B
  m >>= f = handle m f raise

  abbrev pub ◌>>◌ : Exec S E A → Exec S E B → Exec S E B
  m >> n = m >>= λ _. n

-- The error, if the result is one, has the property.
abbrev pub OnError {ℓ κ} : {E A : Type ℓ} → (E → Type κ) → Result E A → Type κ
OnError P (ok a) = Unit
OnError P (err e) = P e
