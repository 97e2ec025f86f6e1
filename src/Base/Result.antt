-- ===== src/Base/Result.antt =====
-- Go's `(value, error)` results.
use mathlib.Core.Path.{◌≡◌, refl}
use mathlib.Core.Logic.{◌⊎◌, inl, inr}
use mathlib.Core.Bool.{Bool, true, false}
use dcounter.Base.Bytes.{Text, codes}

-- An error is `io.EOF`, which the code compares with, a reset connection, or another with a text.
pub data Error : Type 0 where
  eof conn_reset : Error
  message : Text → Error

-- `err.Error()`
unfoldable pub error_text : Error → Text
error_text eof = codes "EOF"
error_text conn_reset = codes "connection reset by peer"
error_text (message t) = t

pub data Result {ℓ} (A : Type ℓ) : Type ℓ where
  err : Error → Result A
  ok : A → Result A

-- `if err != nil { return err }`, as a do block reads it
infixl 5 ◌>>=◌
abbrev pub ◌>>=◌ {ℓ κ} : {A : Type ℓ} {B : Type κ} → Result A → (A → Result B) → Result B
◌>>=◌ (err e) _ = err e
◌>>=◌ (ok a) next = next a

-- the same for a call that returns an error alone
infixl 5 ◌>>◌
abbrev pub ◌>>◌ {ℓ} : {B : Type ℓ} → Result (Unit {0}) → Result B → Result B
◌>>◌ check rest = check >>= λ _. rest

-- `if !c { return e }`
abbrev pub guard : Bool → Error → Result (Unit {0})
guard false e = err e
guard true e = ok tt

pub Result-cases {ℓ} :
    {A : Type ℓ} (r : Result A) → ((a : A) × (r ≡ ok a)) ⊎ ((e : Error) × (r ≡ err e))
Result-cases (ok a) = inl (a, refl)
Result-cases (err e) = inr (e, refl)
