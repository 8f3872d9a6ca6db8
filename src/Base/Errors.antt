-- ===== src/Base/Errors.antt =====
-- Exceptions as values: what the program throws, and what the libraries that it calls throw.
use mathlib.Core.Path.{◌≡◌, refl}

-- `undefined` stands for a read through `elements_end()`, which the program does not guard.
pub data Exception : Type 0 where
  state_error data_content_error reco_data_error logic_error logic_error_pointer : Exception
  ndn_error undefined : Exception

pub data Result {ℓ} (A : Type ℓ) : Type ℓ where
  ok : A → Result A
  err : Exception → Result A

infixl 5 ◌>>=◌
abbrev pub ◌>>=◌ {ℓ κ} : {A : Type ℓ} {B : Type κ} → Result A → (A → Result B) → Result B
ok a >>= f = f a
err e >>= f = err e

module _ {ℓ κ} {A : Type ℓ} {B : Type κ} where
  -- Where a chain returned `end`, its first step returned a value, from which the next one made `end`.
  pub >>=-ok :
      (first : Result A) (next : A → Result B) {end : B}
      → first >>= next ≡ ok end
      → (a : A) × (first ≡ ok a) × (next a ≡ ok end)
  >>=-ok (err thrown) next returned = absurd (cc returned)
  >>=-ok (ok a) next returned = (a, refl, returned)
