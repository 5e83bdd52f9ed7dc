-- ===== src/Prelude/Results.antt =====
-- Rust's `Result`, and methods on a state that may fail. What a method wrote before it failed stays
-- written, so the state comes back beside the error too.
pub mod Keeps
pub mod Inversion
use mathlib.Core.Path.{◌≡◌, refl}
use mathlib.Core.Bool.{Bool, true, false}
use mathlib.Core.Logic.{◌⊎◌, inl, inr}

pub data Result {ℓ} (E A : Type ℓ) : Type ℓ where
  ok : A → Result E A
  err : E → Result E A

-- `Result::map_err`
abbrev pub map_err {ℓ} : {E F A : Type ℓ} → (E → F) → Result E A → Result F A
map_err f (ok a) = ok a
map_err f (err e) = err (f e)

-- `Result::is_ok`
abbrev pub is_ok {ℓ} : {E A : Type ℓ} → Result E A → Bool
is_ok (ok a) = true
is_ok (err e) = false

pub Result-cases {ℓ} :
    {E A : Type ℓ} (r : Result E A) → ((e : E) × (r ≡ err e)) ⊎ ((a : A) × (r ≡ ok a))
Result-cases (ok a) = inr (a, refl)
Result-cases (err e) = inl (e, refl)

abbrev pub Method {ℓ} : Type ℓ → Type ℓ → Type ℓ → Type ℓ
Method S E A = S → Result E A × S

module _ {ℓ} {S E A : Type ℓ} where
  unfoldable pub pure : A → Method S E A
  pure a s = (ok a, s)

  unfoldable pub fail : E → Method S E A
  fail e s = (err e, s)

  unfoldable pub lift : Result E A → Method S E A
  lift r s = (r, s)

  -- runs a method and hands its result on, an error too
  unfoldable pub attempt : Method S E A → Method S E (Result E A)
  attempt m s = let (r, s') = m s in (ok r, s')

module _ {ℓ} {S E F A : Type ℓ} where
  unfoldable pub with_error : (E → F) → Method S E A → Method S F A
  with_error f m s = let (r, s') = m s in (map_err f r, s')

module _ {ℓ} {S E A B : Type ℓ} where
  abbrev pub continue : Result E A → (A → Method S E B) → Method S E B
  continue (ok a) f s = f a s
  continue (err e) f s = (err e, s)

  infixl 10 ◌>>=◌ ◌>>◌
  -- opening this opens the other methods too
  unfoldable pub ◌>>=◌ : Method S E A → (A → Method S E B) → Method S E B
  unfolding pure fail lift attempt with_error
  ◌>>=◌ m f s = let (r, s') = m s in continue r f s'

  abbrev pub ◌>>◌ : Method S E A → Method S E B → Method S E B
  m >> n = m >>= λ _. n
