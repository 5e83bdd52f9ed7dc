-- ===== src/Prelude/Bytes.antt =====
-- Big-endian numbers, and slices of byte strings. A byte string is a list of numbers below 256.
use Prim.Native.Nat.{ℕ, zero, suc, ◌+◌, ◌-◌, ◌*◌, ◌/◌, ◌%◌, ◌≤◌, ◌<◌}
use mathlib.Core.Path.{◌≡◌, refl, sym, ap, ◌∙◌}
use mathlib.Core.Option.{Option, none, some}
use mathlib.Core.List.{List, [], ◌∷◌, ◌++◌}
use native.Mathlib.Omega.{arith}
use robot_fleet.Prelude.Tests.{nat_eq, if◌then◌else◌}
use robot_fleet.Prelude.Lists.{length, take, drop, length-append}

-- `to_be_bytes`, the `w` lowest bytes of `n`
unfoldable pub be_bytes : ℕ → ℕ → List ℕ
be_bytes zero n = []
be_bytes (suc w) n = be_bytes w (n / 256) ++ (n % 256) ∷ []

unfoldable pub from_digits : ℕ → List ℕ → ℕ
from_digits acc [] = acc
from_digits acc (b ∷ bs) = from_digits (acc * 256 + b) bs

-- `from_be_bytes` behind the conversion of a slice to an array of `w` bytes
unfoldable pub from_be_bytes : ℕ → List ℕ → Option ℕ
from_be_bytes w bs = if nat_eq (length bs) w then some (from_digits 0 bs) else none

-- 256 ^ w
abbrev pub bytes_bound : ℕ → ℕ
bytes_bound zero = 1
bytes_bound (suc w) = 256 * bytes_bound w

pub length-be_bytes : (w n : ℕ) → length (be_bytes w n) ≡ w
unfolding be_bytes
length-be_bytes zero n = refl
length-be_bytes (suc w) n =
    omega
      (arith, length-append (be_bytes w (n / 256)) ((n % 256) ∷ []), length-be_bytes w (n / 256))

from_digits-append :
    (acc b : ℕ) (bs : List ℕ) → from_digits acc (bs ++ b ∷ []) ≡ from_digits acc bs * 256 + b
unfolding from_digits
from_digits-append acc b [] = refl
from_digits-append acc b (x ∷ bs) = from_digits-append (acc * 256 + x) b bs

pub from_digits-be_bytes : (w n : ℕ) → n < bytes_bound w → from_digits 0 (be_bytes w n) ≡ n
unfolding be_bytes
from_digits-be_bytes zero n h = unfold from_digits in omega arith
from_digits-be_bytes (suc w) n h = omega (
  arith,
  from_digits-append 0 (n % 256) (be_bytes w (n / 256)),
  from_digits-be_bytes w (n / 256) (omega arith),
)

-- A number that fits is read back.
pub from_be_bytes-be_bytes : (w n : ℕ) → n < bytes_bound w → from_be_bytes w (be_bytes w n) ≡ some n
unfolding from_be_bytes
from_be_bytes-be_bytes w n h = ground (arith, length-be_bytes w n, from_digits-be_bytes w n h)

-- `bytes[from..from + n]`, in range
abbrev pub slice : ℕ → ℕ → List ℕ → List ℕ
slice from n bytes = take n (drop from bytes)

module _ {ℓ} {A : Type ℓ} where
  pub take-append_length : (n : ℕ) (xs ys : List A) → length xs ≡ n → take n (xs ++ ys) ≡ xs
  take-append_length zero [] ys h = refl
  take-append_length zero (x ∷ xs) ys h = absurd (omega arith)
  take-append_length (suc n) [] ys h = absurd (omega arith)
  take-append_length (suc n) (x ∷ xs) ys h = ap (◌∷◌ x) (take-append_length n xs ys (omega arith))

  pub drop-append_length : (n : ℕ) (xs ys : List A) → length xs ≡ n → drop n (xs ++ ys) ≡ ys
  drop-append_length zero [] ys h = refl
  drop-append_length zero (x ∷ xs) ys h = absurd (omega arith)
  drop-append_length (suc n) [] ys h = absurd (omega arith)
  drop-append_length (suc n) (x ∷ xs) ys h = drop-append_length n xs ys (omega arith)

  pub drop-nil : (n : ℕ) → drop {A = A} n [] ≡ []
  drop-nil zero = refl
  drop-nil (suc n) = refl

  pub drop-drop : (m n : ℕ) (xs : List A) → drop m (drop n xs) ≡ drop (n + m) xs
  drop-drop m zero xs = let same : m ≡ zero + m = omega arith in ap (λ k. drop k xs) same
  drop-drop m (suc n) [] = drop-nil m ∙ sym (drop-nil (suc n + m))
  drop-drop m (suc n) (x ∷ xs) =
      let same : suc (n + m) ≡ suc n + m = omega arith in
      drop-drop m n xs ∙ ap (λ k. drop k (x ∷ xs)) same

module _ {ℓ} {A : Type ℓ} where
  pub length-drop : (n : ℕ) (xs : List A) → length (drop n xs) ≡ length xs - n
  length-drop zero xs = omega arith
  length-drop (suc n) [] = omega arith
  length-drop (suc n) (x ∷ xs) = omega (arith, length-drop n xs)

  pub length-take : (n : ℕ) (xs : List A) → n ≤ length xs → length (take n xs) ≡ n
  length-take zero xs h = refl
  length-take (suc n) [] h = absurd (omega arith)
  length-take (suc n) (x ∷ xs) h = ap suc (length-take n xs (omega arith))

-- A number that stands at some place is read there, and what follows it stands behind it.
pub from_be_bytes-slice :
    (w n at end : ℕ) (bytes rest : List ℕ)
    → n < bytes_bound w
    → at + w ≡ end
    → drop at bytes ≡ be_bytes w n ++ rest
    → (from_be_bytes w (slice at w bytes) ≡ some n) × (drop end bytes ≡ rest)
from_be_bytes-slice w n at end bytes rest fits e h = (
  rw h (
      rw (take-append_length w (be_bytes w n) rest (length-be_bytes w n))
        (from_be_bytes-be_bytes w n fits)),
  rw (← e) (
      sym (drop-drop w at bytes)
      ∙ ap (drop w) h
      ∙ drop-append_length w (be_bytes w n) rest (length-be_bytes w n)),
)

pub length-slice :
    (w at : ℕ) (bytes : List ℕ) → at + w ≤ length bytes → length (slice at w bytes) ≡ w
length-slice w at bytes h = length-take w (drop at bytes) (omega (arith, length-drop at bytes))
