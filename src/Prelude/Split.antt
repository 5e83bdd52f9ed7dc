-- ===== src/Prelude/Split.antt =====
-- Rust's `str` methods that take a text apart, and `u64::from_str`.
pub mod Joined
use Prim.Native.Nat.{ℕ, zero, suc, ◌+◌, ◌-◌, ◌*◌, ◌^◌, ◌<◌}
use Prim.Native.Char.{Char, code}
use Prim.Native.String.{String}
use mathlib.Core.Path.{◌≡◌}
use native.Mathlib.Omega.{arith}
use mathlib.Core.Bool.{Bool, true, false, not, ◌&&◌, ◌||◌}
use mathlib.Core.Option.{Option, none, some}
use mathlib.Core.List.{List, [], ◌∷◌}
use robot_fleet.Prelude.Lists.{select}
use robot_fleet.Prelude.Tests.{if◌then◌else◌, ltb, leb, nat_eq}

abbrev between : ℕ → ℕ → ℕ → Bool
between lo hi n = leb lo n && leb n hi

-- `char::is_whitespace`, of the code point
abbrev pub is_whitespace : ℕ → Bool
is_whitespace n =
    between 9 13 n
    || nat_eq n 32
    || nat_eq n 0x85
    || nat_eq n 0xA0
    || nat_eq n 0x1680
    || between 0x2000 0x200A n
    || nat_eq n 0x2028
    || nat_eq n 0x2029
    || nat_eq n 0x202F
    || nat_eq n 0x205F
    || nat_eq n 0x3000

abbrev pub is_blank : Char → Bool
is_blank c = is_whitespace (code c)

-- `trim_start`, `trim_end` and `trim`
unfoldable pub trim_start : String → String
trim_start String.[] = String.[]
trim_start (String.◌∷◌ c s) = if is_blank c then trim_start s else String.◌∷◌ c s

abbrev pub end_with : Char → String → String
end_with c String.[] = if is_blank c then String.[] else String.◌∷◌ c String.[]
end_with c (String.◌∷◌ d s) = String.◌∷◌ c (String.◌∷◌ d s)

unfoldable pub trim_end : String → String
trim_end String.[] = String.[]
trim_end (String.◌∷◌ c s) = end_with c (trim_end s)

abbrev pub trim : String → String
trim s = trim_end (trim_start s)

abbrev pub is : ℕ → Char → Bool
is separator c = nat_eq (code c) separator

-- puts a character before the first piece
abbrev pub onto_first : Char → List String → List String
onto_first c [] = String.◌∷◌ c String.[] ∷ []
onto_first c (p ∷ ps) = String.◌∷◌ c p ∷ ps

-- `split` at the characters that a test accepts
unfoldable pub split_where : (Char → Bool) → String → List String
split_where test String.[] = "" ∷ []
split_where test (String.◌∷◌ c s) =
    let rest = split_where test s in if test c then "" ∷ rest else onto_first c rest

-- `split` at a character, given by its code point
abbrev pub split : ℕ → String → List String
split separator = split_where (is separator)

abbrev pub is_empty : String → Bool
is_empty String.[] = true
is_empty (String.◌∷◌ c s) = false

abbrev pub split_whitespace : String → List String
split_whitespace s = select (λ piece. not (is_empty piece)) (split_where is_blank s)

abbrev pub after_first : Char → Option (String × String) → Option (String × String)
after_first c none = none
after_first c (some (before, after)) = some (String.◌∷◌ c before, after)

-- `split_once`
unfoldable pub split_once : ℕ → String → Option (String × String)
split_once separator String.[] = none
split_once separator (String.◌∷◌ c s) =
    let rest = split_once separator s in if is separator c then some ("", s) else after_first c rest

-- `splitn`, for `n` pieces at most
unfoldable pub splitn : ℕ → ℕ → String → List String
splitn zero separator s = []
splitn (suc zero) separator s = s ∷ []
splitn (suc (suc n)) separator s = elim (split_once separator s) [
  | none ↦ s ∷ []
  | some (before, after) ↦ before ∷ splitn (suc n) separator after
]

abbrev pub is_digit : Char → Bool
is_digit c = between 48 57 (code c)

-- decimal digits behind the value `acc`
unfoldable pub from_decimal : ℕ → String → Option ℕ
from_decimal acc String.[] = some acc
from_decimal acc (String.◌∷◌ c s) =
    let rest = from_decimal (acc * 10 + (code c - 48)) s in if is_digit c then rest else none

abbrev below : ℕ → Option ℕ → Option ℕ
below bound none = none
below bound (some n) = if ltb n bound then some n else none

-- `parse::<u64>`: a sign `+` may stand first
unfoldable pub parse_u64 : String → Option ℕ
parse_u64 String.[] = none
parse_u64 (String.◌∷◌ c String.[]) = below (2 ^ 64) (from_decimal 0 (String.◌∷◌ c String.[]))
parse_u64 (String.◌∷◌ c (String.◌∷◌ d s)) =
    below (2 ^ 64)
      (from_decimal 0 (if is 43 c then String.◌∷◌ d s else String.◌∷◌ c (String.◌∷◌ d s)))

-- `parse::<u32>`
abbrev pub parse_u32 : String → Option ℕ
parse_u32 s = below (2 ^ 32) (parse_u64 s)

-- a line without a carriage return at its end
abbrev pub without_return : String → String
without_return String.[] = String.[]
without_return (String.◌∷◌ c String.[]) = if is 13 c then String.[] else String.◌∷◌ c String.[]
without_return (String.◌∷◌ c (String.◌∷◌ d s)) = String.◌∷◌ c (without_return (String.◌∷◌ d s))

-- what is left of the pieces between line feeds: the last one is no line if it is empty
abbrev pub lines_of : List String → List String
lines_of [] = []
lines_of (p ∷ []) = if is_empty p then [] else p ∷ []
lines_of (p ∷ q ∷ ps) = without_return p ∷ lines_of (q ∷ ps)

-- `lines`
abbrev pub lines : String → List String
lines s = lines_of (split 10 s)

below-lt : (bound n : ℕ) (o : Option ℕ) → below bound o ≡ some n → n < bound
below-lt bound n none h = cc
below-lt bound n (some m) h = ground arith

pub parse_u64-lt : (s : String) (n : ℕ) → parse_u64 s ≡ some n → n < 2 ^ 64
unfolding parse_u64
parse_u64-lt String.[] n h = cc
parse_u64-lt (String.◌∷◌ c String.[]) n h =
    below-lt (2 ^ 64) n (from_decimal 0 (String.◌∷◌ c String.[])) h
parse_u64-lt (String.◌∷◌ c (String.◌∷◌ d s)) n h =
    below-lt (2 ^ 64) n
      (from_decimal 0 (if is 43 c then String.◌∷◌ d s else String.◌∷◌ c (String.◌∷◌ d s))) h
