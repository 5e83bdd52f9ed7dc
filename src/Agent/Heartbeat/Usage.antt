-- ===== src/Agent/Heartbeat/Usage.antt =====
-- Which percentages a heartbeat can carry.
use Prim.Native.String.{String}
use robot_fleet.Prelude.{
  ℕ, ◌+◌, ◌^◌, ◌<◌, ◌≡◌, refl, Bool, false, Option, none, some, List, [], ◌∷◌, arith, get_elem?,
  unwrap_or, nat_eq, ltb, ◌||◌, ◌&&◌,
}
use robot_fleet.Prelude.Split.{split_whitespace, parse_u64, lines, parse_u64-lt}
use robot_fleet.Agent.Heartbeat.{
  Percent, absent, idle_of, used_of, sum, cpu_share, cpu_numbers, read_cpu_usage, Memory, with_line,
  scan, or_zero, memory_of, read_memory_usage,
}

-- not a number between 0 and 100
abbrev pub is_outside : Percent → Bool
is_outside absent = false
is_outside (idle_of idle total) = nat_eq total 0 || ltb total idle
is_outside (used_of part total) = nat_eq total 0 || ltb total part

-- the sum without a bound
abbrev pub exact_sum : List ℕ → ℕ
exact_sum [] = 0
exact_sum (n ∷ ns) = n + exact_sum ns

sum-exact_sum : (ns : List ℕ) → exact_sum ns < 2 ^ 64 → sum ns ≡ exact_sum ns
sum-exact_sum [] h = refl
sum-exact_sum (n ∷ ns) h = omega (arith, sum-exact_sum ns (omega arith))

cpu_share_inside : (ns : List ℕ) → exact_sum ns < 2 ^ 64 → is_outside (cpu_share ns) ≡ false
cpu_share_inside [] h = refl
cpu_share_inside (a ∷ []) h = refl
cpu_share_inside (a ∷ b ∷ []) h = refl
cpu_share_inside (a ∷ b ∷ c ∷ []) h = refl
cpu_share_inside (a ∷ b ∷ c ∷ d ∷ rest) h =
    let total = sum-exact_sum (a ∷ b ∷ c ∷ d ∷ rest) h in ground (arith, total)

-- The processor's usage is between 0 and 100 percent, whatever /proc/stat says, as long as the sum of
-- the numbers in its first line is below 2 ^ 64.
pub read_cpu_usage_inside :
    (stat : String)
    → exact_sum (cpu_numbers stat) < 2 ^ 64
    → is_outside (read_cpu_usage (some stat)) ≡ false
unfolding read_cpu_usage
read_cpu_usage_inside stat h = cpu_share_inside (cpu_numbers stat) h

unwrap_or-lt : (o : Option ℕ) → ((n : ℕ) → o ≡ some n → n < 2 ^ 64) → unwrap_or o 0 < 2 ^ 64
unwrap_or-lt none h = omega arith
unwrap_or-lt (some n) h = h n refl

or_zero-lt : (o : Option String) → or_zero o < 2 ^ 64
or_zero-lt none = omega arith
or_zero-lt (some v) = unwrap_or-lt (parse_u64 v) (parse_u64-lt v)

abbrev AreU64 : Memory → Type 0
AreU64 m = (m.total < 2 ^ 64) × (m.available < 2 ^ 64)

with_line-AreU64 : (line : String) (m : Memory) → AreU64 m → AreU64 (with_line line m)
with_line-AreU64 line m h = ground (arith, or_zero-lt (get_elem? (split_whitespace line) 1))

scan-AreU64 : (ls : List String) (m : Memory) → AreU64 m → AreU64 (scan ls m)
unfolding scan
scan-AreU64 [] m h = h
scan-AreU64 (l ∷ ls) m h = scan-AreU64 ls (with_line l m) (with_line-AreU64 l m h)

-- The usage of the memory is between 0 and 100 percent except when /proc/meminfo shows more memory
-- available than there is in all, and some in all: then the subtraction wraps around.
pub read_memory_usage_range :
    (info : String)
    → is_outside (read_memory_usage (some info))
      ≡ ltb 0 (memory_of info).total && ltb (memory_of info).total (memory_of info).available
unfolding read_memory_usage
read_memory_usage_range info =
    let bounds =
      scan-AreU64 (lines info) (record { total = 0; available = 0 }) (omega arith, omega arith) in
    ground (arith, bounds)
