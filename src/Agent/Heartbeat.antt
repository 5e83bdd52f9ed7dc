-- ===== src/Agent/Heartbeat.antt =====
-- robot-agent/src/heartbeat.rs: the readings from /proc, and one stream of heartbeats. A percentage is
-- kept as the two numbers that the source divides as floats; the contents of the files are given, where
-- none stands for one that cannot be read. Numbers wrap around as in a release build.
pub mod Usage
pub mod Directives
use Prim.Native.String.{String}
use robot_fleet.Prelude.{
  ℕ, zero, suc, ◌+◌, ◌-◌, ◌%◌, ◌^◌, Bool, true, false, Option, none, some, List, [], ◌∷◌, map,
  get_elem?, unwrap_or, drop, nat_eq, if◌then◌else◌, Result, ok, err, ◌==◌, length, ltb,
}
use text.Mathlib.Text.{starts_with}
use robot_fleet.Prelude.Split.{split, split_whitespace, parse_u64, lines}
use robot_fleet.Agent.Error.{Error}

-- `absent` is 0.0, `idle_of` is (1.0 - idle / total) * 100.0 and `used_of` is used / total * 100.0.
pub data Percent : Type 0 where
  absent : Percent
  idle_of : ℕ → ℕ → Percent
  used_of : ℕ → ℕ → Percent

-- `filter_map(|s| s.parse().ok())`
abbrev pub parsed : List String → List ℕ
parsed [] = []
parsed (s ∷ ss) = elim (parse_u64 s) [ none ↦ parsed ss | some n ↦ n ∷ parsed ss ]

-- `sum`, of `u64`s
abbrev pub sum : List ℕ → ℕ
sum [] = 0
sum (n ∷ ns) = (n + sum ns) % 2 ^ 64

abbrev pub cpu_share : List ℕ → Percent
cpu_share (user ∷ nice ∷ system ∷ idle ∷ rest) =
    let total = sum (user ∷ nice ∷ system ∷ idle ∷ rest) in
    if nat_eq total 0 then absent else idle_of idle total
cpu_share (user ∷ nice ∷ system ∷ []) = absent
cpu_share (user ∷ nice ∷ []) = absent
cpu_share (user ∷ []) = absent
cpu_share [] = absent

abbrev pub cpu_numbers : String → List ℕ
cpu_numbers stat =
    let line = unwrap_or (get_elem? (lines stat) 0) "" in parsed (drop 1 (split_whitespace line))

unfoldable pub read_cpu_usage : Option String → Percent
read_cpu_usage none = absent
read_cpu_usage (some stat) = cpu_share (cpu_numbers stat)

abbrev pub or_zero : Option String → ℕ
or_zero none = 0
or_zero (some v) = unwrap_or (parse_u64 v) 0

-- the second word of a line as a number, or 0
abbrev pub amount : String → ℕ
amount line = or_zero (get_elem? (split_whitespace line) 1)

pub record Memory : Type 0 where
  pub total : ℕ
  pub available : ℕ

abbrev pub with_line : String → Memory → Memory
with_line line m =
    if starts_with line "MemTotal:"
    then record m { total = amount line }
    else if starts_with line "MemAvailable:"
    then record m { available = amount line }
    else m

unfoldable pub scan : List String → Memory → Memory
scan [] m = m
scan (line ∷ rest) m = scan rest (with_line line m)

-- `total - available`, of two `u64`s
abbrev pub used : Memory → ℕ
used m = (2 ^ 64 + m.total - m.available) % 2 ^ 64

abbrev pub memory_share : Memory → Percent
memory_share m = if nat_eq m.total 0 then absent else used_of (used m) m.total

abbrev pub memory_of : String → Memory
memory_of info = scan (lines info) (record { total = 0; available = 0 })

unfoldable pub read_memory_usage : Option String → Percent
read_memory_usage none = absent
read_memory_usage (some info) = memory_share (memory_of info)

pub record HeartbeatRequest : Type 0 where
  pub device_id : String
  pub cpu_percent : Percent
  pub memory_percent : Percent

-- one round of the sending task, from the contents of /proc/stat and /proc/meminfo
abbrev pub request : String → Option String → Option String → HeartbeatRequest
request device_id stat info = record {
  device_id = device_id;
  cpu_percent = read_cpu_usage stat;
  memory_percent = read_memory_usage info;
}

-- The loop that reads the directives; a call that is refused is an error at the head of the list. What it
-- returns, and how often it has run the command `reboot`
unfoldable pub run_stream : List (Result Error String) → Result Error (Unit {0}) × ℕ
run_stream [] = (ok tt, 0)
run_stream (err e ∷ rest) = (err e, 0)
run_stream (ok directive ∷ rest) =
    let (result, reboots) = run_stream rest in
    (result, if directive == "reboot" then suc reboots else reboots)
