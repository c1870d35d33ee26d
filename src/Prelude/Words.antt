-- ===== src/Prelude/Words.antt =====
-- Go's int64 and uint64 as bit patterns below 2 ^ 64: sums and products wrap, and the signed
-- readings are written out. An instant is the pattern of its UnixNano.
use Prim.Native.Nat.{ℕ, ◌+◌, ◌-◌, ◌*◌, ◌/◌, ◌%◌, ◌^◌, ◌<◌}
use mathlib.Core.Path.{◌≡◌, refl}
use mathlib.Core.Bool.{Bool, true, ◌||◌}
use rapid_proxy.Prelude.Tests.{ltb, leb, ◌==◌, if◌then◌else◌}

abbrev pub Int64 : Type 0
Int64 = ℕ

-- The k-th time that an operation reads the clock.
abbrev pub Clock : Type 0
Clock = ℕ → Int64

abbrev pub add64 : Int64 → Int64 → Int64
add64 a b = (a + b) % 2 ^ 64

abbrev pub sub64 : Int64 → Int64 → Int64
sub64 a b = (a + 2 ^ 64 - b) % 2 ^ 64

abbrev pub mul64 : Int64 → Int64 → Int64
mul64 a b = a * b % 2 ^ 64

-- Go's `a / b` truncates towards zero; `b` is a positive divisor here.
abbrev pub div64 : Int64 → Int64 → Int64
div64 a b = if ltb a (2 ^ 63) then a / b else (2 ^ 64 - (2 ^ 64 - a) / b) % 2 ^ 64

abbrev pub le_zero64 : Int64 → Bool
le_zero64 a = a == 0 || leb (2 ^ 63) a

-- Signed comparisons: adding 2 ^ 63 makes the order that of the patterns.
abbrev pub ltb64 : Int64 → Int64 → Bool
ltb64 a b = ltb ((a + 2 ^ 63) % 2 ^ 64) ((b + 2 ^ 63) % 2 ^ 64)

abbrev pub leb64 : Int64 → Int64 → Bool
leb64 a b = leb ((a + 2 ^ 63) % 2 ^ 64) ((b + 2 ^ 63) % 2 ^ 64)

-- The pattern of a value that is not negative, and of one that is positive.
abbrev pub IsNonneg : Int64 → Type 0
IsNonneg a = a < 2 ^ 63

abbrev pub IsPositive : Int64 → Type 0
IsPositive a = (0 < a) × (a < 2 ^ 63)

abbrev pub nanos_per_sec : Int64
nanos_per_sec = 1_000_000_000

-- The two's complement pattern of -1, for tests.
abbrev pub minus_one : Int64
minus_one = 2 ^ 64 - 1

ltb64_signed : ltb64 minus_one 0 ≡ true
ltb64_signed = refl

div64_signed : div64 (2 ^ 64 - 7) 2 ≡ 2 ^ 64 - 3
div64_signed = refl
