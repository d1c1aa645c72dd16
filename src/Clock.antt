-- ===== src/Clock.antt =====
-- Go's `time.Time` as nanoseconds since its zero value (1 January of year 1, UTC), so that `IsZero`
-- is a test for 0. Unix seconds and nanoseconds keep that origin: each is Go's number plus a constant.
use opened_connect_server.Prelude.{
  ltb, eqb, ℕ, ◌*◌, ◌/◌, ◌%◌, ◌^◌, ◌+◌, ◌-◌, ◌≤◌, ◌<◌, ◌≡◌, arith, Bool,
}

abbrev pub Time : Type 0
Time = ℕ

abbrev pub Duration : Type 0
Duration = ℕ

abbrev pub second : Duration
second = 10 ^ 9

abbrev pub hour : Duration
hour = 3600 * second

-- t.IsZero()
abbrev pub is_zero : Time → Bool
is_zero t = eqb t 0

-- a.Before(b)
abbrev pub before : Time → Time → Bool
before a b = ltb a b

-- a.After(b)
abbrev pub after : Time → Time → Bool
after a b = ltb b a

-- a.Equal(b)
abbrev pub same_time : Time → Time → Bool
same_time a b = eqb a b

-- t.Unix()
abbrev pub unix : Time → ℕ
unix t = t / second

-- t.UnixNano(), an int64 that wraps round: the bit pattern
unfoldable pub unix_nano : Time → ℕ
unix_nano t = t % 2 ^ 64

-- the least time that `UnixNano` tells exactly, 2^63 ns before 1970
abbrev pub nano_epoch : Time
nano_epoch = 62135596800 * second - 2 ^ 63

-- time.Unix(0, n): the time of that range whose nanoseconds have the bit pattern
unfoldable pub from_unix_nano : ℕ → Time
from_unix_nano n = nano_epoch + (n + 2 ^ 64 - nano_epoch % 2 ^ 64) % 2 ^ 64

-- a time between 1678 and 2262 comes back from its nanoseconds
pub from_unix_nano-unix_nano :
    (t : Time) → nano_epoch ≤ t → t < nano_epoch + 2 ^ 64 → from_unix_nano (unix_nano t) ≡ t
unfolding from_unix_nano unix_nano
from_unix_nano-unix_nano t low high = omega arith
