-- ===== src/Types/Time.antt =====
-- `time.Time` as the instant in nanoseconds since Go's zero time. The location of a value is not
-- modelled: it changes neither comparison nor, after `UTC()`, what is signed.
use client_api.Prelude.{ℕ, ◌*◌, ◌/◌, Bool, ltb, ◌==◌, nat_eq}

abbrev pub Time : Type 0
Time = ℕ

abbrev pub second : ℕ
second = 1000000000

abbrev pub minute : ℕ
minute = 60 * second

abbrev pub hour : ℕ
hour = 60 * minute

-- t.IsZero()
abbrev pub is_zero : Time → Bool
is_zero t = t == 0

-- t.Before(u)
abbrev pub before : Time → Time → Bool
before t u = ltb t u

-- t.After(u)
abbrev pub after : Time → Time → Bool
after t u = ltb u t

-- t.Truncate(time.Second)
abbrev pub truncate_second : Time → Time
truncate_second t = t / second * second
