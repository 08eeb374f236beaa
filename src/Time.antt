-- ===== src/Time.antt =====
-- Timestamps as `Date.parse` reads them, and the numbers of seconds that callers give (the
-- `IsoTimestamp` of src/accounts/types.ts and the date arithmetic of the services).
--
-- A timestamp is a text. What the code observes of a non-empty one is what `Date.parse` makes of it:
-- a time, counted here in milliseconds from the earliest date that JavaScript can hold, or NaN.
-- A comparison with NaN is false.
use swooshz_platform.Base.{ℕ, Bool, false, Option, none, some, ltb, leb, if◌then◌else◌}

pub data Timestamp : Type 0 where
  at : ℕ → Timestamp
  malformed : Timestamp

-- `Date.parse(a) <= Date.parse(b)`
abbrev pub at_or_before : Timestamp → Timestamp → Bool
at_or_before (at a) (at b) = leb a b
at_or_before _ _ = false

-- `Date.parse(a) > Date.parse(b)`
abbrev pub is_after : Timestamp → Timestamp → Bool
is_after (at a) (at b) = ltb b a
is_after _ _ = false

-- The latest date that JavaScript can hold, counted from the earliest.
abbrev pub max_date : ℕ
max_date = 17_280_000_000_000_000

-- `new Date(ms).toISOString()`; `none` is its `RangeError`.
abbrev pub to_iso_string : ℕ → Option Timestamp
to_iso_string ms = if leb ms max_date then some (at ms) else none

-- A `number` of seconds, where it is whole; `not_finite` stands for NaN and the infinities.
pub data Seconds : Type 0 where
  not_finite : Seconds
  pos : ℕ → Seconds
  negsuc : ℕ → Seconds
