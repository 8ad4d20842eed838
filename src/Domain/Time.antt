-- ===== src/Domain/Time.antt =====
-- Python's `datetime`: naive, or aware with an offset. An aware time is kept as the instant that
-- it names, by which Python and the database compare it, and its offset from UTC.
use sm_poster.Prelude.{ℕ, Option, none, some, Bool, ltb, leb}

pub data Offset : Type 0 where
  utc : Offset
  east west : ℕ → Offset

pub data Datetime : Type 0 where
  naive : ℕ → Datetime
  aware : ℕ → Offset → Datetime

-- The instant of a time that is read as UTC where it has no zone.
abbrev pub utc_instant : Datetime → ℕ
utc_instant (Datetime.naive wall) = wall
utc_instant (Datetime.aware instant offset) = instant

-- `normalize_persisted_utc` of pinterest_publisher.py
unfoldable pub normalize_persisted_utc : Option Datetime → Option Datetime
normalize_persisted_utc none = none
normalize_persisted_utc (some (Datetime.naive wall)) = some (Datetime.aware wall Offset.utc)
normalize_persisted_utc (some (Datetime.aware instant offset)) =
    some (Datetime.aware instant Offset.utc)

-- `a > b` and `a <= b` of two aware times, and of two stored times in a query.
abbrev pub is_after : Datetime → Datetime → Bool
is_after a b = ltb (utc_instant b) (utc_instant a)

abbrev pub is_due : Datetime → Datetime → Bool
is_due a now = leb (utc_instant a) (utc_instant now)
