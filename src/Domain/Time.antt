-- ===== src/Domain/Time.antt =====
-- Go's time.Time as the source uses it: an instant and the offset of its zone. Instants count
-- nanoseconds from the earliest that the type holds, 2 ^ 63 seconds before the zero time.
use ctrldb.Prelude.{ℕ, ◌*◌, ◌^◌, Bool, ltb, ◌==◌, ◌&&◌}

pub record Time : Type 0 where
  pub instant : ℕ
  pub offset : ℕ  -- the zone's distance from UTC; only whether it is 0 is asked

-- `time.Time{}`
abbrev pub zero_instant : ℕ
zero_instant = 2 ^ 63 * 1000000000

abbrev pub zero_time : Time
zero_time = record { instant = zero_instant; offset = 0 }

-- `IsZero`
abbrev pub is_zero : Time → Bool
is_zero t = t.instant == zero_instant

-- `t.Before(u)`
abbrev pub before : Time → Time → Bool
before t u = ltb t.instant u.instant

-- `t.After(u)`
abbrev pub is_after : Time → Time → Bool
is_after t u = ltb u.instant t.instant

-- `t.Equal(u)`
abbrev pub same_instant : Time → Time → Bool
same_instant t u = t.instant == u.instant

-- `t == u`, which compares the zone too.
abbrev pub same_time : Time → Time → Bool
same_time t u = t.instant == u.instant && t.offset == u.offset
