-- ===== src/Go/Duration.antt =====
-- Go's `time.Duration`: int64 nanoseconds, which wrap around.
use kafkarator.Base.{ℕ, ℤ}
use kafkarator.Base.Int.{wrap64, scale, quot}

abbrev pub nanoseconds_per_hour : ℕ
nanoseconds_per_hour = 3600000000000

-- `time.Duration(n) * time.Hour`
unfoldable pub hours : ℤ → ℤ
hours n = wrap64 (scale n nanoseconds_per_hour)

-- `Duration.Milliseconds()`
unfoldable pub milliseconds : ℤ → ℤ
milliseconds d = quot d 1000000
