-- ===== src/Topic/Hours.antt =====
-- The conversion of hours to milliseconds: where it is exact, and where int64 overflows.
use kafkarator.Base.{ℕ, suc, ◌-◌, ◌*◌, ◌/◌, ◌^◌, ◌≤◌, ℤ, ◌≡◌, some, arith}
use kafkarator.Base.{zero}
use kafkarator.Base.Int.{◌≤ℤ◌}
use kafkarator.Base.Int.{pos, negsuc, ◌≤ℤ◌, wrap64, scale, quot, wrap64_id}
use kafkarator.Go.Duration.{hours, milliseconds}
use kafkarator.External.{Numeric, Config}
use kafkarator.Topic.Fields.{retention_ms, segment_ms}

scale-pos : (h : ℕ) → scale (pos h) 3600000000000 ≡ pos (h * 3600000000000)
unfolding scale
scale-pos h = ground arith

hours-exact : (h : ℕ) → h ≤ 2562047 → hours (pos h) ≡ pos (h * 3600000000000)
unfolding hours
hours-exact h le = rw scale-pos (wrap64_id (pos (h * 3600000000000)) (omega arith))

hours-wrapped :
    (h : ℕ) → 2562048 ≤ h → h ≤ 5124095 → hours (pos h) ≡ negsuc (2 ^ 64 - 1 - h * 3600000000000)
unfolding hours wrap64
hours-wrapped h lo hi = rw scale-pos (ground arith)

milliseconds-pos : (h : ℕ) → milliseconds (pos (h * 3600000000000)) ≡ pos (h * 3600000)
unfolding milliseconds quot
milliseconds-pos h = ground arith

milliseconds-negsuc :
    (n : ℕ) → 1000000 ≤ suc n → milliseconds (negsuc n) ≡ negsuc (suc n / 1000000 - 1)
unfolding milliseconds quot
milliseconds-negsuc n h = ground arith

-- From 0 hours to 2562047 (292 years) `retentionMs` is exact.
pub retention_ms_exact :
    (dflt : ℤ) (h : ℕ) → h ≤ 2562047 → retention_ms (some (pos h)) dflt ≡ some (pos (h * 3600000))
unfolding retention_ms
retention_ms_exact dflt h le = rw (hours-exact h le, milliseconds-pos) (ground arith)

-- From 2562048 hours up to 5124094 the product overflows, and `retentionMs` gives a negative number
-- of milliseconds.
pub retention_ms_overflow :
    (dflt : ℤ) (h : ℕ)
    → 2562048 ≤ h
    → h ≤ 5124094
    → (m : ℕ) × (retention_ms (some (pos h)) dflt ≡ some (negsuc m))
unfolding retention_ms
retention_ms_overflow dflt h lo hi = (
  suc (2 ^ 64 - 1 - h * 3600000000000) / 1000000 - 1,
  rw
      (
        hours-wrapped h lo (omega arith),
        milliseconds-negsuc (2 ^ 64 - 1 - h * 3600000000000) (omega arith),
      )
      (ground arith),
)

-- The larger of a number and 1.
abbrev pub at_least_one : ℤ → ℕ
at_least_one (pos zero) = 1
at_least_one (pos (suc k)) = suc k
at_least_one (negsuc k) = 1

-- A segment length that is set and at most 2562047 hours is sent as the larger of it and one hour, exactly.
pub segment_ms_bounds :
    {N : Numeric} (cfg : Config N) (h : ℤ)
    → cfg.segment_hours ≡ some h
    → h ≤ℤ pos 2562047
    → segment_ms cfg ≡ some (pos (at_least_one h * 3600000))
unfolding segment_ms
segment_ms_bounds cfg (pos zero) e le =
    rw (e, hours-exact 1 (omega arith), milliseconds-pos) (ground arith)
segment_ms_bounds cfg (pos (suc k)) e le =
    ground (arith, hours-exact (suc k) (omega arith), milliseconds-pos (suc k))
segment_ms_bounds cfg (negsuc k) e le =
    ground (arith, hours-exact 1 (omega arith), milliseconds-pos 1)
