-- ===== src/Topic/Fields.antt =====
-- The helpers that turn fields of the resource into fields of a request. A pointer is an `Option`.
use kafkarator.Base.{
  ℤ, Bool, true, false, ◌||◌, String, Option, none, some, if◌then◌else◌, map_option,
}
use kafkarator.Base.Int.{pos, negsuc, ltb_ℤ}
use kafkarator.Go.{Result, ok, err, text, ◌>>?◌}
use kafkarator.Go.Duration.{hours, milliseconds}
use kafkarator.External.{Numeric, Config}

abbrev pub delete_retention_hour_default : ℤ
delete_retention_hour_default = pos 0

abbrev pub retention_hour_default : ℤ
retention_hour_default = negsuc 0

abbrev pub local_retention_hour_default : ℤ
local_retention_hour_default = negsuc 1

-- `retentionMs`
unfoldable pub retention_ms : Option ℤ → ℤ → Option ℤ
retention_ms none dflt = none
retention_ms (some h) dflt = some (if ltb_ℤ h (pos 0) then dflt else milliseconds (hours h))

-- `intpBiggerThan`
unfoldable pub intp_bigger_than : Option ℤ → Option ℤ → Bool
intp_bigger_than (some first) (some second) = ltb_ℤ second first
intp_bigger_than _ _ = false

-- `intpToInt64p`: an int has 64 bits.
unfoldable pub intp_to_int64p : Option ℤ → Option ℤ
intp_to_int64p none = none
intp_to_int64p (some i) = some i

-- `*p > 0`, and false at nil.
abbrev pub is_positive : Option ℤ → Bool
is_positive none = false
is_positive (some n) = ltb_ℤ (pos 0) n

module _ {N : Numeric} where
  -- `segmentMs`
  unfoldable pub segment_ms : Config N → Option ℤ
  segment_ms cfg =
      map_option (λ h. milliseconds (if ltb_ℤ h (pos 1) then hours (pos 1) else hours h))
        cfg.segment_hours

  -- `cleanupPolicy`
  unfoldable pub cleanup_policy : Config N → String
  cleanup_policy cfg = elim cfg.cleanup_policy [ none ↦ "" | some policy ↦ policy ]

  -- `enableRemoteStorage`
  unfoldable pub enable_remote_storage : Config N → Option Bool
  enable_remote_storage cfg =
      if is_positive cfg.local_retention_bytes
      then some true
      else (if is_positive cfg.local_retention_hours then some true else none)

module _ (N : Numeric) where
  -- The end of `percentToRatio`, on the scaled value.
  unfoldable pub checked_ratio : ℤ → Result N.Float64
  checked_ratio value =
      if ltb_ℤ value (pos 1) || ltb_ℤ (pos 100) value
      then err (text "invalid percentage value")
      else ok (N.divide (N.of_int value) (N.of_int (pos 100)))

  -- `percentToRatio`. The text of its own error leaves the value out.
  unfoldable pub percent_to_ratio : Option N.IntOrString → Result (Option N.Float64)
  percent_to_ratio none = ok none
  percent_to_ratio (some percent) = N.scaled_value percent (pos 100) false >>? λ value.
      checked_ratio value >>? λ ratio. ok (some ratio)
