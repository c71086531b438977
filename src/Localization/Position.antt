-- ===== src/Localization/Position.antt =====
-- The filter on positions of device/bootloader/Source/localization.c.
use swarmit.Base.{true, false, ◌≡◌, arith, none, if◌then◌else◌}
use swarmit.Shared.{Position2d}
use swarmit.Localization.{
  Reals, LocalizationData, out_of_range, too_far, is_origin, localization_get_position,
}

-- What an accepted position `q` tells of the data before (`d`) and after (`d'`).
pub record Accepted (r : Reals) (d d' : LocalizationData r) (q : Position2d) : Type 0 where
  pub loaded : d.calibration_loaded ≡ true
  pub in_range : out_of_range r d'.coordinates ≡ false
  pub near : too_far r (if is_origin d.previous_position then q else d.previous_position) q ≡ false
  pub remembered : d'.previous_position ≡ q
  pub x : q.x ≡ r.u32_of_double d'.coordinates.0
  pub y : q.y ≡ r.u32_of_double d'.coordinates.1

module _ (r : Reals) (d : LocalizationData r) where
  -- A rejected position does not replace the one that the next is compared with, once there is one.
  pub get_position-rejected :
      is_origin d.previous_position ≡ false
      → (localization_get_position r d).0 ≡ none
      → (localization_get_position r d).1.previous_position ≡ d.previous_position
  unfolding localization_get_position
  get_position-rejected o h = ground arith
