-- ===== src/Localization.antt =====
-- device/bootloader/Source/localization.c. The lighthouse driver and the floating-point operations
-- are parameters; the basestations are a list, one for each of the driver's LH2_BASESTATION_COUNT.
pub mod Counts
pub mod Position
use swarmit.Base.{
  ℕ, zero, suc, Bool, true, false, List, [], ◌∷◌, ◌+◌, ◌&&◌, ◌||◌, ◌==◌, ltb, not, if◌then◌else◌,
  take, drop, Outcome, next, stopped, Option, none, some, ◌*◌, fault,
}
use swarmit.Shared.{Position2d, lh2_basestation_count_max}

-- What `db_lh2_t` keeps of a basestation: whether each sweep has DB_LH2_PROCESSED_DATA_AVAILABLE,
-- and the `lfsr_counts` of its two locations.
pub record Basestation : Type 0 where
  pub ready0 : Bool
  pub ready1 : Bool
  pub count1 : ℕ
  pub count2 : ℕ

-- lh2_raw_sample_t
pub record Lh2RawSample : Type 0 where
  pub lh_index : ℕ
  pub count1 : ℕ
  pub count2 : ℕ

-- The `double` and `float` operations of the program, and `db_lh2_calculate_position`, which turns
-- two counts and an index into coordinates.
pub record Reals : Type 1 where
  pub Double : Type 0
  pub Float : Type 0
  pub calculate_position : ℕ → ℕ → ℕ → Double × Double
  pub double_of : ℕ → Double
  pub lt_double : Double → Double → Bool
  pub u32_of_double : Double → ℕ
  pub float_of_u32 : ℕ → Float
  pub sub_float : Float → Float → Float
  pub add_float : Float → Float → Float
  pub powf : Float → Float → Float
  pub sqrtf : Float → Float
  pub lt_float : Float → Float → Bool

abbrev pub both_ready : Basestation → Bool
both_ready b = b.ready0 && b.ready1

abbrev pub clear_ready : Basestation → Basestation
clear_ready b = record b { ready0 = false; ready1 = false }

-- The test of `localization_process_data`, after the driver has processed what came in.
unfoldable pub any_ready : List Basestation → Bool
any_ready [] = false
any_ready (b ∷ bs) = if both_ready b then true else any_ready bs

-- The loop of `localization_get_raw_counts` from `lh_index` on with room for `room` samples: the
-- samples written, and the basestations after.
unfoldable pub drain_counts : ℕ → ℕ → List Basestation → List Lh2RawSample × List Basestation
drain_counts lh_index room [] = ([], [])
drain_counts lh_index zero (b ∷ bs) = ([], b ∷ bs)
drain_counts lh_index (suc room) (b ∷ bs) =
    let (samples, rest) =
      drain_counts (lh_index + 1) (if both_ready b then room else suc room) bs in
    if both_ready b
    then (
      record { lh_index = lh_index; count1 = b.count1; count2 = b.count2 } ∷ samples,
      clear_ready b ∷ rest,
    )
    else (samples, b ∷ rest)

unfoldable pub localization_get_raw_counts :
    List Basestation → ℕ → List Lh2RawSample × List Basestation
unfolding drain_counts
localization_get_raw_counts bs max = drain_counts 0 max bs

-- The previous position is still the one of the start-up.
abbrev pub is_origin : Position2d → Bool
is_origin p = p.x == 0 && p.y == 0

module _ (r : Reals) where
  open r use {
    Float, Double, calculate_position, double_of, lt_double, u32_of_double, float_of_u32, sub_float,
    add_float, powf, sqrtf, lt_float,
  }

  -- `localization_data_t` with the two flags beside it.
  pub record LocalizationData : Type 0 where
    pub basestations : List Basestation
    pub coordinates : Double × Double
    pub position : Position2d
    pub previous_position : Position2d
    pub calibration_loaded : Bool
    pub lh2_started : Bool
    -- The calls of `db_lh2_store_homography`, the last one first.
    pub stored : List (ℕ × List ℕ)
    -- How often the driver was set up by `db_lh2_init` and started.
    pub starts : ℕ

  -- _distance
  unfoldable pub distance : Position2d → Position2d → Float
  distance reference current =
      let dx = sub_float (float_of_u32 current.x) (float_of_u32 reference.x) in
      let dy = sub_float (float_of_u32 current.y) (float_of_u32 reference.y) in
      sqrtf (add_float (powf dx (float_of_u32 2)) (powf dy (float_of_u32 2)))

  -- `distance > VALID_POSITION_DISTANCE_THRESHOLD_MM`
  unfoldable pub too_far : Position2d → Position2d → Bool
  unfolding distance
  too_far previous position = lt_float (float_of_u32 500) (distance previous position)

  unfoldable pub localization_start : LocalizationData → LocalizationData
  localization_start d =
      if d.lh2_started then d else record d { lh2_started = true; starts = d.starts + 1 }

  -- The loop of `localization_init`: matrix `lh_index`, with the rounds left.
  unfoldable pub store_homographies : List ℕ → ℕ → ℕ → List (ℕ × List ℕ) → List (ℕ × List ℕ)
  store_homographies hs lh_index zero acc = acc
  store_homographies hs lh_index (suc n) acc =
      store_homographies hs (lh_index + 1) n ((lh_index, take 9 (drop (9 * lh_index) hs)) ∷ acc)

  -- The shared structure has sixteen matrices: the loop reads past them for a greater count.
  unfoldable pub localization_init : List ℕ → ℕ → LocalizationData → Outcome LocalizationData
  unfolding localization_start store_homographies
  localization_init homographies count d =
      let d' = localization_start d in
      if ltb lh2_basestation_count_max count
      then fault
      else next (record d' {
        stored = store_homographies homographies 0 count d'.stored;
        calibration_loaded = ltb 0 count;
      })

  -- `process` is `db_lh2_process_location`.
  unfoldable pub localization_process_data :
      (List Basestation → List Basestation) → LocalizationData → Bool × LocalizationData
  unfolding any_ready
  localization_process_data process d =
      let bs = process d.basestations in (any_ready bs, record d { basestations = bs })

  -- The loop of `localization_get_position`: the first basestation with both sweeps ready gives the
  -- coordinates, and its flags are cleared.
  unfoldable pub calculate :
      ℕ → List Basestation → Double × Double → List Basestation × (Double × Double)
  calculate lh_index [] coords = ([], coords)
  calculate lh_index (b ∷ bs) coords =
      let rest = calculate (lh_index + 1) bs coords in
      if both_ready b
      then (clear_ready b ∷ bs, calculate_position b.count1 b.count2 lh_index)
      else (b ∷ rest.0, rest.1)

  -- The test of the coordinates: below 0 or above 100000.
  unfoldable pub out_of_range : Double × Double → Bool
  out_of_range (x, y) =
      lt_double x (double_of 0)
      || lt_double (double_of 100000) x
      || lt_double y (double_of 0)
      || lt_double (double_of 100000) y

  -- What follows the loop: the filter on the coordinates and on the distance moved. `none` stands
  -- for the result `false`, `some` for `true` with the position written.
  unfoldable pub filter_position : LocalizationData → Option Position2d × LocalizationData
  unfolding out_of_range too_far
  filter_position d =
      if out_of_range d.coordinates
      then (none, d)
      else if too_far previous position
      then (none, moved)
      else (some position, record moved { previous_position = position })
    where
      position : Position2d
      position = record { x = u32_of_double d.coordinates.0; y = u32_of_double d.coordinates.1 }

      previous : Position2d
      previous = if is_origin d.previous_position then position else d.previous_position

      moved : LocalizationData
      moved = record d { position = position; previous_position = previous }

  -- The loop, on the whole of the data.
  unfoldable pub update_coordinates : LocalizationData → LocalizationData
  unfolding calculate
  update_coordinates d =
      let (bs, coords) = calculate 0 d.basestations d.coordinates in
      record d { basestations = bs; coordinates = coords }

  unfoldable pub localization_get_position : LocalizationData → Option Position2d × LocalizationData
  unfolding update_coordinates filter_position
  localization_get_position d =
      if d.calibration_loaded then filter_position (update_coordinates d) else (none, d)

-- What a client uses of this module, over any kind of localization data.
pub record Localizer (L : Type 0) : Type 0 where
  pub start : L → L
  pub init : List ℕ → ℕ → L → Outcome L
  pub process_data : L → Bool × L
  pub get_position : L → Option Position2d × L
  pub get_raw_counts : L → ℕ → List Lh2RawSample × L

-- The module itself, with a driver that processes what came in.
abbrev pub localizer :
    (r : Reals) → (List Basestation → List Basestation) → Localizer (LocalizationData r)
localizer r process = record {
  start = localization_start r;
  init = localization_init r;
  process_data = localization_process_data r process;
  get_position = localization_get_position r;
  get_raw_counts = λ d max.
      let (samples, bs) = localization_get_raw_counts d.basestations max in
      (samples, record d { basestations = bs });
}
