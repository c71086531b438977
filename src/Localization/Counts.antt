-- ===== src/Localization/Counts.antt =====
-- The raw counts that device/bootloader/Source/localization.c drains for a calibration.
use swarmit.Base.{
  ℕ, zero, suc, ◌+◌, ◌≡◌, refl, ap, List, [], ◌∷◌, take, drop, if◌then◌else◌, Bool-cases, inl, inr,
}
use swarmit.Localization.{
  Basestation, Lh2RawSample, both_ready, drain_counts, localization_get_raw_counts,
}

-- The samples that wait in the basestations from number `i` on, in order.
unfoldable pub pending : ℕ → List Basestation → List Lh2RawSample
pending i [] = []
pending i (b ∷ bs) =
    let rest = pending (i + 1) bs in
    if both_ready b
    then record { lh_index = i; count1 = b.count1; count2 = b.count2 } ∷ rest
    else rest

drain_counts_lem :
    (i max : ℕ) (bs : List Basestation)
    → ((drain_counts i max bs).0 ≡ take max (pending i bs))
      × (pending i (drain_counts i max bs).1 ≡ drop max (pending i bs))
unfolding drain_counts pending
drain_counts_lem i zero [] = (refl, refl)
drain_counts_lem i (suc max) [] = (refl, refl)
drain_counts_lem i zero (b ∷ bs) = (refl, refl)
drain_counts_lem i (suc max) (b ∷ bs) = elim (Bool-cases (both_ready b)) [
  | inl e ↦ rw e (
    ap (λ r. record { lh_index = i; count1 = b.count1; count2 = b.count2 } ∷ r)
        (drain_counts_lem (i + 1) max bs).0,
    (drain_counts_lem (i + 1) max bs).1,
  )
  | inr e ↦ rw (e, e) (drain_counts_lem (i + 1) (suc max) bs)
]

-- The samples returned are the first `max` of those that wait, in the order of the basestations,
-- and exactly the others still wait afterwards.
pub get_raw_counts-pending :
    (bs : List Basestation) (max : ℕ)
    → ((localization_get_raw_counts bs max).0 ≡ take max (pending 0 bs))
      × (pending 0 (localization_get_raw_counts bs max).1 ≡ drop max (pending 0 bs))
unfolding localization_get_raw_counts
get_raw_counts-pending bs max = drain_counts_lem 0 max bs
