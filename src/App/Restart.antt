-- ===== src/App/Restart.antt =====
-- Which image runs after a reset (device/bootloader/Source/main.c).
use swarmit.Base.{ℕ, true, false, ◌≡◌, arith, ◌||◌, Leads}
use swarmit.Localization.{Localizer}
use swarmit.Tz.{SpuBits}
use swarmit.Tz.User.{Board, ScbMasks}
use swarmit.App.{AppState}
use swarmit.App.Loop.{handle_resets}
use swarmit.App.Boot.{Machine, is_soft_reset, boot}

module _ {L : Type 0} (loc : Localizer L) (bits : SpuBits) (masks : ScbMasks) (board : Board)
    (sreq_msk : ℕ) where
  -- The intent is used up by the start that reads it, whichever image that start leads to.
  pub boot-intent :
      (m : Machine) (s : AppState L)
      → Leads (λ s'. s'.boot_intent ≡ 0) (boot loc bits masks board sreq_msk m s).1
  unfolding boot
  boot-intent m s = ground arith

  -- When the main loop resets the chip, the start that follows with the intent it left enters the
  -- user image exactly if a start was asked for: a start wins over a reset that came with it.
  pub handle_resets-boot :
      (m : Machine) (s t : AppState L)
      → m.in_user_image ≡ false
      → is_soft_reset sreq_msk m.reset_reason ≡ true
      → (s.start_application || s.system_reset_requested) ≡ true
      → Leads
          (λ s'.
            (boot loc bits masks board sreq_msk m
              (record t { boot_intent = s'.boot_intent })).0.in_user_image
            ≡ s.start_application)
          (handle_resets loc s)
  unfolding boot handle_resets
  handle_resets-boot m s t h soft r = ground arith
