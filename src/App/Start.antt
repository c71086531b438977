-- ===== src/App/Start.antt =====
-- `main` of device/bootloader/Source/main.c from its first line to the user image or to the loop.
use swarmit.Base.{
  ℕ, ◌<◌, ◌≤◌, ◌≡◌, ap, sym, subst, ◌∙◌, arith, Bool, true, false, List, ◌&&◌, ◌==◌, Outcome, ◌>>=◌,
  Returns, Stops, Returns->>=, Returns-next, Returns-map,
}
use swarmit.Protocol.{ready, running}
use swarmit.Shared.{lh2_basestation_count_max, IpcSharedData, mari_init_req}
use swarmit.Localization.{Localizer}
use swarmit.Tz.{SpuBits}
use swarmit.Tz.User.{Board, ScbMasks, setup_memory}
use swarmit.Wires.{configure_channels}
use swarmit.App.{NetCore, IsNetCore, AppState}
use swarmit.App.Mari.{ipc_network_call, mari_init}
use swarmit.App.Drivers.{release_network_core}
use swarmit.App.Ota.{base_address}
use swarmit.App.Loop.{boot_intent_user_image}
use swarmit.App.Boot.{
  Machine, is_soft_reset, boot, init_localization, boot_after, start_up, setup_watchdog1,
}

-- The localization starts with any calibration that it has room for.
abbrev pub Starts : {L : Type 0} → Localizer L → Type 0
Starts {L} loc =
    (hs : List ℕ) (n : ℕ) (l : L)
    → 0 < n
    → n ≤ lh2_basestation_count_max
    → Returns (λ _. Unit) (loc.init hs n l)

-- The network core comes up.
abbrev pub Wakes : NetCore → Type 0
Wakes wake = (d : IpcSharedData) → (wake d).net_ready ≡ true

-- What the main loop starts from.
pub record IsFresh {L : Type 0} (s : AppState L) : Type 0 where
  pub status : s.shared.status ≡ ready
  pub base_addr : s.base_addr ≡ base_address
  pub erase : s.ota_require_erase ≡ true
  pub intent : s.boot_intent ≡ 0

released :
    {L : Type 0} (wake : NetCore) (wakes : Wakes wake) (forced_off : Bool) (s : AppState L)
    → Returns (λ t. t.boot_intent ≡ s.boot_intent) (release_network_core wake forced_off s)
unfolding release_network_core
released wake wakes forced_off s =
    ground (arith, wakes s.shared, wakes (record s.shared { net_ready = false }))

initialized :
    {L : Type 0} (answer : NetCore) (a : IsNetCore answer) (s : AppState L)
    → Returns (λ t. t.boot_intent ≡ s.boot_intent) (mari_init answer s)
unfolding mari_init ipc_network_call
initialized answer a s = ground (arith, a.acks (record s.shared { req = mari_init_req }))

module _ {L : Type 0} (loc : Localizer L) (bits : SpuBits) (masks : ScbMasks) (board : Board)
    (sreq_msk : ℕ) where
  boot-user :
      (m : Machine) (s : AppState L)
      → Starts loc
      → is_soft_reset sreq_msk m.reset_reason ≡ true
      → s.boot_intent ≡ boot_intent_user_image
      → ((boot loc bits masks board sreq_msk m s).0.in_user_image ≡ true)
        × Stops (λ s'. s'.shared.status ≡ running) (boot loc bits masks board sreq_msk m s).1
  unfolding boot init_localization
  boot-user m s i soft e = ground (
    arith,
    i s.shared.lh2_calibration.homographies s.shared.lh2_calibration.homography_count
        s.localization,
  )

  -- The loop is next.
  boot-ready :
      (m : Machine) (s : AppState L)
      → (is_soft_reset sreq_msk m.reset_reason && s.boot_intent == boot_intent_user_image) ≡ false
      → ((boot loc bits masks board sreq_msk m s).0.in_user_image ≡ m.in_user_image)
        × Returns IsFresh (boot loc bits masks board sreq_msk m s).1
  unfolding boot
  boot-ready m s e = ground arith

  -- The registers when the start decides.
  abbrev pub prepared : Machine → Machine
  prepared m = record m {
    spu = setup_memory bits m.spu;
    watchdog1 = setup_watchdog1 m.watchdog1;
    wires = configure_channels m.wires;
  }

  module _ (wake answer : NetCore) (wakes : Wakes wake) (a : IsNetCore answer) (forced_off : Bool)
      (device_type level : ℕ) (m : Machine) (s : AppState L) where
    answered :
        Returns
          (λ t. t.boot_intent ≡ s.boot_intent)
          (release_network_core wake forced_off
              (record s { shared = record s.shared { device_type = device_type } })
            >>= mari_init answer)
    answered =
        Returns->>= (λ t. t.boot_intent ≡ s.boot_intent) (λ t. t.boot_intent ≡ s.boot_intent) _ _
          (released wake wakes forced_off _)
          (λ t e. Returns-map (mari_init answer t) (initialized answer a t) (λ u k. k ∙ e))

    abbrev start : Machine × Outcome (AppState L)
    start = start_up loc bits masks board sreq_msk wake answer forced_off device_type level m s

    -- A start comes as far as its decision, with the intent that was left.
    booted :
        (t : AppState L) × (t.boot_intent ≡ s.boot_intent)
        × (start ≡ boot loc bits masks board sreq_msk (prepared m) t)
    unfolding start_up boot_after
    booted =
        let (t, e, q) = Returns-next _ answered in
        (
          record t { shared = record t.shared { battery_level = level } },
          e,
          ap (boot_after loc bits masks board sreq_msk level (prepared m)) q,
        )

    -- A reset by software with the intent for the user image ends in it.
    pub start-user :
        Starts loc
        → is_soft_reset sreq_msk m.reset_reason ≡ true
        → s.boot_intent ≡ boot_intent_user_image
        → (start.0.in_user_image ≡ true) × Stops (λ s'. s'.shared.status ≡ running) start.1
    start-user i soft e =
        let (t, k, q) = booted in
        subst
          (λ (z : Machine × Outcome (AppState L)).
            (z.0.in_user_image ≡ true) × Stops (λ s'. s'.shared.status ≡ running) z.1)
          (sym q) (boot-user (prepared m) t i soft (k ∙ e))

    -- Any other start comes to the loop.
    pub start-ready :
        (is_soft_reset sreq_msk m.reset_reason && s.boot_intent == boot_intent_user_image) ≡ false
        → (start.0.in_user_image ≡ m.in_user_image) × Returns IsFresh start.1
    start-ready e =
        let (t, k, q) = booted in
        subst
          (λ (z : Machine × Outcome (AppState L)).
            (z.0.in_user_image ≡ m.in_user_image) × Returns IsFresh z.1)
          (sym q)
          (boot-ready (prepared m) t (
            ap (λ (b : ℕ). is_soft_reset sreq_msk m.reset_reason && b == boot_intent_user_image) k
            ∙ e))
