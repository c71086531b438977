-- ===== src/Tz/User.antt =====
-- `setup_ns_user` of device/bootloader/Source/main.c: what the bootloader opens to the user image
-- before it jumps to it, and the memory map set at the start of `main`.
use Prim.Native.Nat.{bit_or, bit_and, bit_xor}
use swarmit.Base.{ℕ, ◌^◌, Bool, true, false, List, [], ◌∷◌, if◌then◌else◌}
use swarmit.Tz.{
  SpuBits, Spu, assign, tz_configure_periph_non_secure, tz_configure_periph_dma_non_secure,
  tz_configure_flash_secure, tz_configure_flash_non_secure, tz_configure_ram_secure,
  tz_configure_ram_non_secure,
}

-- NRF_APPLICATION_PERIPH_ID_MUTEX
abbrev pub periph_mutex : ℕ
periph_mutex = 48

-- The peripherals opened, by the identifiers of tz.h, in the order of the calls, and whether the
-- call for their DMA follows.
abbrev pub user_periphs : List (ℕ × Bool)
user_periphs =
    (40, true)
    ∷ (66, false)
    ∷ (38, true)
    ∷ (26, false)
    ∷ (27, false)
    ∷ (28, false)
    ∷ (29, false)
    ∷ (30, false)
    ∷ (31, false)
    ∷ (32, false)
    ∷ (33, true)
    ∷ (34, true)
    ∷ (35, true)
    ∷ (36, true)
    ∷ (51, false)
    ∷ (52, false)
    ∷ (43, true)
    ∷ (20, false)
    ∷ (21, false)
    ∷ (8, true)
    ∷ (9, true)
    ∷ (11, true)
    ∷ (12, true)
    ∷ (15, false)
    ∷ (16, false)
    ∷ (54, true)
    ∷ (55, false)
    ∷ []

-- The interrupts that `NVIC_SetTargetState` hands to the user image, in the order of the calls.
pub data Irq : Type 0 where
  i2s0 pdm0 egu0 egu1 egu2 egu3 egu4 egu5 pwm0 pwm1 pwm2 pwm3 qdec0 qdec1 qspi : Irq
  rtc0 rtc1 serial0 serial1 serial2 serial3 timer0 timer1 usbd usbregulator gpiote0 gpiote1 : Irq
  ipc spim4 : Irq

abbrev pub user_irqs : List Irq
user_irqs =
    i2s0 ∷ pdm0 ∷ egu0 ∷ egu1 ∷ egu2 ∷ egu3 ∷ egu4 ∷ egu5 ∷ pwm0 ∷ pwm1 ∷ pwm2 ∷ pwm3 ∷ qdec0
    ∷ qdec1 ∷ qspi ∷ rtc0 ∷ rtc1 ∷ serial0 ∷ serial1 ∷ serial2 ∷ serial3 ∷ timer0 ∷ timer1 ∷ usbd
    ∷ usbregulator ∷ gpiote0 ∷ gpiote1 ∷ []

-- The board: where the lighthouse pins are, and whether it is a DotBot v3.
pub record Board : Type 0 where
  pub is_dotbot_v3 : Bool
  pub lh2_e_port : ℕ
  pub lh2_e_pin : ℕ
  pub lh2_d_port : ℕ
  pub lh2_d_pin : ℕ

-- The masks of the system control registers.
pub record ScbMasks : Type 0 where
  pub vectkey_msk : ℕ
  -- `(0x05FA << SCB_AIRCR_VECTKEY_Pos) & SCB_AIRCR_VECTKEY_Msk`
  pub vectkey : ℕ
  pub pris_msk : ℕ
  pub bfhfnmins_msk : ℕ
  pub sysresetreqs_msk : ℕ
  pub cp10 : ℕ
  pub cp11 : ℕ
  pub securefaultena_msk : ℕ
  pub div_0_trp_msk : ℕ
  pub unalign_trp_msk : ℕ

pub record Scb : Type 0 where
  pub aircr : ℕ
  pub nsacr : ℕ
  pub shcsr : ℕ
  pub ccr : ℕ
  pub sau_ctrl : ℕ

abbrev pub complement : ℕ → ℕ
complement m = bit_xor m 0xffff_ffff

-- The system control block: secure exceptions first, no reset by the user, the FPU, the faults, and
-- the SAU left aside.
unfoldable pub setup_scb : ScbMasks → Scb → Scb
setup_scb m s = record {
  aircr = bit_or m.vectkey (
      bit_or (bit_and s.aircr (complement m.vectkey_msk))
        (bit_or m.pris_msk (bit_or m.bfhfnmins_msk m.sysresetreqs_msk)));
  nsacr = bit_or s.nsacr (bit_or m.cp10 m.cp11);
  shcsr = bit_or s.shcsr m.securefaultena_msk;
  ccr = bit_or (bit_or s.ccr m.div_0_trp_msk) m.unalign_trp_msk;
  sau_ctrl = bit_or 0 2;
}

module _ (b : SpuBits) where
  unfoldable pub open_periphs : List (ℕ × Bool) → Spu → Spu
  unfolding tz_configure_periph_non_secure tz_configure_periph_dma_non_secure
  open_periphs [] s = s
  open_periphs ((id, dma) ∷ ps) s = open_periphs ps (
      if dma
      then tz_configure_periph_dma_non_secure b id (tz_configure_periph_non_secure b id s)
      else tz_configure_periph_non_secure b id s)

  -- `GPIOPORT[port].PERM |= 1 << pin`
  abbrev pub secure_pin : ℕ → ℕ → Spu → Spu
  secure_pin port pin s = record s {
    gpio_port = assign port (bit_or (s.gpio_port port) (2 ^ pin)) s.gpio_port;
  }

  unfoldable pub secure_pins : Board → Spu → Spu
  secure_pins board s =
      let s1 = record s { gpio_port = assign 1 0 (assign 0 0 s.gpio_port) } in
      let s2 = secure_pin board.lh2_e_port board.lh2_e_pin s1 in
      let s3 = secure_pin board.lh2_d_port board.lh2_d_pin s2 in
      let s4 = secure_pin 1 4 s3 in
      if board.is_dotbot_v3 then secure_pin 0 5 (secure_pin 1 7 s4) else secure_pin 1 6 s4

  -- The SPU part of `setup_ns_user`.
  unfoldable pub setup_ns_user : Board → Spu → Spu
  unfolding tz_configure_ram_secure tz_configure_ram_non_secure open_periphs secure_pins
  setup_ns_user board s =
      let s1 = tz_configure_ram_non_secure b 4 48 (tz_configure_ram_secure b 0 3 s) in
      let s2 = record s1 { nsc_region = 3; nsc_size = 8 } in
      secure_pins board (open_periphs user_periphs s2)

  -- The memory map that `main` sets at every start.
  unfoldable pub setup_memory : Spu → Spu
  unfolding tz_configure_flash_secure tz_configure_flash_non_secure tz_configure_periph_non_secure
      tz_configure_ram_non_secure
  setup_memory s = tz_configure_ram_non_secure b 3 1 (
      tz_configure_periph_non_secure b periph_mutex
        (tz_configure_flash_non_secure b 4 60 (tz_configure_flash_secure b 0 4 s)))
