-- ===== src/Examples/Startup.antt =====
-- Tests of the start-up code.
use swarmit.Base.{ℕ, ◌+◌, arith, true, false, [], Returns}
use swarmit.Startup.{Region, Layout}
use swarmit.Startup.Clock.{Chip, ClockState}
use swarmit.Startup.Reset.{
  Cpu, Stacks, reset_bootloader, reset_single_core, reset_network, reset_sample,
}
use swarmit.Startup.Stuck.{reset-stuck}

-- A section of `n` words at `start`, loaded at `load`.
abbrev region : ℕ → ℕ → ℕ → Region
region load start n = record { load = load; start = start; end = start + n }

-- The data section is loaded from the flash; the code stays in its place.
abbrev layout : Region → Layout
layout tdata = record {
  data_section = region 200 1000 4;
  text = region 10 10 50;
  fast = region 204 1004 2;
  ctors = region 60 60 3;
  dtors = region 63 63 1;
  rodata = region 64 64 20;
  tdata = tdata;
  bss = region 0 1006 5;
  tbss = region 0 1011 0;
  shared_data = region 0 1100 6;
}

abbrev stacks : Stacks
stacks = record {
  stack_end = 0x2000_8000;
  stack_process_end = 0x2000_9000;
  stacksize = 0x1000;
  stacksize_process = 0;
  func = 2000;
}

abbrev clock : ClockState
clock = record { hf_enabled = false; lf_enabled = false; writes = [] }

abbrev cpu : Cpu
cpu = record {
  cpacr = 0;
  msp = 0;
  psp = 0;
  control = 3;
  msplim = 0;
  psplim = 0;
  memory = λ a. a + 7;
  constructors = [];
  clock = clock;
}

-- The events show at the second read.
abbrev chip : Chip
chip = record {
  slope_msk = 31;
  slope_pos = 0;
  offset_msk = 0x3e0;
  offset_pos = 5;
  caps_enabled = 0x100;
  hfxo = 1;
  hclk_div1 = 0;
  mcusel_peripheral = 3;
  intcap = 2;
  lfxo = 2;
  dcdc_disabled = 0;
  xosc32mtrim = 0x12f;
  hf_cleared = λ i. 0;
  hf_started = λ i. i;
  lf_started = λ i. i;
}

reset-stuck_example :
    (¬ Returns
      (λ _. Unit)
      (reset_bootloader 60 false stacks (layout (region 84 1012 1)) (λ s. s) true chip 16 cpu))
    × (¬ Returns
        (λ _. Unit)
        (reset_single_core 60 false stacks
          (layout (region 84 1012 1))
          (λ s. s)
          true
          (λ s. s)
          (λ s. s)
          cpu))
    × (¬ Returns
        (λ _. Unit)
        (reset_network 60 false stacks (layout (region 84 1012 1)) (λ s. s) cpu))
    × (¬ Returns
        (λ _. Unit)
        (reset_sample 60 false stacks (layout (region 84 1012 1)) (λ s. s) true cpu))
reset-stuck_example =
    reset-stuck stacks (layout (region 84 1012 1)) (omega arith) (omega arith) false (λ s. s) 60
      true true true chip 16 (λ s. s) (λ s. s) cpu
