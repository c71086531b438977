-- ===== src/Startup/Reset.antt =====
-- `Reset_Handler` of device/bootloader/System/startup.c, of
-- device/bootloader-single-core/System/startup.c, of device/network_core/System/startup.c and of
-- sample/System/startup.c. What follows in the state it ends in is `main`.
use Prim.Native.Nat.{bit_or}
use swarmit.Base.{ℕ, ◌*◌, ◌^◌, Bool, List, if◌then◌else◌, Outcome, next, stopped, fault, ◌>>=◌}
use swarmit.Startup.{Layout, Memory, copy, clear, relocate, copy_tdata, call_constructors}
use swarmit.Startup.Clock.{
  Chip, ClockState, write, vregradio_dcdcen, vregmain_dcdcen, vregh_dcdcen, hfclk_init, lfclk_init,
}

-- The registers of the core that the handler sets, the memory, the constructors that were called,
-- the last one first, and the clocks.
pub record Cpu : Type 0 where
  pub cpacr : ℕ
  pub msp : ℕ
  pub psp : ℕ
  pub control : ℕ
  pub msplim : ℕ
  pub psplim : ℕ
  pub memory : Memory
  pub constructors : List ℕ
  pub clock : ClockState

-- The symbols of the stacks. The two sizes are read as variables at these addresses, and `func` is
-- the address of the variable of this name, which stands on the stack.
pub record Stacks : Type 0 where
  pub stack_end : ℕ
  pub stack_process_end : ℕ
  pub stacksize : ℕ
  pub stacksize_process : ℕ
  pub func : ℕ

abbrev pub with_memory : Cpu → Outcome Memory → Outcome Cpu
with_memory s (next m) = next (record s { memory = m })
with_memory s (stopped m) = stopped (record s { memory = m })
with_memory s fault = fault

abbrev pub with_clock : Cpu → Outcome ClockState → Outcome Cpu
with_clock s (next c) = next (record s { clock = c })
with_clock s (stopped c) = stopped (record s { clock = c })
with_clock s fault = fault

abbrev pub with_constructors : Cpu → Outcome (List ℕ) → Outcome Cpu
with_constructors s (next c) = next (record s { constructors = c })
with_constructors s (stopped c) = stopped (record s { constructors = c })
with_constructors s fault = fault

-- A loop over the memory.
abbrev pub run : (Memory → Outcome Memory) → Cpu → Outcome Cpu
run f s = with_memory s (f s.memory)

abbrev pub set_clock : (ClockState → Outcome ClockState) → Cpu → Outcome Cpu
set_clock f s = with_clock s (f s.clock)

-- SCB->CPACR |= ((3UL << 10*2)|(3UL << 11*2))
abbrev pub enable_fpu : Cpu → Cpu
enable_fpu s = record s { cpacr = bit_or s.cpacr (bit_or (3 * 2 ^ 20) (3 * 2 ^ 22)) }

abbrev pub set_stacks : Stacks → Cpu → Cpu
set_stacks t s = record s { msp = t.stack_end; psp = t.stack_process_end; control = 0 }

abbrev pub set_limits : Stacks → Cpu → Cpu
set_limits t s = record s { msplim = s.memory t.stacksize; psplim = s.memory t.stacksize_process }

module _ (n : ℕ) (debug : Bool) (l : Layout) where
  -- The sections that are loaded, from `.data` to `.tdata`.
  unfoldable pub load_sections : Cpu → Outcome Cpu
  unfolding copy relocate copy_tdata
  load_sections s =
      run (copy n l.data_section.start l.data_section.load l.data_section.end) s
      >>= (λ s. if debug then run (relocate n l.text.start l.text.load l.text.end) s else next s)
      >>= run (copy n l.fast.start l.fast.load l.fast.end)
      >>= run (copy n l.ctors.start l.ctors.load l.ctors.end)
      >>= run (copy n l.dtors.start l.dtors.load l.dtors.end)
      >>= (λ s.
          if debug then run (relocate n l.rodata.start l.rodata.load l.rodata.end) s else next s)
      >>= run (copy_tdata n l.tdata.start l.tdata.load l.tdata.end)

  unfoldable pub zero_bss : Cpu → Outcome Cpu
  unfolding clear
  zero_bss s = run (clear n l.bss.start l.bss.end) s >>= run (clear n l.tbss.start l.tbss.end)

  unfoldable pub zero_shared : Cpu → Outcome Cpu
  unfolding clear
  zero_shared s = run (clear n l.shared_data.start l.shared_data.end) s

  unfoldable pub construct : ℕ → Cpu → Outcome Cpu
  unfolding call_constructors
  construct func s =
      with_constructors s (call_constructors n func (4 * l.ctors.start) l.ctors.end s.constructors)

-- The first steps of the handler are compiled, as the macros say: for a core with the security
-- extension, for debugging, and with the shared data of two cores.
module _ (n : ℕ) (debug : Bool) (t : Stacks) (l : Layout) (system_init : Cpu → Cpu) where
  -- device/bootloader
  unfoldable pub reset_bootloader : Bool → Chip → ℕ → Cpu → Outcome Cpu
  unfolding load_sections zero_bss zero_shared construct hfclk_init lfclk_init
  reset_bootloader cmse h x2 s =
      load_sections n debug l
        (if cmse then set_limits t (set_stacks t (enable_fpu s)) else set_stacks t (enable_fpu s))
      >>= zero_bss n debug l
      >>= zero_shared n debug l
      >>= construct n debug l t.func
      >>= (λ s. next (system_init s))
      >>= set_clock (hfclk_init h x2 n)
      >>= set_clock (lfclk_init h x2 n)
      >>= set_clock (λ c. next (
          write vregh_dcdcen h.dcdc_disabled
            (write vregmain_dcdcen h.dcdc_disabled (write vregradio_dcdcen h.dcdc_disabled c))))

  -- device/bootloader-single-core, whose clocks are started by functions of the library of its
  -- board
  unfoldable pub reset_single_core : Bool → (Cpu → Cpu) → (Cpu → Cpu) → Cpu → Outcome Cpu
  unfolding load_sections zero_bss zero_shared construct
  reset_single_core shared db_hfclk_init db_lfclk_init s =
      load_sections n debug l (enable_fpu s)
      >>= zero_bss n debug l
      >>= (λ s. if shared then zero_shared n debug l s else next s)
      >>= construct n debug l t.func
      >>= (λ s. next (db_lfclk_init (db_hfclk_init (system_init s))))

  -- device/network_core
  unfoldable pub reset_network : Cpu → Outcome Cpu
  unfolding load_sections zero_bss construct
  reset_network s =
      load_sections n debug l (enable_fpu s)
      >>= zero_bss n debug l
      >>= construct n debug l t.func
      >>= (λ s. next (system_init s))

  -- sample, where `fpu` says that the compiler uses floating point instructions
  unfoldable pub reset_sample : Bool → Cpu → Outcome Cpu
  unfolding load_sections zero_bss construct
  reset_sample fpu s =
      load_sections n debug l (set_stacks t (enable_fpu s))
      >>= zero_bss n debug l
      >>= construct n debug l t.func
      >>= (λ s. next (if fpu then enable_fpu s else s))
