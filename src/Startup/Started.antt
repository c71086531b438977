-- ===== src/Startup/Started.antt =====
-- Whether `Reset_Handler` reaches `main`, and with what memory, in the start-up files of the
-- bootloaders, of device/network_core and of sample.
use swarmit.Base.{ℕ, ◌<◌, ◌≡◌, ◌≢◌, Bool, true, List, if◌then◌else◌, Outcome, next, ◌>>=◌}
use swarmit.Startup.{Layout, Memory}
use swarmit.Startup.Loops.{cleared}
use swarmit.Startup.Clock.{
  write, vregh_dcdcen, vregmain_dcdcen, vregradio_dcdcen, Chip, hfclk_init, lfclk_init,
}
use swarmit.Startup.Reset.{Cpu, Stacks, set_clock, enable_fpu, set_stacks, set_limits}
use swarmit.Startup.Placed.{IsLinked}

-- What `main` finds, when it starts from the memory `m`.
record Ready (m : Memory) (calls : List ℕ) (s : Cpu) : Type 0 where
  pub memory : s.memory ≡ m
  pub constructors : s.constructors ≡ calls
  pub hf : s.clock.hf_enabled ≡ true
  pub lf : s.clock.lf_enabled ≡ true

-- The handler from the call of SystemInit on.
abbrev from_system_init : ℕ → (Cpu → Cpu) → Chip → ℕ → Outcome Cpu → Outcome Cpu
from_system_init n system_init h x2 o =
    o
    >>= (λ s. next (system_init s))
    >>= set_clock (hfclk_init h x2 n)
    >>= set_clock (lfclk_init h x2 n)
    >>= set_clock (λ c. next (
        write vregh_dcdcen h.dcdc_disabled
          (write vregmain_dcdcen h.dcdc_disabled (write vregradio_dcdcen h.dcdc_disabled c))))

-- The events of the clocks that show, each at some read within the rounds.
pub record IsClocked (h : Chip) (n : ℕ) : Type 0 where
  pub cleared : ℕ
  pub cleared_read : (cleared < n) × (h.hf_cleared cleared ≢ 1)
  pub hf : ℕ
  pub hf_read : (hf < n) × (h.hf_started hf ≢ 0)
  pub lf : ℕ
  pub lf_read : (lf < n) × (h.lf_started lf ≢ 0)

module _ (n : ℕ) (debug : Bool) (t : Stacks) (l : Layout) (k : IsLinked n t.func l)
    (system_init : Cpu → Cpu)
    (keeps : (s : Cpu)
      → ((system_init s).memory ≡ s.memory) × ((system_init s).constructors ≡ s.constructors))
    (cmse : Bool) (h : Chip) (x2 : ℕ) (c : IsClocked h n) (s : Cpu) where
  abbrev start : Cpu
  start = if cmse then set_limits t (set_stacks t (enable_fpu s)) else set_stacks t (enable_fpu s)
