-- ===== src/Startup.antt =====
-- The loops of `Reset_Handler` in device/bootloader-single-core/System/startup.c and
-- device/bootloader/System/startup.c. The pointers of these loops are to words, so an address counts
-- words here, and a loop that has not ended after its rounds stands as `stopped`.
pub mod Loops
pub mod Reset
pub mod Clock
pub mod Fault
pub mod Placed
pub mod Started
pub mod Stuck
use swarmit.Base.{
  ℕ, zero, suc, ◌+◌, List, [], ◌∷◌, Bool, ltb, ◌==◌, if◌then◌else◌, Outcome, next, stopped,
}
use swarmit.Tz.{assign}

-- A section that the linker placed, from `start` to `end`, and where its words are loaded.
pub record Region : Type 0 where
  pub load : ℕ
  pub start : ℕ
  pub end : ℕ

pub record Layout : Type 0 where
  pub data_section : Region
  pub text : Region
  pub fast : Region
  pub ctors : Region
  pub dtors : Region
  pub rodata : Region
  pub tdata : Region
  pub bss : Region
  pub tbss : Region
  pub shared_data : Region

abbrev pub Memory : Type 0
Memory = ℕ → ℕ

-- _copy
unfoldable pub copy : ℕ → ℕ → ℕ → ℕ → Memory → Outcome Memory
copy zero dst src end m = if ltb dst end then stopped m else next m
copy (suc n) dst src end m =
    let rest = copy n (dst + 1) (src + 1) end (assign dst (m src) m) in
    if ltb dst end then rest else next m

-- _zero
unfoldable pub clear : ℕ → ℕ → ℕ → Memory → Outcome Memory
clear zero dst end m = if ltb dst end then stopped m else next m
clear (suc n) dst end m =
    let rest = clear n (dst + 1) end (assign dst 0 m) in if ltb dst end then rest else next m

-- The loop over `.text` and `.rodata`, which leaves a section that is in its place.
unfoldable pub relocate : ℕ → ℕ → ℕ → ℕ → Memory → Outcome Memory
relocate zero dst src end m = if ltb dst end then stopped m else next m
relocate (suc n) dst src end m =
    let rest = relocate n (dst + 1) (src + 1) end (assign dst (m src) m) in
    if ltb dst end then if dst == src then next m else rest else next m

-- The loop over `.tdata`.
unfoldable pub copy_tdata : ℕ → ℕ → ℕ → ℕ → Memory → Outcome Memory
copy_tdata zero dst src end m = if ltb dst end then stopped m else next m
copy_tdata (suc n) dst src end m =
    let copied = copy_tdata n (dst + 1) (src + 1) end (assign dst (m src) m) in
    let same = copy_tdata n dst src end m in
    if ltb dst end then if dst == src then copied else same else next m

-- The loop over the constructors: the address of `func` itself is compared, `func` is called and
-- counted up, by one byte, as the compiler does with a pointer to a function. The value is the list
-- of the calls, each as an address in bytes.
unfoldable pub call_constructors : ℕ → ℕ → ℕ → ℕ → List ℕ → Outcome (List ℕ)
call_constructors zero place func end calls = if ltb place end then stopped calls else next calls
call_constructors (suc n) place func end calls =
    let rest = call_constructors n place (func + 1) end (func ∷ calls) in
    if ltb place end then rest else next calls
