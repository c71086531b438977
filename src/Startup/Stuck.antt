-- ===== src/Startup/Stuck.antt =====
-- The loop over `.tdata` in the four start-up files, device/bootloader/System/startup.c,
-- device/bootloader-single-core/System/startup.c, device/network_core/System/startup.c and
-- sample/System/startup.c.
use swarmit.Base.{ℕ, ◌<◌, ◌≢◌, subst, Bool, Outcome, next, stopped, fault, ◌>>=◌, Returns}
use swarmit.Startup.{Layout, copy_tdata}
use swarmit.Startup.Loops.{copy_tdata-stuck}
use swarmit.Startup.Clock.{Chip}
use swarmit.Startup.Reset.{
  Cpu, Stacks, with_memory, run, load_sections, reset_bootloader, reset_single_core, reset_network,
  reset_sample,
}

-- What does not return does not return however it goes on.
never->>= :
    {S : Type 0} (o : Outcome S) (f : S → Outcome S)
    → ¬ Returns (λ _. Unit) o
    → ¬ Returns (λ _. Unit) (o >>= f)
never->>= (next s) f h r = absurd (h tt)
never->>= (stopped s) f h r = r
never->>= fault f h r = r

module _ (n : ℕ) (debug : Bool) (l : Layout) (h : l.tdata.start < l.tdata.end)
    (ne : l.tdata.start ≢ l.tdata.load) where
  tdata_stuck :
      (o : Outcome Cpu)
      → ¬ Returns (λ _. Unit) (o >>= run (copy_tdata n l.tdata.start l.tdata.load l.tdata.end))
  tdata_stuck (next s) r =
      subst (λ o. Returns (λ _. Unit) (with_memory s o))
        (copy_tdata-stuck n l.tdata.start l.tdata.load l.tdata.end s.memory h ne) r
  tdata_stuck (stopped s) r = r
  tdata_stuck fault r = r

  load_sections-stuck : (s : Cpu) → ¬ Returns (λ _. Unit) (load_sections n debug l s)
  unfolding load_sections
  load_sections-stuck s = tdata_stuck _

module _ (t : Stacks) (l : Layout) (h : l.tdata.start < l.tdata.end)
    (ne : l.tdata.start ≢ l.tdata.load) (debug : Bool) (system_init : Cpu → Cpu) where
  -- No start reaches `main` when `.tdata` holds words that are to be moved, as the linker scripts
  -- place it: however many rounds the loops are given, none of the four handlers returns.
  pub reset-stuck :
      (n : ℕ) (cmse shared fpu : Bool) (c : Chip) (x2 : ℕ) (hf lf : Cpu → Cpu) (s : Cpu)
      → (¬ Returns (λ _. Unit) (reset_bootloader n debug t l system_init cmse c x2 s))
        × (¬ Returns (λ _. Unit) (reset_single_core n debug t l system_init shared hf lf s))
        × (¬ Returns (λ _. Unit) (reset_network n debug t l system_init s))
        × (¬ Returns (λ _. Unit) (reset_sample n debug t l system_init fpu s))
  unfolding reset_bootloader reset_single_core reset_network reset_sample
  reset-stuck n cmse shared fpu c x2 hf lf s = (
    never->>= _ _ (
        never->>= _ _ (
          never->>= _ _ (
            never->>= _ _ (
              never->>= _ _
                (never->>= _ _ (never->>= _ _ (load_sections-stuck n debug l h ne _))))))),
    never->>= _ _
        (never->>= _ _ (never->>= _ _ (never->>= _ _ (load_sections-stuck n debug l h ne _)))),
    never->>= _ _ (never->>= _ _ (never->>= _ _ (load_sections-stuck n debug l h ne _))),
    never->>= _ _ (never->>= _ _ (never->>= _ _ (load_sections-stuck n debug l h ne _))),
  )
