-- ===== src/Startup/Placed.antt =====
-- What `Reset_Handler` of device/bootloader/System/startup.c leaves in the memory.
use swarmit.Base.{
  ℕ, ◌+◌, ◌-◌, ◌≤◌, ◌<◌, ◌≡◌, ◌⊎◌, refl, ◌∙◌, ap, arith, Bool, true, false, List, [], ◌∷◌, Outcome,
  next, ◌>>=◌, ◌*◌,
}
use swarmit.Startup.{Region, Layout, Memory, copy, clear, relocate, copy_tdata}
use swarmit.Startup.Loops.{
  moved, cleared, copy_lem, clear_lem, relocate_lem, copy_tdata-place, call_constructors-none,
}
use swarmit.Startup.Reset.{
  Cpu, run, with_memory, with_constructors, load_sections, zero_bss, zero_shared, construct,
}

-- A section whose words are copied in `n` rounds, none before it is read.
pub record IsLoaded (n : ℕ) (r : Region) : Type 0 where
  pub rounds : r.end ≤ r.start + n
  pub order : (r.start ≤ r.load) ⊎ (r.load + (r.end - r.start) ≤ r.start)

-- What the linker script sees to; `.tdata` is empty or in its place, and no stack is below the
-- table of the constructors.
pub record IsLinked (n func : ℕ) (l : Layout) : Type 0 where
  pub data_section : IsLoaded n l.data_section
  pub text : IsLoaded n l.text
  pub fast : IsLoaded n l.fast
  pub ctors : IsLoaded n l.ctors
  pub dtors : IsLoaded n l.dtors
  pub rodata : IsLoaded n l.rodata
  pub tdata_rounds : l.tdata.end ≤ l.tdata.start + n
  pub tdata_place : (l.tdata.start ≡ l.tdata.load) ⊎ (l.tdata.end ≤ l.tdata.start)
  pub bss : l.bss.end ≤ l.bss.start + n
  pub tbss : l.tbss.end ≤ l.tbss.start + n
  pub shared_data : l.shared_data.end ≤ l.shared_data.start + n
  pub stack : l.ctors.end ≤ func

abbrev pub moves : Bool → Layout → List Region
moves true l = l.data_section ∷ l.text ∷ l.fast ∷ l.ctors ∷ l.dtors ∷ l.rodata ∷ []
moves false l = l.data_section ∷ l.fast ∷ l.ctors ∷ l.dtors ∷ []

abbrev pub move_all : List Region → Memory → Memory
move_all [] m = m
move_all (r ∷ rs) m = move_all rs (moved r.start r.load r.end m)

-- The word `a` is in none of the sections.
abbrev pub Apart : ℕ → List Region → Type 0
Apart a [] = Unit
Apart a (r ∷ rs) = ((a < r.start) ⊎ (r.end ≤ a)) × Apart a rs

pub move_all-Apart : (rs : List Region) (m : Memory) (a : ℕ) → Apart a rs → move_all rs m a ≡ m a
move_all-Apart [] m a h = refl
move_all-Apart (r ∷ rs) m a h =
    move_all-Apart rs (moved r.start r.load r.end m) a h.1 ∙ ground (arith, h.0)

skipped : {S : Type 0} (o : Outcome S) (s : S) → o ≡ next s → o >>= (λ s. next s) ≡ next s
skipped o s e = ap (λ o. o >>= (λ s. next s)) e

module _ (n func : ℕ) (l : Layout) (k : IsLinked n func l) where
  copied :
      (r : Region) (o : Outcome Cpu) (s : Cpu)
      → IsLoaded n r
      → o ≡ next s
      → o >>= run (copy n r.start r.load r.end)
        ≡ next (record s { memory = moved r.start r.load r.end s.memory })
  copied r o s h e =
      ap (λ o. o >>= run (copy n r.start r.load r.end)) e
      ∙ ap (with_memory s) (copy_lem n r.start r.load r.end s.memory h.rounds h.order)

  relocated :
      (r : Region) (o : Outcome Cpu) (s : Cpu)
      → IsLoaded n r
      → o ≡ next s
      → o >>= run (relocate n r.start r.load r.end)
        ≡ next (record s { memory = moved r.start r.load r.end s.memory })
  relocated r o s h e =
      ap (λ o. o >>= run (relocate n r.start r.load r.end)) e
      ∙ ap (with_memory s) (relocate_lem n r.start r.load r.end s.memory h.rounds h.order)

  zeroed :
      (r : Region) (o : Outcome Cpu) (s : Cpu)
      → r.end ≤ r.start + n
      → o ≡ next s
      → o >>= run (clear n r.start r.end)
        ≡ next (record s { memory = cleared r.start r.end s.memory })
  zeroed r o s h e =
      ap (λ o. o >>= run (clear n r.start r.end)) e
      ∙ ap (with_memory s) (clear_lem n r.start r.end s.memory h)

  tdata_left :
      (o : Outcome Cpu) (s : Cpu)
      → o ≡ next s
      → o >>= run (copy_tdata n l.tdata.start l.tdata.load l.tdata.end) ≡ next s
  tdata_left o s e =
      ap (λ o. o >>= run (copy_tdata n l.tdata.start l.tdata.load l.tdata.end)) e
      ∙ ap (with_memory s) (
          copy_tdata-place n l.tdata.start l.tdata.load l.tdata.end s.memory k.tdata_rounds
            k.tdata_place)

  load_sections_lem :
      (debug : Bool) (s : Cpu)
      → load_sections n debug l s ≡ next (record s { memory = move_all (moves debug l) s.memory })
  unfolding load_sections
  load_sections_lem true s = tdata_left _ _ (
      relocated l.rodata _ _ k.rodata (
        copied l.dtors _ _ k.dtors (
          copied l.ctors _ _ k.ctors (
            copied l.fast _ _ k.fast (
              relocated l.text _ _ k.text
                (copied l.data_section (next s) s k.data_section refl))))))
  load_sections_lem false s = tdata_left _ _ (
      skipped _ _ (
        copied l.dtors _ _ k.dtors (
          copied l.ctors _ _ k.ctors (
            copied l.fast _ _ k.fast
              (skipped _ _ (copied l.data_section (next s) s k.data_section refl))))))

  -- The memory that `main` finds.
  abbrev pub placed : Bool → Memory → Memory
  placed debug m =
      cleared l.shared_data.start l.shared_data.end (
        cleared l.tbss.start l.tbss.end
          (cleared l.bss.start l.bss.end (move_all (moves debug l) m)))

  pub prepared :
      (debug : Bool) (s : Cpu)
      → load_sections n debug l s
          >>= zero_bss n debug l
          >>= zero_shared n debug l
          >>= construct n debug l func
        ≡ next (record s { memory = placed debug s.memory })
  unfolding zero_bss zero_shared construct
  prepared debug s =
      ap (λ o. o >>= zero_bss n debug l >>= zero_shared n debug l >>= construct n debug l func)
        (load_sections_lem debug s)
      ∙ ap (λ o. o >>= zero_shared n debug l >>= construct n debug l func)
          (zeroed l.tbss _ _ k.tbss (
            zeroed l.bss (next (record s { memory = move_all (moves debug l) s.memory })) _ k.bss
              refl))
      ∙ ap (λ o. o >>= construct n debug l func)
          (zeroed l.shared_data
            (next (record s {
              memory =
                  cleared l.tbss.start l.tbss.end
                    (cleared l.bss.start l.bss.end (move_all (moves debug l) s.memory));
            }))
            _ k.shared_data refl)
      ∙ ap (with_constructors (record s { memory = placed debug s.memory }))
          (call_constructors-none n func (4 * l.ctors.start) l.ctors.end s.constructors k.stack)
