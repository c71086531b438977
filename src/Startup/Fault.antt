-- ===== src/Startup/Fault.antt =====
-- The handlers of device/bootloader/System/fault_handlers.c.
use Prim.Native.Nat.{bit_and, bit_or}
use swarmit.Base.{
  ℕ, ◌+◌, ◌/◌, ◌%◌, ◌^◌, ◌≡◌, ◌≢◌, ◌↔◌, refl, arith, Bool, ◌!=◌, if◌then◌else◌, Bool-cases, inl,
  inr, if-elim, List, ◌∷◌, get_or, set, Outcome, next, stopped, Returns, Ensures,
}

-- The fault registers of the core.
pub record Scb : Type 0 where
  pub shcsr : ℕ
  pub mmfar : ℕ
  pub bfar : ℕ
  pub hfsr : ℕ
  pub dfsr : ℕ
  pub afsr : ℕ
  pub sfsr : ℕ

-- `hardfault_regs.regs`, the registers that the exception left on the stack.
pub record StackedRegs : Type 0 where
  pub r0 : ℕ
  pub r1 : ℕ
  pub r2 : ℕ
  pub r3 : ℕ
  pub r12 : ℕ
  pub lr : ℕ
  pub pc : ℕ
  pub psr : ℕ

-- `hardfault_regs`, each of its unions as the whole word.
pub record HardfaultRegs : Type 0 where
  pub regs : StackedRegs
  pub shcsr : ℕ
  pub mmfsr : ℕ
  pub mmfar : ℕ
  pub bfsr : ℕ
  pub bfar : ℕ
  pub ufsr : ℕ
  pub hfsr : ℕ
  pub dfsr : ℕ
  pub afsr : ℕ

-- The words from `sp` on, the registers of the core, and what the handlers store; `hfsr_writes`
-- are the values written to HFSR, the last one first.
pub record FaultState : Type 0 where
  pub stack : List ℕ
  pub scb : Scb
  pub hfsr_writes : List ℕ
  pub hardfault_regs : HardfaultRegs
  pub securefault_reg : ℕ

abbrev stacked : List ℕ → StackedRegs
stacked sp = record {
  r0 = get_or sp 0 0;
  r1 = get_or sp 1 0;
  r2 = get_or sp 2 0;
  r3 = get_or sp 3 0;
  r12 = get_or sp 4 0;
  lr = get_or sp 5 0;
  pc = get_or sp 6 0;
  psr = get_or sp 7 0;
}

-- The mask of DEBUGEVT comes from the header of the core. The endless loop stands as `stopped`.
module _ (debugevt_msk : ℕ) (debug : Bool) where
  unfoldable pub hard_fault_handler : FaultState → Outcome FaultState
  hard_fault_handler s =
      if bit_and s.scb.hfsr debugevt_msk != 0
      then next (record s {
        stack = set s.stack 6 ((get_or s.stack 6 0 + 2) % 2 ^ 32);
        hfsr_writes = bit_or s.scb.hfsr debugevt_msk ∷ s.hfsr_writes;
      })
      else if debug
      then stopped (record s {
        hardfault_regs = record {
          regs = stacked s.stack;
          shcsr = s.scb.shcsr;
          mmfsr = bit_and s.scb.shcsr 0xff % 2 ^ 8;
          mmfar = s.scb.mmfar;
          bfsr = bit_and s.scb.shcsr 0xff00 / 2 ^ 8 % 2 ^ 8;
          bfar = s.scb.bfar;
          ufsr = s.scb.shcsr / 2 ^ 16 % 2 ^ 16;
          hfsr = s.scb.hfsr;
          dfsr = s.scb.dfsr;
          afsr = s.scb.afsr;
        };
      })
      else stopped s

  unfoldable pub secure_fault_handler : FaultState → Outcome FaultState
  secure_fault_handler s =
      if debug
      then stopped (record s {
        securefault_reg = s.scb.sfsr;
        hardfault_regs = record s.hardfault_regs { regs = stacked s.stack };
      })
      else stopped s

  hard-break :
      (s : FaultState)
      → bit_and s.scb.hfsr debugevt_msk ≢ 0
      → Returns (λ _. Unit) (hard_fault_handler s)
  unfolding hard_fault_handler
  hard-break s ne =
      if-elim (Returns (λ _. Unit)) (bit_and s.scb.hfsr debugevt_msk != 0) (λ _. tt)
        (λ q. absurd (ground arith))

  hard-stays :
      (s : FaultState)
      → bit_and s.scb.hfsr debugevt_msk ≡ 0
      → ¬ Returns (λ _. Unit) (hard_fault_handler s)
  unfolding hard_fault_handler
  hard-stays s e =
      if-elim (λ (o : Outcome FaultState). ¬ Returns (λ _. Unit) o)
        (bit_and s.scb.hfsr debugevt_msk != 0) (λ q. absurd (ground arith))
        (λ _.
          if-elim (λ (o : Outcome FaultState). ¬ Returns (λ _. Unit) o) debug (λ _ r. r) (λ _ r. r))

  hard-stack :
      (s : FaultState)
      → Ensures
          (λ s'. s'.stack ≡ (
            if bit_and s.scb.hfsr debugevt_msk != 0
            then set s.stack 6 ((get_or s.stack 6 0 + 2) % 2 ^ 32)
            else s.stack))
          (hard_fault_handler s)
  unfolding hard_fault_handler
  hard-stack s = elim (Bool-cases (bit_and s.scb.hfsr debugevt_msk != 0)) [
    | inl e ↦ rw e refl
    | inr e ↦ rw e (if-elim (Ensures (λ s'. s'.stack ≡ s.stack)) debug (λ _. refl) (λ _. refl))
  ]

  secure-stays : (s : FaultState) → ¬ Returns (λ _. Unit) (secure_fault_handler s)
  unfolding secure_fault_handler
  secure-stays s =
      if-elim (λ (o : Outcome FaultState). ¬ Returns (λ _. Unit) o) debug (λ _ r. r) (λ _ r. r)

  secure-stack : (s : FaultState) → Ensures (λ s'. s'.stack ≡ s.stack) (secure_fault_handler s)
  unfolding secure_fault_handler
  secure-stack s = if-elim (Ensures (λ s'. s'.stack ≡ s.stack)) debug (λ _. refl) (λ _. refl)

  -- A fault goes back to the program only if it comes from a break instruction: then the program
  -- goes on two bytes further, and no other stacked word changes. A secure fault never goes back.
  -- A handler that stays leaves the stack as it is.
  pub fault-Returns :
      (s : FaultState)
      → (Returns (λ _. Unit) (hard_fault_handler s) ↔ (bit_and s.scb.hfsr debugevt_msk ≢ 0))
        × (¬ Returns (λ _. Unit) (secure_fault_handler s))
        × Ensures
            (λ s'. s'.stack ≡ (
              if bit_and s.scb.hfsr debugevt_msk != 0
              then set s.stack 6 ((get_or s.stack 6 0 + 2) % 2 ^ 32)
              else s.stack))
            (hard_fault_handler s)
        × Ensures (λ s'. s'.stack ≡ s.stack) (secure_fault_handler s)
  fault-Returns s =
      ((λ r e. hard-stays s e r, hard-break s), secure-stays s, hard-stack s, secure-stack s)
