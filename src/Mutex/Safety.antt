-- ===== src/Mutex/Safety.antt =====
-- What the mutex of the two cores gives, and where it blocks (device/bootloader/Source/ipc.c,
-- device/network_core/Source/main.c).
use swarmit.Base.{
  ℕ, ◌+◌, ◌≡◌, ◌≢◌, ◌⊎◌, ◌↔◌, inl, inr, refl, ◌∙◌, sym, true, List, [], ◌∷◌, arith, if◌then◌else◌,
}
use swarmit.Mutex.{
  Agent, app, net_main, net_packet, Place, outside, waiting, inside, MutexState, place, mutex_lock,
  mutex_unlock, move, step, run, unlocked,
}

abbrev holds : Place → ℕ
holds inside = 1
holds _ = 0

-- One agent holds the mutex if the register is set, and none if it is not.
abbrev Held : MutexState → Type 0
Held s = holds s.app + holds s.net_main + holds s.net_packet ≡ (if s.locked then 1 else 0)

step-Held : (a : Agent) (s : MutexState) → Held s → Held (step a s)
unfolding step move mutex_lock mutex_unlock
step-Held app s h = ground arith
step-Held net_main s h = ground arith
step-Held net_packet s h = ground arith

run-Held : (turns : List Agent) (s : MutexState) → Held s → Held (run turns s)
unfolding run
run-Held [] s h = h
run-Held (a ∷ turns) s h = run-Held turns (step a s) (step-Held a s h)

only_one : (a b : Agent) (s : MutexState) → Held s → place a s ≡ inside → place b s ≡ inside → a ≡ b
only_one app app s h p q = refl
only_one net_main net_main s h p q = refl
only_one net_packet net_packet s h p q = refl
only_one app net_main s h p q = absurd (ground arith)
only_one app net_packet s h p q = absurd (ground arith)
only_one net_main app s h p q = absurd (ground arith)
only_one net_main net_packet s h p q = absurd (ground arith)
only_one net_packet app s h p q = absurd (ground arith)
only_one net_packet net_main s h p q = absurd (ground arith)

-- In whatever order the cores and the interrupt take their turns, no two of them are past
-- `mutex_lock` at once.
pub mutual_exclusion :
    (turns : List Agent) (a b : Agent)
    → place a (run turns unlocked) ≡ inside
    → place b (run turns unlocked) ≡ inside
    → a ≡ b
mutual_exclusion turns a b p q =
    only_one a b (run turns unlocked) (run-Held turns unlocked refl) p q

-- The interrupt waits for the loop that it interrupted.
abbrev Stuck : MutexState → Type 0
Stuck s = (s.locked ≡ true) × (s.net_main ≡ inside) × (s.net_packet ≡ waiting) × (s.app ≢ inside)

step-Stuck : (a : Agent) (s : MutexState) → Stuck s → Stuck (step a s)
unfolding step move mutex_lock mutex_unlock
step-Stuck app s h = ground (arith, h.0, h.1, h.2, h.3)
step-Stuck net_main s h = ground (arith, h.0, h.1, h.2, h.3)
step-Stuck net_packet s h = ground (arith, h.0, h.1, h.2, h.3)

run-Stuck : (turns : List Agent) (s : MutexState) → Stuck s → Stuck (run turns s)
unfolding run
run-Stuck [] s h = h
run-Stuck (a ∷ turns) s h = run-Stuck turns (step a s) (step-Stuck a s h)

Held-Stuck : (s : MutexState) → Held s → s.net_main ≡ inside → s.net_packet ≡ waiting → Stuck s
Held-Stuck s h n w = ground (arith, h, n, w)

inside-waiting : inside ≢ waiting
inside-waiting e = ground (arith, e)

Place-inside : (p : Place) → (p ≡ inside) ⊎ (p ≢ inside)
Place-inside outside = inr (λ e. ground (arith, e))
Place-inside waiting = inr (λ e. ground (arith, e))
Place-inside inside = inl refl

let_in :
    (s : MutexState)
    → Held s
    → s.net_packet ≡ waiting
    → s.net_main ≢ inside
    → (more : List Agent) × ((run more s).net_packet ≡ inside)
unfolding run step move mutex_lock mutex_unlock
let_in s h w n = elim (Place-inside s.app) [
  | inl p ↦ (app ∷ net_packet ∷ [], ground (arith, h, w, n, p))
  | inr p ↦ (net_packet ∷ [], ground (arith, h, w, n, p))
]

-- An interrupt that waits for the mutex gets it by some order of turns exactly if the loop that it
-- interrupted does not hold it.
pub packet-waits :
    (turns : List Agent)
    → (run turns unlocked).net_packet ≡ waiting
    → ((more : List Agent) × ((run more (run turns unlocked)).net_packet ≡ inside))
      ↔ ((run turns unlocked).net_main ≢ inside)
packet-waits turns w = (blocked, let_in (run turns unlocked) held w)
  where
    held : Held (run turns unlocked)
    held = run-Held turns unlocked refl

    blocked :
        ((more : List Agent) × ((run more (run turns unlocked)).net_packet ≡ inside))
        → (run turns unlocked).net_main ≢ inside
    blocked (more, e) n =
        inside-waiting (
          sym e
          ∙ (run-Stuck more (run turns unlocked) (Held-Stuck (run turns unlocked) held n w)).2)
