-- ===== src/Mutex.antt =====
-- The mutex between the two cores, mutex_lock and mutex_unlock of device/bootloader/Source/ipc.c and
-- device/network_core/Source/ipc.h, in the three places that use it: the application core, the main
-- loop of the network core, and the callback for packets (_handle_packet of
-- device/network_core/Source/main.c), which runs in an interrupt of that core.
pub mod Safety
use swarmit.Base.{Bool, true, false, List, [], ◌∷◌, if◌then◌else◌}

pub data Agent : Type 0 where
  app net_main net_packet : Agent

-- Where an agent is: not in need of the mutex, in the loop of `mutex_lock`, or past it.
pub data Place : Type 0 where
  outside waiting inside : Place

-- MUTEX[0], and the agents.
pub record MutexState : Type 0 where
  pub locked : Bool
  pub app : Place
  pub net_main : Place
  pub net_packet : Place

abbrev pub place : Agent → MutexState → Place
place app s = s.app
place net_main s = s.net_main
place net_packet s = s.net_packet

abbrev pub put : Agent → Place → MutexState → MutexState
put app p s = record s { app = p }
put net_main p s = record s { net_main = p }
put net_packet p s = record s { net_packet = p }

-- A read of the register by the loop of `mutex_lock`: it locks the mutex, and the loop goes on if
-- it was locked.
unfoldable pub mutex_lock : Agent → MutexState → MutexState
mutex_lock a s = if s.locked then s else put a inside (record s { locked = true })

unfoldable pub mutex_unlock : Agent → MutexState → MutexState
mutex_unlock a s = put a outside (record s { locked = false })

-- The next move of an agent: it calls `mutex_lock`, reads the register, or unlocks.
unfoldable pub move : Agent → MutexState → MutexState
unfolding mutex_lock mutex_unlock
move a s = elim (place a s) [
  | outside ↦ put a waiting s
  | waiting ↦ mutex_lock a s
  | inside ↦ mutex_unlock a s
]

-- The main loop of the network core stands still while the interrupt is served.
unfoldable pub step : Agent → MutexState → MutexState
unfolding move
step app s = move app s
step net_main s = elim s.net_packet [ outside ↦ move net_main s | waiting ↦ s | inside ↦ s ]
step net_packet s = move net_packet s

unfoldable pub run : List Agent → MutexState → MutexState
unfolding step
run [] s = s
run (a ∷ turns) s = run turns (step a s)

abbrev pub unlocked : MutexState
unlocked = record { locked = false; app = outside; net_main = outside; net_packet = outside }
