-- ===== src/Examples/Locks.antt =====
-- Tests of the mutex.
use swarmit.Base.{◌≡◌, ◌≢◌, ◌↔◌, refl, List, [], ◌∷◌}
use swarmit.Mutex.{Agent, app, net_main, net_packet, inside, run, unlocked}
use swarmit.Mutex.Safety.{mutual_exclusion, packet-waits}

-- All three ask for the mutex, and the application core gets it.
abbrev contended : List Agent
contended = app ∷ net_main ∷ app ∷ net_packet ∷ net_main ∷ net_packet ∷ []

mutual_exclusion_example : app ≡ app
unfolding run
mutual_exclusion_example = mutual_exclusion contended app app refl refl

-- The loop has the mutex when the packet comes.
abbrev preempted : List Agent
preempted = net_main ∷ net_main ∷ net_packet ∷ []

packet-waits_example :
    ((more : List Agent) × ((run more (run preempted unlocked)).net_packet ≡ inside))
    ↔ ((run preempted unlocked).net_main ≢ inside)
unfolding run
packet-waits_example = packet-waits preempted refl
