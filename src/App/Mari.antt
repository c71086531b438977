-- ===== src/App/Mari.antt =====
-- Calls to the network core: device/bootloader/Source/ipc.c, mari.c and rng.c.
use swarmit.Base.{
  ℕ, Bool, true, false, List, ◌∷◌, length, write_at, if◌then◌else◌, Outcome, next, stopped,
}
use swarmit.Shared.{
  IpcReq, req_none, mari_init_req, mari_node_tx_req, rng_init_req, rng_read_req, chan_req,
}
use swarmit.App.{NetCore, AppState, node_tx, send_task}

abbrev pub is_none : IpcReq → Bool
is_none req_none = true
is_none _ = false

module _ {L : Type 0} (answer : NetCore) where
  -- The wait for the acknowledgement, which is then taken back; it is endless if none comes.
  unfoldable pub wait_ack : AppState L → Outcome (AppState L)
  wait_ack s =
      let d = answer s.shared in
      if d.net_ack
      then next (record s { shared = record d { net_ack = false } })
      else stopped (record s { shared = d })

  unfoldable pub ipc_network_call : IpcReq → AppState L → Outcome (AppState L)
  unfolding wait_ack
  ipc_network_call req s = wait_ack (
      if is_none req
      then s
      else send_task chan_req (record s { shared = record s.shared { req = req } }))

  -- `mari_init`; the mutex is made accessible by the calls of `Tz`.
  unfoldable pub mari_init : AppState L → Outcome (AppState L)
  unfolding ipc_network_call
  mari_init s = ipc_network_call mari_init_req s

  -- The pdu is filled before the call.
  unfoldable pub mari_node_tx : List ℕ → AppState L → Outcome (AppState L)
  unfolding ipc_network_call
  mari_node_tx packet s = ipc_network_call mari_node_tx_req (record s {
    shared = record s.shared {
      tx_pdu = record { len = length packet; buffer = write_at s.shared.tx_pdu.buffer 0 packet };
    };
    effects = node_tx packet ∷ s.effects;
  })

  unfoldable pub rng_init : AppState L → Outcome (AppState L)
  unfolding ipc_network_call
  rng_init s = ipc_network_call rng_init_req s

  -- The value read is left in the shared structure, whence the caller copies it.
  unfoldable pub rng_read : AppState L → Outcome (AppState L)
  unfolding ipc_network_call
  rng_read s = ipc_network_call rng_read_req s
