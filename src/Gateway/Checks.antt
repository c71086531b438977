-- ===== src/Gateway/Checks.antt =====
-- What `swarmit_log_data` of device/bootloader/Source/cmse_implib.c takes from the user image.
use swarmit.Base.{
  ℕ, zero, suc, ◌+◌, ◌≤◌, ◌≡◌, refl, ap, false, ◌∷◌, arith, ltb, length, take, take-write_at, subst,
  write_at, Outcome, next, stopped, fault, Returns,
}
use swarmit.Shared.{log_data_size, chan_log_event}
use swarmit.App.{task_send, AppState}
use swarmit.Gateway.{Memory, load_bytes, GatewayState, in_secure_space, swarmit_log_data, with_app}

pub with_app-Returns :
    {L : Type 0} (P : AppState L → Type 0) (g : GatewayState L) (w : Outcome (AppState L))
    → Returns P w
    → Returns (λ g'. P g'.app × (g'.reloads ≡ g.reloads)) (with_app g w)
with_app-Returns P g (next a) h = (h, refl)
with_app-Returns P g (stopped a) h = absurd h
with_app-Returns P g fault h = absurd h

pub length-load_bytes : (m : Memory) (addr n : ℕ) → length (load_bytes m addr n) ≡ n
unfolding load_bytes
length-load_bytes m addr zero = refl
length-load_bytes m addr (suc n) = ap suc (length-load_bytes m (addr + 1) n)

module _ {L : Type 0} (m : Memory) (addr size : ℕ) (g : GatewayState L) where
  -- A log that fits and starts at no secure address is announced once to the network core, and what
  -- then stands in the log are the bytes at the address that the user image gave. The log has its
  -- full length.
  pub swarmit_log_data-taken :
      size ≤ log_data_size
      → in_secure_space addr ≡ false
      → length g.app.shared.log.bytes ≡ log_data_size
      → ((swarmit_log_data m addr size g).app.effects ≡ task_send chan_log_event ∷ g.app.effects)
        × ((swarmit_log_data m addr size g).app.shared.log.len ≡ size)
        × (take size (swarmit_log_data m addr size g).app.shared.log.bytes ≡ load_bytes m addr size)
  unfolding swarmit_log_data
  swarmit_log_data-taken h o l = rw (small, o) (refl, refl, bytes)
    where
      small : ltb log_data_size size ≡ false
      small = ground arith

      bytes :
          take size (write_at g.app.shared.log.bytes 0 (load_bytes m addr size))
          ≡ load_bytes m addr size
      bytes =
          subst
            (λ k.
              take k (write_at g.app.shared.log.bytes 0 (load_bytes m addr size))
              ≡ load_bytes m addr size)
            (length-load_bytes m addr size)
            (take-write_at g.app.shared.log.bytes (load_bytes m addr size)
              (omega (arith, length-load_bytes m addr size)))
