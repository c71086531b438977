-- ===== src/Single/Refine.antt =====
-- The update of device/bootloader-single-core/Source/main.c next to that of
-- device/bootloader/Source/main.c.
use swarmit.Base.{
  Bool, ℕ, ◌≡◌, refl, ◌∙◌, ap, sym, subst, arith, true, false, List, [], ◌∷◌, if◌then◌else◌,
  Outcome, next, stopped, fault, ◌>>=◌, Returns, Returns-map, Returns->>=,
}
use swarmit.Base.Bytes.{u32_bytes}
use swarmit.Protocol.{msg_ota_start_ack, msg_ota_chunk_ack}
use swarmit.Shared.{IpcOtaData}
use swarmit.Nvmc.{Store}
use swarmit.App.{NetCore, IsNetCore, AppState}
use swarmit.App.Ota
use swarmit.App.Erase.{notify-Sent}
use swarmit.Single.{SingleState, transmit, tx_default}
use swarmit.Single.Loop

-- The two programs are at the same place of an update.
pub record Same {L : Type 0} (s : SingleState) (a : AppState L) : Type 0 where
  pub base_addr : s.base_addr ≡ a.base_addr
  pub ota_start_request : s.ota_start_request ≡ a.ota_start_request
  pub ota_require_erase : s.ota_require_erase ≡ a.ota_require_erase
  pub ota_chunk_request : s.ota_chunk_request ≡ a.ota_chunk_request
  pub ota : s.vars.ota ≡ a.shared.ota
  pub status : s.vars.status ≡ a.shared.status
  pub nvmc : s.nvmc ≡ a.nvmc

-- Both runs come back, at the same place.
abbrev pub Both : {L : Type 0} → Outcome SingleState → Outcome (AppState L) → Type 0
Both o w = Returns (λ s. Returns (Same s) w) o

Both-if :
    {L : Type 0} (b c : Bool) (x x' : Outcome SingleState) (y y' : Outcome (AppState L))
    → b ≡ c
    → Both x y
    → Both x' y'
    → Both (if b then x else x') (if c then y else y')
Both-if true true x x' y y' e h k = h
Both-if true false x x' y y' e h k = absurd (ground arith)
Both-if false true x x' y y' e h k = absurd (ground arith)
Both-if false false x x' y y' e h k = k

pub Both->>= :
    {L : Type 0} (o : Outcome SingleState) (f : SingleState → Outcome SingleState)
    (w : Outcome (AppState L)) (g : AppState L → Outcome (AppState L))
    → Both o w
    → ((s : SingleState) (a : AppState L) → Same s a → Both (f s) (g a))
    → Both (o >>= f) (w >>= g)
Both->>= (next s) f (next a) g h k = k s a h
Both->>= (next s) f (stopped a) g h k = absurd h
Both->>= (next s) f fault g h k = absurd h
Both->>= (stopped s) f w g h k = absurd h
Both->>= fault f w g h k = absurd h

module _ {L : Type 0} (store : Store) where
  erased-Same :
      (s : SingleState) (a : AppState L)
      → Same s a
      → Same (Loop.erase_image store s) (Ota.erase_image store a)
  unfolding Loop.erase_image Ota.erase_image
  erased-Same s a q = record {
    base_addr = ground (arith, q.base_addr);
    ota_start_request = ground (arith, q.ota_start_request);
    ota_require_erase = ground (arith, q.ota_require_erase);
    ota_chunk_request = ground (arith, q.ota_chunk_request);
    ota = ground (arith, q.ota);
    status = ground (arith, q.status);
    nvmc = ground (arith, q.ota, q.nvmc, q.ota_require_erase);
  }

  written-Same :
      (s : SingleState) (a : AppState L)
      → Same s a
      → Same (Loop.write_chunk store s) (Ota.write_chunk store a)
  unfolding Loop.write_chunk Ota.write_chunk
  written-Same s a q = record {
    base_addr = ground (arith, q.base_addr);
    ota_start_request = ground (arith, q.ota_start_request);
    ota_require_erase = ground (arith, q.ota_require_erase, q.ota);
    ota_chunk_request = ground (arith, q.ota_chunk_request);
    ota = ground (arith, q.ota);
    status = ground (arith, q.status);
    nvmc = ground (arith, q.ota, q.nvmc, q.base_addr);
  }

module _ {L : Type 0} {answer : NetCore} (c : IsNetCore answer) where
  notify-Same :
      (packet : List ℕ) (s : SingleState) (a : AppState L)
      → Same s a
      → Both (Loop.notify true packet s) (Ota.notify answer packet a)
  unfolding Loop.notify
  notify-Same packet s a q =
      Returns-map (Ota.notify answer packet a) (notify-Sent c packet a) (λ a' x. record {
        base_addr = q.base_addr ∙ sym x.base_addr;
        ota_start_request = q.ota_start_request ∙ sym x.ota_start_request;
        ota_require_erase = q.ota_require_erase ∙ sym x.ota_require_erase;
        ota_chunk_request = q.ota_chunk_request ∙ sym x.ota_chunk_request;
        ota = q.ota ∙ sym x.ota;
        status = q.status ∙ sym x.status;
        nvmc = q.nvmc ∙ sym x.nvmc;
      })

  finish-Same :
      (s : SingleState) (a : AppState L) → Same s a → Same (Loop.finish_ota s) (Ota.finish_ota a)
  unfolding Loop.finish_ota Ota.finish_ota
  finish-Same s a q = record {
    base_addr = ground (arith, q.base_addr);
    ota_start_request = ground (arith, q.ota_start_request);
    ota_require_erase = ground (arith, q.ota_require_erase);
    ota_chunk_request = ground (arith, q.ota_chunk_request);
    ota = ground (arith, q.ota);
    status = ground (arith, q.status, q.ota);
    nvmc = ground (arith, q.nvmc);
  }

  acked-Same :
      (s : SingleState) (a : AppState L) → Same s a → Same (Loop.ack_chunk s) (Ota.ack_chunk a)
  acked-Same s a q = record {
    base_addr = q.base_addr;
    ota_start_request = q.ota_start_request;
    ota_require_erase = q.ota_require_erase;
    ota_chunk_request = q.ota_chunk_request;
    ota = ap (λ (o : IpcOtaData). record o { last_chunk_acked = o.chunk_index }) q.ota;
    status = q.status;
    nvmc = q.nvmc;
  }

  acknowledge-Same :
      (s : SingleState) (a : AppState L)
      → Same s a
      → Both (Loop.acknowledge true s) (Ota.acknowledge answer a)
  unfolding Loop.acknowledge Ota.acknowledge Loop.notify
  acknowledge-Same s a q =
      subst
        (λ (i : ℕ). Both (Loop.acknowledge true s) (
          Ota.notify answer (msg_ota_chunk_ack ∷ u32_bytes i) (Ota.ack_chunk a)
          >>= (λ a'. next (Ota.finish_ota a'))))
        (ap (λ o. o.chunk_index) q.ota)
        (Returns->>= (Same sent) (Same (Loop.finish_ota sent))
          (Ota.notify answer packet (Ota.ack_chunk a)) (λ a'. next (Ota.finish_ota a'))
          (notify-Same packet (Loop.ack_chunk s) (Ota.ack_chunk a) (acked-Same s a q))
          (λ a' x. finish-Same sent a' x))
    where
      packet : List ℕ
      packet = msg_ota_chunk_ack ∷ u32_bytes s.vars.ota.chunk_index

      sent : SingleState
      sent = transmit packet tx_default (Loop.fill packet (Loop.ack_chunk s))

  module _ (store : Store) where
    pub start-Same :
        (s : SingleState) (a : AppState L)
        → Same s a
        → Both (Loop.handle_ota_start store true s) (Ota.handle_ota_start store answer a)
    unfolding Loop.handle_ota_start Ota.handle_ota_start
    start-Same s a q =
        Both-if s.ota_start_request a.ota_start_request _ _ _ _ q.ota_start_request
          (notify-Same (msg_ota_start_ack ∷ [])
            (Loop.erase_image store (record s { ota_start_request = false }))
            (Ota.erase_image store (record a { ota_start_request = false }))
            (erased-Same store (record s { ota_start_request = false })
              (record a { ota_start_request = false })
              (record {
                base_addr = q.base_addr;
                ota_start_request = refl;
                ota_require_erase = q.ota_require_erase;
                ota_chunk_request = q.ota_chunk_request;
                ota = q.ota;
                status = q.status;
                nvmc = q.nvmc;
              })))
          q

    pub chunk-Same :
        (s : SingleState) (a : AppState L)
        → Same s a
        → Both (Loop.handle_ota_chunk store true s) (Ota.handle_ota_chunk store answer a)
    unfolding Loop.handle_ota_chunk Ota.handle_ota_chunk
    chunk-Same s a q =
        Both-if s.ota_chunk_request a.ota_chunk_request _ _ _ _ q.ota_chunk_request
          (acknowledge-Same (Loop.write_chunk store (record s { ota_chunk_request = false }))
            (Ota.write_chunk store (record a { ota_chunk_request = false }))
            (written-Same store (record s { ota_chunk_request = false })
              (record a { ota_chunk_request = false })
              (record {
                base_addr = q.base_addr;
                ota_start_request = q.ota_start_request;
                ota_require_erase = q.ota_require_erase;
                ota_chunk_request = refl;
                ota = q.ota;
                status = q.status;
                nvmc = q.nvmc;
              })))
          q

    pub update-Same :
        (s : SingleState) (a : AppState L)
        → Same s a
        → Both
            (Loop.handle_ota_start store true s >>= Loop.handle_ota_chunk store true)
            (Ota.handle_ota_start store answer a >>= Ota.handle_ota_chunk store answer)
    update-Same s a q =
        Both->>= (Loop.handle_ota_start store true s) (Loop.handle_ota_chunk store true)
          (Ota.handle_ota_start store answer a) (Ota.handle_ota_chunk store answer)
          (start-Same s a q) (λ s' a' q'. chunk-Same s' a' q')
