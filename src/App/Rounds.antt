-- ===== src/App/Rounds.antt =====
-- Updates that are asked for one after another, each followed by a round of the main loop of
-- device/bootloader/Source/main.c, and the flash of the bootloader.
use swarmit.Base.{
  ℕ, ◌+◌, ◌*◌, ◌≤◌, ◌<◌, ◌≡◌, refl, List, [], ◌∷◌, Outcome, next, ◌>>=◌, Leads, Leads->>=,
  Leads-map,
}
use swarmit.Protocol.{ota_chunk_size}
use swarmit.Localization.{Localizer}
use swarmit.Nvmc.{Store, app_geometry}
use swarmit.Nvmc.Laws.{IsController}
use swarmit.App.{NetCore, AppState}
use swarmit.App.Ota.{base_address}
use swarmit.App.Loop.{main_loop, IpcEvents, ipc_irq_handler}
use swarmit.App.Kept.{KeepsOta, round-IsAbove}

-- What asks for an update: the network core writes the sizes and the chunk, and raises the tasks.
pub record Request : Type 0 where
  pub image_size : ℕ
  pub chunk_count : ℕ
  pub chunk_index : ℕ
  pub chunk_size : ℕ
  pub chunk : List ℕ
  pub events : IpcEvents
  pub level : ℕ

abbrev pub request : {L : Type 0} → Request → AppState L → AppState L
request q s = ipc_irq_handler q.events (record s {
  shared = record s.shared {
    ota = record s.shared.ota {
      image_size = q.image_size;
      chunk_count = q.chunk_count;
      chunk_index = q.chunk_index;
      chunk_size = q.chunk_size;
      chunk = q.chunk;
    };
  };
})

-- The image asked for fits the flash above the bootloader, and so does the chunk.
pub record IsInside (q : Request) : Type 0 where
  pub image : q.image_size ≤ 0xf0000
  pub chunk : q.chunk_index * ota_chunk_size + q.chunk_size ≤ 0xf0000

abbrev pub AllInside : List Request → Type 0
AllInside [] = Unit
AllInside (q ∷ qs) = IsInside q × AllInside qs

-- Each request is followed by a round of the main loop.
unfoldable pub rounds :
    {L : Type 0} → Localizer L → Store → NetCore → List Request → AppState L → Outcome (AppState L)
unfolding main_loop ipc_irq_handler
rounds loc store answer [] s = next s
rounds loc store answer (q ∷ qs) s =
    main_loop loc store answer q.level (request q s) >>= rounds loc store answer qs

record IsBelow {L : Type 0} (b v : ℕ) (s : AppState L) : Type 0 where
  base_addr : s.base_addr ≡ base_address
  word : s.nvmc.memory b ≡ v

module _ {L : Type 0} (store : Store) (answer : NetCore) (c : IsController app_geometry store)
    (a : KeepsOta answer) (loc : Localizer L) where
  rounds-IsBelow :
      (qs : List Request) (s : AppState L) (b v : ℕ)
      → AllInside qs
      → b < base_address
      → IsBelow b v s
      → Leads (IsBelow b v) (rounds loc store answer qs s)
  unfolding rounds
  rounds-IsBelow [] s b v i low h = h
  rounds-IsBelow (q ∷ qs) s b v i low h =
      Leads->>= (IsBelow b v) (main_loop loc store answer q.level (request q s))
        (rounds loc store answer qs)
        (Leads-map (main_loop loc store answer q.level (request q s))
          (round-IsAbove store answer c a loc b v low q.level (request q s) (record {
            base_addr = h.base_addr;
            image = i.0.image;
            chunk = i.0.chunk;
            word = h.word;
          }))
          (λ s' k. record { base_addr = k.base_addr; word = k.word }))
        (λ s' k. rounds-IsBelow qs s' b v i.1 low k)

  -- No updates change the flash below the image, where the bootloader lies, without any help of the
  -- memory protection: whatever is asked for before each round of the main loop, in any order, by
  -- any sizes, chunks and interrupts, every word below the base address stays as it was, also if the
  -- rounds end in a reset. The images asked for fit the flash above the bootloader, and so do the
  -- places of the chunks: the code does not compare them. The controller behaves as documented, the
  -- network core leaves the update alone while it serves a call, and the base address is set.
  pub rounds_lem :
      (qs : List Request) (s : AppState L) (b : ℕ)
      → AllInside qs
      → b < base_address
      → s.base_addr ≡ base_address
      → Leads (λ s'. s'.nvmc.memory b ≡ s.nvmc.memory b) (rounds loc store answer qs s)
  rounds_lem qs s b i low e =
      Leads-map (rounds loc store answer qs s)
        (rounds-IsBelow qs s b (s.nvmc.memory b) i low (record { base_addr = e; word = refl }))
        (λ s' k. k.word)
