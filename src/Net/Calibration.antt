-- ===== src/Net/Calibration.antt =====
-- A whole calibration session of device/network_core/Source/main.c, from the first packet to the
-- localization data that the next boot hands to the application core.
use swarmit.Base.{
  ℕ, suc, ◌+◌, ◌-◌, ◌*◌, ◌≤◌, ◌<◌, ◌≡◌, ◌≢◌, ◌==◌, refl, ◌∙◌, ap, sym, true, List, [], ◌∷◌, ◌++◌,
  arith, length, take, drop, replicate, Outcome, next, stopped, ◌>>=◌, write_at, if◌then◌else◌,
  length-write_at, length-append, false, leb, ltb, ◌&&◌, ◌%◌,
}
use mathlib.Core.List.{append_assoc, append-nil}
use swarmit.Base.Splice.{
  write_at-zero, write_at-append, drop-replicate, length-replicate, take-append_exact,
}
use swarmit.Protocol.{ready, msg_lh2_calibration}
use swarmit.Nvmc.{net_geometry}
use swarmit.Nvmc.Laws.{IsController}
use swarmit.Net.{Platform, NetState, SwarmitConfig}
use swarmit.Net.Config.{
  net_config_start_address, config_magic_value, load_struct, load_config, has_calibration,
  default_net_id,
}
use swarmit.Net.Request.{store_matrix}
use swarmit.Net.Commit.{commit_config_and_reboot-load, copy_matrices_lem}
use swarmit.Net.Session.{
  calibration_packet, calibration_of, IsMatrix, serve, stored, serve_more, serve_last,
}

-- The matrices from number `i` on of a session of `n`, a packet each, in order.
pub calibrate : Platform → ℕ → ℕ → List (List ℕ) → NetState → Outcome NetState
calibrate p n i [] s = next s
calibrate p n i (m ∷ ms) s = serve p (calibration_packet n i m) s >>= calibrate p n (suc i) ms

abbrev pub AllMatrices : List (List ℕ) → Type 0
AllMatrices [] = Unit
AllMatrices (m ∷ ms) = IsMatrix m × AllMatrices ms

abbrev pub words : List (List ℕ) → List ℕ
words [] = []
words (m ∷ ms) = m ++ words ms

-- The array that the next matrix goes into, with `done` stored and the rest cleared.
abbrev Prepared : ℕ → List ℕ → SwarmitConfig → Type 0
Prepared i done c =
    (if i == 0 then replicate 144 0 else c.homographies) ≡ done ++ replicate (144 - 9 * i) 0

stored_matrix :
    (i : ℕ) (done m : List ℕ)
    → length done ≡ 9 * i
    → length m ≡ 9
    → i < 16
    → write_at (done ++ replicate (144 - 9 * i) 0) (9 * i) m
      ≡ (done ++ m) ++ replicate (144 - 9 * suc i) 0
stored_matrix i done m hd hm hi =
    ap (λ k. write_at (done ++ zeros) k m) (sym hd)
    ∙ write_at-append done zeros m
    ∙ ap (λ r. done ++ r)
        (write_at-zero zeros m (omega (arith, length-replicate {A = ℕ} (144 - 9 * i) 0)))
    ∙ ap (λ r. done ++ (m ++ r)) (drop-replicate (length m) (144 - 9 * i) 0)
    ∙ ap (λ k. done ++ (m ++ replicate k 0)) (omega arith)
    ∙ sym (append_assoc done m (replicate (144 - 9 * suc i) 0))
  where
    zeros : List ℕ
    zeros = replicate (144 - 9 * i) 0

-- The array after a matrix was stored.
abbrev array : ℕ → ℕ → List ℕ → SwarmitConfig → List ℕ
array n i m c = (store_matrix (calibration_of n i m) c).homographies

module _ (n i : ℕ) (done m : List ℕ) (c : SwarmitConfig) (hd : length done ≡ 9 * i)
    (hm : length m ≡ 9) (hi : i < 16) (pr : Prepared i done c) where
  array_lem : array n i m c ≡ (done ++ m) ++ replicate (144 - 9 * suc i) 0
  array_lem = ap (λ d. write_at d (9 * i) m) pr ∙ stored_matrix i done m hd hm hi

  length-array : length (array n i m c) ≡ 144
  length-array =
      ap length array_lem
      ∙ length-append (done ++ m) (replicate (144 - 9 * suc i) 0)
      ∙ omega (arith, length-append done m, length-replicate {A = ℕ} (144 - 9 * suc i) 0)

not_zero : (i : ℕ) → (suc i == 0) ≡ false
not_zero i = ground arith

abbrev config_after : ℕ → List ℕ → SwarmitConfig → SwarmitConfig
config_after n hs c = record c {
  magic = config_magic_value;
  homography_count = n;
  homographies = hs;
}

module _ (p : Platform) (c : IsController net_geometry p.store)
    (ne : p.metrics_probe ≢ msg_lh2_calibration) (n : ℕ) (hn : n ≤ 16) where
  calibrate_from :
      (i : ℕ) (done m : List ℕ) (ms : List (List ℕ)) (s : NetState)
      → s.shared.status ≡ ready
      → length s.req_buffer ≡ 255
      → i + length (m ∷ ms) ≡ n
      → AllMatrices (m ∷ ms)
      → length done ≡ 9 * i
      → Prepared i done s.config
      → (s' : NetState) × (calibrate p n i (m ∷ ms) s ≡ stopped s')
        × (load_struct s'.nvmc.memory net_config_start_address
            ≡ config_after n ((done ++ words (m ∷ ms)) ++ replicate (144 - 9 * n) 0) s.config)
  unfolding calibrate
  calibrate_from i done m [] s st room e am hd pr =
      let s1 = stored n i m s in
      let (s', r, l, _) =
        commit_config_and_reboot-load c s1
          (length-array n i done m s.config hd am.0.0 (omega arith) pr) in
      (
        s',
        ap (λ r. r >>= calibrate p n (suc i) [])
            (serve_last p n i m s ne room st am.0 hn (omega arith) ∙ r),
        l ∙ ap (λ hs. config_after n hs s.config) (end (omega arith)),
      )
    where
      end : suc i ≡ n → array n i m s.config ≡ (done ++ (m ++ [])) ++ replicate (144 - 9 * n) 0
      end q =
          array_lem n i done m s.config hd am.0.0 (omega arith) pr
          ∙ ap (λ r. (done ++ r) ++ replicate (144 - 9 * suc i) 0) (sym (append-nil m))
          ∙ ap (λ k. (done ++ (m ++ [])) ++ replicate (144 - 9 * k) 0) q
  calibrate_from i done m (m' ∷ ms) s st room e am hd pr =
      let (s', r, l) =
        calibrate_from (suc i) (done ++ m) m' ms (stored n i m s) st
          (length-write_at s.req_buffer 0 (calibration_packet n i m) ∙ room) (omega arith) am.1
          (omega (arith, length-append done m))
          (ap (λ b. if b then replicate 144 0 else array n i m s.config) (not_zero i)
            ∙ array_lem n i done m s.config hd am.0.0 (omega arith) pr) in
      (
        s',
        ap (λ r. r >>= calibrate p n (suc i) (m' ∷ ms))
              (serve_more p n i m s ne room st am.0 hn (omega arith))
            ∙ r,
        l
            ∙ ap (λ hs. config_after n (hs ++ replicate (144 - 9 * n) 0) s.config)
                (append_assoc done m (words (m' ∷ ms))),
      )

load_config_lem :
    (s : NetState) (c : SwarmitConfig)
    → load_struct s.nvmc.memory net_config_start_address ≡ c
    → has_calibration c ≡ true
    → 9 * c.homography_count ≤ length c.homographies
    → 9 * c.homography_count ≤ length s.shared.lh2_calibration.homographies
    → ((load_config s).shared.lh2_calibration.homography_count ≡ c.homography_count)
      × ((load_config s).shared.lh2_calibration.homographies
          ≡ take (9 * c.homography_count) c.homographies
            ++ drop (9 * c.homography_count) s.shared.lh2_calibration.homographies)
      × ((load_config s).lh2_calibration_ready ≡ true)
      × ((load_config s).mari_net_id ≡ (
          if c.magic == config_magic_value && c.has_net_id == 1
          then c.net_id % 65536
          else default_net_id))
unfolding load_config
load_config_lem s c e t h g =
    rw (e, t)
      (
        refl,
        copy_matrices_lem c.homographies s.shared.lh2_calibration.homographies c.homography_count h
            g,
        refl,
        refl,
      )

length-words : (ms : List (List ℕ)) → AllMatrices ms → length (words ms) ≡ 9 * length ms
length-words [] h = omega arith
length-words (m ∷ ms) h = omega (arith, length-append m (words ms), length-words ms h.1, h.0.0)

valid_count : (n : ℕ) → 0 < n → n ≤ 16 → ltb 0 n && leb n 16 ≡ true
valid_count n h k = ground arith

-- A calibration of at most 16 matrices, received in order by a core in ready whose buffer has its
-- full length, ends in a commit, after which the core waits for a reset. The boot that follows,
-- with that flash and any RAM, hands over exactly these matrices and their number, raises the flag
-- for the application core, and keeps the network of the configuration that was in RAM. The flash
-- controller must behave as documented, and metrics probes have another type.
pub calibration-survives :
    (p : Platform) (c : IsController net_geometry p.store) (m : List ℕ) (ms : List (List ℕ))
    (s boot : NetState)
    → p.metrics_probe ≢ msg_lh2_calibration
    → length (m ∷ ms) ≤ 16
    → AllMatrices (m ∷ ms)
    → s.shared.status ≡ ready
    → length s.req_buffer ≡ 255
    → length boot.shared.lh2_calibration.homographies ≡ 144
    → (s' : NetState) × (calibrate p (length (m ∷ ms)) 0 (m ∷ ms) s ≡ stopped s')
      × (let b = load_config (record boot { nvmc = s'.nvmc }) in
          (b.shared.lh2_calibration.homography_count ≡ length (m ∷ ms))
          × (b.shared.lh2_calibration.homographies
              ≡ words (m ∷ ms)
                ++ drop (9 * length (m ∷ ms)) boot.shared.lh2_calibration.homographies)
          × (b.lh2_calibration_ready ≡ true)
          × (b.mari_net_id
              ≡ (if s.config.has_net_id == 1 then s.config.net_id % 65536 else default_net_id)))
calibration-survives p c m ms s boot ne hn am st room hb =
    let n = length (m ∷ ms) in
    let hs = words (m ∷ ms) in
    let (s', r, l) =
      calibrate_from p c ne n hn 0 [] m ms s st room (omega arith) am (omega arith) refl in
    let (k, a, f, i) =
      load_config_lem (record boot { nvmc = s'.nvmc })
        (config_after n (hs ++ replicate (144 - 9 * n) 0) s.config) l
        (valid_count n (omega arith) hn)
        (omega (
          arith,
          length-words (m ∷ ms) am,
          length-append hs (replicate (144 - 9 * n) 0),
          length-replicate {A = ℕ} (144 - 9 * n) 0,
        ))
        (omega arith) in
    (
      s',
      r,
      (
        k,
        a
            ∙ ap (λ t. t ++ drop (9 * n) boot.shared.lh2_calibration.homographies)
                (take-append_exact (9 * n) hs (replicate (144 - 9 * n) 0)
                  (length-words (m ∷ ms) am)),
        f,
        i,
      ),
    )
