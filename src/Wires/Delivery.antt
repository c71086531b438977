-- ===== src/Wires/Delivery.antt =====
-- Which tasks of one core reach which events of the other, and with what effect.
use Prim.Native.Nat.{bit_and, bit_and-bitwise}
use swarmit.Base.{
  ℕ, ◌≤◌, ◌≡◌, refl, arith, dec_lt, Bool, true, false, ◌==◌, ◌!=◌, ◌&&◌, ◌||◌, all_below,
  all_below_at,
}
use swarmit.Shared.{chan_req, chan_log_event}
use swarmit.Net.Runs.{send_cnf}
use swarmit.Wires.{Ipc, reset_ipc, configure_net_ipc, configure_app_ipc}

-- As documented: a task signals the channels of its SEND_CNF, and an event is set by the channels of
-- its RECEIVE_CNF.
abbrev pub connected : Ipc → Ipc → ℕ → ℕ → Bool
connected a b t e = bit_and (a.send_cnf t) (b.receive_cnf e) != 0

abbrev pub net_ipc : Ipc
net_ipc = configure_net_ipc reset_ipc

abbrev pub app_ipc : Ipc
app_ipc = configure_app_ipc reset_ipc

same : Bool → Bool → Bool
same true true = true
same false false = true
same _ _ = false

same-eq : (a b : Bool) → same a b ≡ true → a ≡ b
unfolding same
same-eq a b h = ground arith

net_to_app_table :
    all_below 10
      (λ t. all_below 10 (λ e. same (connected net_ipc app_ipc t e) (t == e && send_cnf e)))
    ≡ true
unfolding same configure_net_ipc configure_app_ipc
net_to_app_table = refl

net_above : (t : ℕ) → 10 ≤ t → net_ipc.send_cnf t ≡ 0
unfolding configure_net_ipc
net_above t h = ground arith

app_above : (e : ℕ) → 10 ≤ e → app_ipc.receive_cnf e ≡ 0
unfolding configure_app_ipc
app_above e h = ground arith

app_to_net_table :
    all_below 10 (λ t. all_below 10 (λ e.
      same (connected app_ipc net_ipc t e) (t == e && (e == chan_req || e == chan_log_event))))
    ≡ true
unfolding same configure_net_ipc configure_app_ipc
app_to_net_table = refl

app_send_above : (t : ℕ) → 10 ≤ t → app_ipc.send_cnf t ≡ 0
unfolding configure_app_ipc
app_send_above t h = ground arith

net_receive_above : (e : ℕ) → 10 ≤ e → net_ipc.receive_cnf e ≡ 0
unfolding configure_net_ipc
net_receive_above e h = ground arith

zero-bit_and : (b : ℕ) → bit_and 0 b ≡ 0
zero-bit_and b = bit_and-bitwise 0 b

-- A relation of tasks and events that the table of the first ten of each decides.
module _ (f g : ℕ → ℕ) (p : ℕ → Bool)
    (table : all_below 10 (λ t. all_below 10 (λ e. same (bit_and (f t) (g e) != 0) (t == e && p e)))
      ≡ true)
    (zeros : all_below 10 (λ t. bit_and (f t) 0 == 0) ≡ true) (f_above : (t : ℕ) → 10 ≤ t → f t ≡ 0)
    (g_above : (e : ℕ) → 10 ≤ e → g e ≡ 0) (p_above : (e : ℕ) → 10 ≤ e → p e ≡ false) where
  decided : (t e : ℕ) → (bit_and (f t) (g e) != 0) ≡ (t == e && p e)
  decided t e = elim (dec_lt t 10) [
    | no q ↦ rw (f_above t (omega arith)) (ground (arith, zero-bit_and (g e), p_above e))
    | yes q ↦ elim (dec_lt e 10) [
      | yes r ↦ same-eq _ _ (
          all_below_at 10 e (λ e. same (bit_and (f t) (g e) != 0) (t == e && p e))
            (all_below_at 10 t
              (λ t. all_below 10 (λ e. same (bit_and (f t) (g e) != 0) (t == e && p e))) table q)
            r)
      | no r ↦
          rw (g_above e (omega arith))
            (ground (arith, all_below_at 10 t (λ t. bit_and (f t) 0 == 0) zeros q))
    ]
  ]

net_zeros : all_below 10 (λ t. bit_and (net_ipc.send_cnf t) 0 == 0) ≡ true
unfolding configure_net_ipc
net_zeros = refl

app_zeros : all_below 10 (λ t. bit_and (app_ipc.send_cnf t) 0 == 0) ≡ true
unfolding configure_app_ipc
app_zeros = refl

send_cnf_above : (e : ℕ) → 10 ≤ e → send_cnf e ≡ false
send_cnf_above e h = ground arith

-- The start of both cores wires their peripherals: a task of the network core sets an event of the
-- application core exactly if it is the one of the same channel, and one that the network core has
-- connected; and a task of the application core sets an event of the network core exactly if it is
-- that of a request or of a log.
pub wired :
    (t e : ℕ)
    → (connected net_ipc app_ipc t e ≡ (t == e && send_cnf e))
      × (connected app_ipc net_ipc t e ≡ (t == e && (e == chan_req || e == chan_log_event)))
wired t e = (
  decided net_ipc.send_cnf app_ipc.receive_cnf send_cnf net_to_app_table net_zeros net_above
      app_above send_cnf_above t e,
  decided app_ipc.send_cnf net_ipc.receive_cnf (λ e. e == chan_req || e == chan_log_event)
      app_to_net_table app_zeros app_send_above net_receive_above (λ e h. ground arith) t e,
)
