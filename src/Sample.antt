-- ===== src/Sample.antt =====
-- The sample application, sample/Source/main.c: a user image that calls the secure side.
pub mod Round
use Prim.Native.Nat.{bit_xor, bit_or}
use swarmit.Base.{
  ℕ, ◌+◌, ◌*◌, ◌%◌, ◌^◌, ◌≡◌, ◌≤◌, arith, Bool, true, false, List, ltb, length, get_or, set,
  if◌then◌else◌, Outcome, next, stopped, fault, ◌>>=◌,
}
use swarmit.Localization.{Localizer}
use swarmit.App.{NetCore}
use swarmit.Gateway.{
  Memory, GatewayState, swarmit_keep_alive, swarmit_send_data_packet, swarmit_log_data,
  swarmit_ipc_isr, set_shared,
}

-- The registers that `main` sets before its loop: the pins that are outputs, the prescaler, the width
-- and the interrupts of the timer, whether its interrupt is on, and whether it runs.
pub record SampleMachine : Type 0 where
  pub dir : ℕ
  pub prescaler : ℕ
  pub bits : ℕ
  pub inten : ℕ
  pub irq_enabled : Bool
  pub started : Bool

-- A timer of 1 MHz and 32 bits, which the program waits for, and the pin of the LED. `compare0` is
-- the bit of its first comparison.
unfoldable pub setup : ℕ → SampleMachine → SampleMachine
setup compare0 m = record {
  dir = bit_or m.dir (2 ^ 28);
  prescaler = 4;
  bits = 32;
  inten = compare0;
  irq_enabled = true;
  started = true;
}

-- `_timer_running`, CC[0] of the timer, OUT of the port, and the secure side.
pub record SampleState (L : Type 0) : Type 0 where
  pub timer_running : Bool
  pub cc : ℕ
  pub out : ℕ
  pub gateway : GatewayState L

-- The callback writes a zero behind the message, into the buffer that it was given: past its end if
-- the length in the message says so.
unfoldable pub rx_data_callback : List ℕ → Outcome (List ℕ)
rx_data_callback buffer =
    if ltb (2 + get_or buffer 1 0) (length buffer)
    then next (set buffer (2 + get_or buffer 1 0) 0)
    else fault

module _ {L : Type 0} where
  -- TIMER0_IRQHandler; `event` is the event register, which is cleared.
  unfoldable pub timer0_irq_handler : Bool → SampleState L → SampleState L
  timer0_irq_handler event s = if event then record s { timer_running = false } else s

  -- `now` is the counter of the timer; the wait ends with its interrupt, if that comes.
  unfoldable pub delay_ms : ℕ → Bool → ℕ → SampleState L → Outcome (SampleState L)
  unfolding timer0_irq_handler
  delay_ms now fires ms s =
      let t =
        timer0_irq_handler fires
          (record s { cc = (now + ms * 1000) % 2 ^ 32; timer_running = true }) in
      if t.timer_running then stopped t else next t

  abbrev set_buffer : List ℕ → GatewayState L → GatewayState L
  set_buffer b g =
      set_shared (record g.app.shared { rx_pdu = record g.app.shared.rx_pdu { buffer = b } }) g

  abbrev pub with_gateway : SampleState L → Outcome (GatewayState L) → Outcome (SampleState L)
  with_gateway s (next g) = next (record s { gateway = g })
  with_gateway s (stopped g) = stopped (record s { gateway = g })
  with_gateway s fault = fault

  -- One round of `while (1)`. `hello` and `logging` are the addresses of the two strings in the
  -- memory of the image, `level` and `packet_slot` are as in the gateway.
  unfoldable pub round :
      Localizer L
      → NetCore
      → Memory
      → ℕ
      → ℕ
      → ℕ
      → ℕ
      → ℕ
      → Bool
      → SampleState L
      → Outcome (SampleState L)
  unfolding delay_ms swarmit_keep_alive swarmit_send_data_packet swarmit_log_data
  round loc answer m hello logging packet_slot level now fires s =
      delay_ms now fires 500 s
      >>= (λ s. with_gateway s (
          swarmit_send_data_packet answer m packet_slot hello 5
            (swarmit_keep_alive loc level s.gateway)))
      >>= (λ s. next (record s {
        gateway = swarmit_log_data m logging 7 s.gateway;
        out = bit_xor s.out (2 ^ 28);
      }))

  abbrev with_buffer : SampleState L → Outcome (List ℕ) → Outcome (SampleState L)
  with_buffer s (next b) = next (record s { gateway = set_buffer b s.gateway })
  with_buffer s (stopped b) = stopped (record s { gateway = set_buffer b s.gateway })
  with_buffer s fault = fault

  -- IPC_IRQHandler: the secure side calls the callback with the buffer in the shared structure.
  unfoldable pub ipc_irq_handler : Bool → SampleState L → Outcome (SampleState L)
  unfolding rx_data_callback swarmit_ipc_isr
  ipc_irq_handler event s =
      if event
      then with_buffer (record s { gateway = swarmit_ipc_isr event s.gateway })
          (rx_data_callback s.gateway.app.shared.rx_pdu.buffer)
      else next s

-- A message whose length leaves no room for the zero makes the callback write past the buffer.
rx_data_callback-fault :
    (buffer : List ℕ) → length buffer ≤ 2 + get_or buffer 1 0 → rx_data_callback buffer ≡ fault
unfolding rx_data_callback
rx_data_callback-fault buffer h = ground arith
