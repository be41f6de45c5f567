-- ===== src/Device/Receive.antt =====
-- src/e1000/receive.rs: the receive state and the delivery of a frame.
pub mod Laws
pub mod Ends
pub mod Store
use e1000_emu.Prelude.{
  ℕ, ◌+◌, ◌%◌, ◌^◌, Bool, true, false, not, none, some, List, length, ltb, leb, ◌==◌, if◌then◌else◌,
}
use e1000_emu.Outcome.{M, pure, gets, modify, assert, panics, or_fail, or_panic, ◌>>=◌, ◌>>◌}
use e1000_emu.Packing.{Derive}
use e1000_emu.NicContext.{NicContext, Clock}
use e1000_emu.Registers.General.{get_buffer_size}
use e1000_emu.Descriptors.Ring.{
  DescriptorRing, hardware_owned_descriptors, read_head, write_and_advance_head,
}
use e1000_emu.Descriptors.Formats.{ReceiveDescriptor, receive_descriptor}
use e1000_emu.Device.State.{E1000, ReceiveState, offline, online, throttled, on_ctx}
use e1000_emu.Device.Interrupts.{report_rxt0}

abbrev pub rx_queue_reserve : ℕ
rx_queue_reserve = 1

unfoldable pub is_ready : ReceiveState → Bool
is_ready online = true
is_ready _ = false

unfoldable pub should_defer : ReceiveState → Bool
should_defer throttled = true
should_defer _ = false

-- The match of `update_receive_state` on the state and `should_throttle`.
unfoldable pub next_state : ReceiveState → Bool → ReceiveState
next_state offline false = online
next_state offline true = throttled
next_state online true = throttled
next_state throttled false = online
next_state online false = online
next_state throttled true = throttled

-- The descriptor that is written back for a frame of that length (a `u16`).
unfoldable pub filled : ReceiveDescriptor → ℕ → ReceiveDescriptor
filled d received_length = record d {
  length = received_length % 2 ^ 16;
  status_eop = true;
  status_dd = true;
}

module _ {C : Type 0} where
  unfoldable pub update_receive_state : E1000 C → E1000 C
  update_receive_state e = elim e.rx_ring [
    | some rx_ring ↦ record e {
      receive_state =
          next_state e.receive_state (leb (hardware_owned_descriptors rx_ring) rx_queue_reserve);
    }
    | none ↦ record e {
      receive_state = elim e.receive_state [
        | offline ↦ offline
        | online ↦ offline
        | throttled ↦ offline
      ];
    }
  ]

  -- The length in memory: four bytes more where the driver expects a frame check sequence.
  unfoldable pub counted_length : E1000 C → List ℕ → ℕ
  counted_length e received = if not e.regs.rctl.secrc then length received + 4 else length received

  module _ ⦃N : NicContext C⦄ where
    -- The frame goes to the buffer of the descriptor.
    unfoldable pub store_frame : ℕ → ReceiveDescriptor → ℕ → List ℕ → M C (Unit {0})
    store_frame received_length d buffer_size received = do
      if ltb buffer_size received_length then panics else pure tt
      if d.buffer == 0 then panics else pure tt
      modify (N.dma_prepare d.buffer buffer_size)
      modify (N.dma_write d.buffer received 0)

  module _ ⦃D : Derive⦄ ⦃N : NicContext C⦄ where
    -- From the ring's head to the advanced ring.
    unfoldable pub fill_head : E1000 C → DescriptorRing → List ℕ → M C DescriptorRing
    fill_head e rx_ring received = do
      descriptor ← read_head (D.derive receive_descriptor) rx_ring
      buffer_size ← or_panic (get_buffer_size e.regs.rctl)
      let received_length = counted_length e received
      store_frame received_length descriptor buffer_size received
      write_and_advance_head (D.derive receive_descriptor) rx_ring
          (filled descriptor received_length)

    module _ ⦃T : Clock C⦄ where
      unfoldable pub receive : List ℕ → M (E1000 C) (Unit {0})
      receive received = do
        assert (ltb 0 (length received))
        state ← gets (λ e. e.receive_state)
        assert (is_ready state)
        ring ← gets (λ e. e.rx_ring)
        rx_ring ← or_fail ring
        advanced ← λ e. on_ctx (fill_head e rx_ring received) e
        modify λ e. record e {
          rx_ring = some advanced;
          regs = record (e.regs) { rd_h = record { head = advanced.head % 2 ^ 16 } };
        }
        modify update_receive_state
        report_rxt0
