-- ===== src/Tests/Rings.antt =====
-- The theorems on rings, transmission and reception at concrete inputs.
use e1000_emu.Prelude.{
  ◌+◌, ◌%◌, ◌≡◌, refl, true, false, none, some, [], ◌∷◌, ◌++◌, ◌==◌, arith, ◌<◌,
}
use e1000_emu.Outcome.Post.{Post}
use e1000_emu.Packing.Reference.{reference}
use e1000_emu.NicContext.Machine.{Machine, machine, machine_clock, no_checksum}
use e1000_emu.Descriptors.Ring.{DescriptorRing, hardware_owned_descriptors, is_empty, advance_head}
use e1000_emu.Descriptors.Ring.Laws.{
  IsRing, owned_slots, slots, hand_over, owned_lem, owned_slots-advance_head, owned_slots-hand_over,
}
use e1000_emu.Transmit.Sequence.{new_sequence}
use e1000_emu.Device.State.{E1000, online, new}
use e1000_emu.Device.Transmit.{process_tx_ring, tx_loop, TxLoop}
use e1000_emu.Device.Transmit.Drain.{Transmitted, process_tx_ring-Post}
use e1000_emu.Device.Transmit.Hang.{Runs, tx_loop-Runs}
use e1000_emu.Device.Receive.{receive, update_receive_state}
use e1000_emu.Device.Receive.Laws.{
  IsSettled, IsDelivered, receive-Post, IsSettled-kept, update_receive_state_lem, state_for,
}
use e1000_emu.Device.Control.{reset_e1000, rctl_write, rdt_write}
use e1000_emu.Tests.Data.{tx, sending, fresh, running}

tx-IsRing : IsRing tx
tx-IsRing = record { head_in = omega arith; tail_in = omega arith; small = omega arith }

owned_lem_example :
    (hardware_owned_descriptors tx < tx.length)
    × ((tx.head + hardware_owned_descriptors tx) % tx.length ≡ tx.tail)
    × (is_empty tx ≡ (hardware_owned_descriptors tx == 0))
owned_lem_example = owned_lem tx tx-IsRing

owned_slots-advance_head_example :
    (r' : DescriptorRing) × (advance_head tx ≡ some r')
    × IsRing r'
    × (owned_slots tx ≡ tx.head ∷ owned_slots r')
unfolding is_empty
owned_slots-advance_head_example = owned_slots-advance_head tx tx-IsRing refl

owned_slots-hand_over_example :
    IsRing (hand_over tx 3)
    × (owned_slots (hand_over tx 3) ≡ owned_slots tx ++ slots tx.length tx.tail 3)
unfolding hardware_owned_descriptors
owned_slots-hand_over_example = owned_slots-hand_over tx 3 tx-IsRing (omega arith)

process_tx_ring-Post_example :
    Post
      (λ a e'. Transmitted sending (record tx { tail = sending.regs.td_t.tail }) e')
      (λ e'. ⊥)
      (process_tx_ring sending)
process_tx_ring-Post_example = process_tx_ring-Post sending tx refl tx-IsRing (omega arith)

abbrev astray : TxLoop
astray = record {
  ring = record tx { tail = 8 };
  sequence = new_sequence;
  report = false;
  saved_context = none;
}

tx_loop-Runs_example : Runs (tx_loop 5 astray running)
tx_loop-Runs_example =
    tx_loop-Runs 5 astray running (record { head_in = omega arith; tail_out = omega arith })

-- A device that may take frames into the ring's two descriptors.
abbrev receiving : E1000 Machine
receiving = record fresh { rx_ring = some tx; receive_state = online }

receiving-IsSettled : IsSettled receiving
unfolding hardware_owned_descriptors
receiving-IsSettled = refl

receive-Post_example :
    Post
      (λ a e'. IsDelivered tx e')
      (λ e'. (c : Machine) × (e' ≡ record receiving { nic_ctx = c }))
      (receive (1 ∷ 2 ∷ []) receiving)
receive-Post_example =
    receive-Post receiving tx (1 ∷ 2 ∷ []) refl tx-IsRing (omega arith) receiving-IsSettled refl
      (omega arith)

update_receive_state_lem_example :
    update_receive_state receiving
    ≡ record receiving { receive_state = state_for receiving.rx_ring }
update_receive_state_lem_example = update_receive_state_lem receiving

IsSettled-kept_example :
    IsSettled (new running true)
    × IsSettled (reset_e1000 receiving)
    × IsSettled (rctl_write receiving)
    × IsSettled (rdt_write receiving)
IsSettled-kept_example = IsSettled-kept running true receiving receiving-IsSettled
