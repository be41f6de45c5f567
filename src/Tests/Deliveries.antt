-- ===== src/Tests/Deliveries.antt =====
-- The delivery of a frame and the transmission of a packet at concrete inputs.
use e1000_emu.Prelude.{ℕ, ◌+◌, ◌*◌, ◌^◌, ◌≡◌, refl, true, false, none, some, List, [], ◌∷◌, arith}
use e1000_emu.Outcome.{ok}
use e1000_emu.Packing.Reference.{reference}
use e1000_emu.NicContext.Machine.{Machine, machine, machine_clock, no_checksum}
use e1000_emu.Registers.General.{get_buffer_size, buffer_size_of}
use e1000_emu.Descriptors.Ring.{DescriptorRing, hardware_owned_descriptors, is_empty}
use e1000_emu.Descriptors.Ring.Laws.{IsRing}
use e1000_emu.Device.State.{E1000, online, new}
use e1000_emu.Device.Interrupts.Laws.{interrupted}
use e1000_emu.Device.Receive.{receive, counted_length}
use e1000_emu.Device.Receive.Laws.{IsSettled}
use e1000_emu.Device.Receive.Store.{IsStored, advanced, head_read, receive_lem}
use e1000_emu.Transmit.Sequence.{new_sequence}
use e1000_emu.Device.Transmit.{TxLoop, tx_step}
use e1000_emu.Device.Transmit.Legacy.{data_read, fetched, tx_step_lem}
use e1000_emu.Tests.Data.{fresh, running}

-- The descriptor at the head has its buffer at 0x2000.
abbrev rx : DescriptorRing
rx = record { ring_address = 0x1000; length = 8; head = 0; tail = 6 }

abbrev receiving : E1000 Machine
receiving = record fresh { rx_ring = some rx; receive_state = online }

abbrev at_head : ℕ
at_head = 0x2000 + 3 * 2 ^ 64 + 9 * 2 ^ 88

rx-IsRing : IsRing rx
rx-IsRing = record { head_in = omega arith; tail_in = omega arith; small = omega arith }

receiving-IsSettled : IsSettled receiving
unfolding hardware_owned_descriptors
receiving-IsSettled = refl

receive_lem_example :
    (e' : E1000 Machine) × (receive (1 ∷ 2 ∷ 3 ∷ []) receiving ≡ ok tt (interrupted e'))
    × IsStored rx at_head 2048 (1 ∷ 2 ∷ 3 ∷ []) receiving e'
unfolding new get_buffer_size counted_length buffer_size_of
receive_lem_example =
    receive_lem receiving rx (1 ∷ 2 ∷ 3 ∷ []) at_head 2048 refl rx-IsRing receiving-IsSettled refl
      (omega arith) refl (omega arith) refl (omega arith) (λ h. omega (arith, h))

-- The descriptor at the head sends three bytes, ends the packet and reports its status.
abbrev sending : TxLoop
sending = record { ring = rx; sequence = new_sequence; report = false; saved_context = none }

abbrev packet : List ℕ
packet = (data_read at_head (head_read rx running).1).0

abbrev after_sending : Machine
after_sending = (machine.send packet (fetched rx at_head running)).1

rx-is_empty : is_empty rx ≡ false
unfolding is_empty
rx-is_empty = refl

tx_step_lem_example :
    tx_step sending running
    ≡ ok
        (record sending { ring = advanced rx; sequence = new_sequence; report = true })
        after_sending
tx_step_lem_example =
    tx_step_lem sending running after_sending at_head rx-is_empty rx-IsRing refl refl refl
      (omega arith) refl refl refl refl (λ h. omega (arith, h)) refl
