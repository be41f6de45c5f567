-- ===== src/Tests/Data.antt =====
-- The device and the surroundings that the tests run on.
use e1000_emu.Prelude.{ℕ, ◌≡◌, refl, true, some, List, [], ◌∷◌}
use e1000_emu.Outcome.{Outcome, ok, err, panic, out_of_fuel}
use e1000_emu.Packing.Reference.{reference}
use e1000_emu.NicContext.Machine.{
  Machine, machine, machine_clock, no_checksum, powered_on, write_memory,
}
use e1000_emu.Registers.General.{InterruptCauses}
use e1000_emu.Registers.File.{no_causes}
use e1000_emu.Descriptors.Ring.{DescriptorRing}
use e1000_emu.Device.State.{E1000, InterruptMitigation, new}
use e1000_emu.Device.Interrupts.Delivery.{InterruptCount}
use e1000_emu.Device.Transmit.{
  process_tx_ring, transmit_from, tx_loop, tx_step, complete, send_done, send_all, keep_context,
}
use e1000_emu.Descriptors.Formats.{
  report_status, unpack_transmit, unpack_variant, pack_transmit, pack_variant, or_bytes,
}
use e1000_emu.Descriptors.Ring.{
  is_empty, read_head, read_descriptor, head_check, write_and_advance_head, write_descriptor,
  advance_head,
}
use e1000_emu.Transmit.Sequence.{add_descriptor, add_variant, read_to_buffer}
use e1000_emu.Transmit.Segments.{finalize}
use e1000_emu.Device.Interrupts.{report_txdw_and_txqe, interrupt, packed_word}

-- Eight descriptors, of which the hardware owns the last and the first.
abbrev pub tx : DescriptorRing
tx = record { ring_address = 0x1000; length = 8; head = 7; tail = 1 }

-- The last descriptor is empty; the first sends three bytes and reports its status.
abbrev pub memory : ℕ → ℕ
memory =
    write_memory
      (write_memory (λ a. 0) 0x1000
        (0x00 ∷ 0x20 ∷ 0 ∷ 0 ∷ 0 ∷ 0 ∷ 0 ∷ 0 ∷ 3 ∷ 0 ∷ 0 ∷ 9 ∷ 0 ∷ 0 ∷ 0 ∷ 0 ∷ []))
      0x2000 (10 ∷ 11 ∷ 12 ∷ [])

abbrev pub running : Machine
running = record powered_on { memory = memory; time = 5 }

abbrev pub fresh : E1000 Machine
fresh = new running true

abbrev pub sending : E1000 Machine
sending = record fresh {
  tx_ring = some tx;
  regs = record (fresh.regs) { td_t = record { tail = 1 } };
}

abbrev sent_by : Outcome (E1000 Machine) (Unit {0}) → List (List ℕ)
sent_by (ok a e) = e.nic_ctx.sent
sent_by (err e) = []
sent_by panic = []
sent_by out_of_fuel = []

-- One packet leaves.
abbrev packets : List (List ℕ)
packets = sent_by (process_tx_ring sending)

sends_packet : sent_by (process_tx_ring sending) ≡ (10 ∷ 11 ∷ 12 ∷ []) ∷ []
unfolding process_tx_ring transmit_from tx_loop tx_step complete send_done send_all keep_context
    report_status is_empty read_head read_descriptor head_check unpack_transmit unpack_variant
    add_descriptor add_variant read_to_buffer finalize write_and_advance_head write_descriptor
    advance_head pack_transmit pack_variant or_bytes report_txdw_and_txqe interrupt packed_word new
sends_packet = refl

-- A cause is pending, and mitigation lasts for 95 more units of time.
abbrev pub mitigation : InterruptMitigation
mitigation = record { expiration = 100; interrupt_after = true }

abbrev pub link_changed : InterruptCauses
link_changed = record no_causes { lsc = true }

abbrev pub signalling : E1000 Machine
signalling = record fresh {
  regs = record (fresh.regs) { interrupt_cause = link_changed; interrupt_mask = link_changed };
}

abbrev pub mitigated : E1000 Machine
mitigated = record signalling { interrupt_mitigation = some mitigation }

-- The same when the time has passed.
abbrev pub woken : E1000 Machine
woken = record mitigated { nic_ctx = record running { time = 100 } }

abbrev pub interrupt_count : InterruptCount Machine machine machine_clock
interrupt_count = record {
  count = λ c. c.interrupts;
  count-trigger = λ c. refl;
  count-set_timer = λ d c. refl;
  count-delete_timer = λ c. refl;
  count-now = λ c. refl;
}
