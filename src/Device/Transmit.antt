-- ===== src/Device/Transmit.antt =====
-- `process_tx_ring` of src/e1000/transmit.rs. The loop ends when the ring is empty; it is modelled
-- on fuel, of which the ring's length and one round more is given.
pub mod Loop
pub mod Drain
pub mod Legacy
pub mod Hang
use e1000_emu.Prelude.{
  ℕ, zero, suc, ◌+◌, ◌%◌, ◌^◌, Bool, true, false, Option, none, some, List, [], ◌∷◌, length, ◌==◌,
  if◌then◌else◌,
}
use e1000_emu.Outcome.{
  M, ok, err, panic, out_of_fuel, pure, modify, assert, or_panic, unwrap, ◌>>=◌, ◌>>◌,
}
use e1000_emu.Packing.{Derive}
use e1000_emu.NicContext.{NicContext, Clock, InternetChecksum}
use e1000_emu.Descriptors.Ring.{
  DescriptorRing, is_empty, advance_head, read_head, write_and_advance_head,
}
use e1000_emu.Descriptors.Formats.{
  TransmitDescriptor, TransmitDescriptorVariant, TransmitDescriptorTcpContext, legacy, tcp_context,
  tcp_data, transmit_descriptor, report_status,
}
use e1000_emu.Transmit.Sequence.{TransmitDescriptorSequence, new_sequence, add_descriptor}
use e1000_emu.Transmit.Segments.{finalize}
use e1000_emu.Device.State.{E1000, on_ctx}
use e1000_emu.Device.Interrupts.{report_txdw_and_txqe, report_txqe}

-- The variables of the loop.
pub record TxLoop : Type 0 where
  pub ring : DescriptorRing
  pub sequence : TransmitDescriptorSequence
  pub report : Bool
  pub saved_context : Option TransmitDescriptorTcpContext

-- A context descriptor is kept for the sequences after it.
unfoldable pub keep_context : TransmitDescriptorVariant → TxLoop → TxLoop
keep_context (tcp_context d) l = record l { saved_context = some d }
keep_context (legacy d) l = l
keep_context (tcp_data d) l = l

module _ {C : Type 0} ⦃N : NicContext C⦄ where
  unfoldable pub send_all : List (List ℕ) → M C (Unit {0})
  send_all [] = pure tt
  send_all (packet ∷ packets) = do
    sent ← λ c. let (r, c') = N.send packet c in or_panic r c'
    assert (sent == length packet)
    send_all packets

  -- The packets of a sequence that is done are sent.
  unfoldable pub send_done : ⦃K : InternetChecksum⦄ → TxLoop → M C TxLoop
  send_done l =
      if l.sequence.done
      then (do
        packets ← unwrap (finalize l.sequence l.saved_context)
        send_all packets
        pure (record l { sequence = new_sequence }))
      else pure l

  module _ ⦃D : Derive⦄ where
    -- The head moves on, past a descriptor that is written back if its status is to be reported.
    unfoldable pub complete : TransmitDescriptor → TxLoop → M C TxLoop
    complete d l =
        if report_status d.common
        then (do
          ring ← unwrap (
              write_and_advance_head transmit_descriptor l.ring
                (record d { common = record (d.common) { status_dd = true } }))
          pure (record l { ring = ring; report = true }))
        else (do ring ← or_panic (advance_head l.ring); pure (record l { ring = ring }))

    module _ ⦃K : InternetChecksum⦄ where
      -- One round of the loop. A refused descriptor is skipped.
      unfoldable pub tx_step : TxLoop → M C TxLoop
      tx_step l = do
        d ← unwrap (read_head transmit_descriptor l.ring)
        λ c. elim (add_descriptor l.sequence d c) [
          | ok sequence c' ↦
              (do
                l' ← complete d (record l { sequence = sequence })
                send_done (keep_context d.variant l'))
                c'
          | err c' ↦ (do ring ← or_panic (advance_head l.ring); pure (record l { ring = ring })) c'
          | panic ↦ panic
          | out_of_fuel ↦ out_of_fuel
        ]

      unfoldable pub tx_loop : ℕ → TxLoop → M C TxLoop
      tx_loop zero l = if is_empty l.ring then pure l else λ c. out_of_fuel
      tx_loop (suc fuel) l = if is_empty l.ring then pure l else tx_step l >>= λ l'. tx_loop fuel l'

      -- What the loop starts from.
      abbrev pub tx_start : E1000 C → DescriptorRing → TxLoop
      tx_start e ring = record {
        ring = record ring { tail = e.regs.td_t.tail };
        sequence = new_sequence;
        report = false;
        saved_context = e.transmit_tcp_context;
      }

      -- What the loop leaves in the device.
      abbrev pub tx_finish : TxLoop → E1000 C → E1000 C
      tx_finish l e = record e {
        tx_ring = some (l.ring);
        transmit_tcp_context = l.saved_context;
        regs = record (e.regs) { td_h = record { head = l.ring.head % 2 ^ 16 } };
      }

      module _ ⦃T : Clock C⦄ where
        unfoldable pub transmit_from : DescriptorRing → M (E1000 C) (Unit {0})
        transmit_from ring e =
            (do
              l ← on_ctx (tx_loop (ring.length + 1) (tx_start e ring))
              modify (tx_finish l)
              if l.report then report_txdw_and_txqe else report_txqe)
              e

        unfoldable pub process_tx_ring : M (E1000 C) (Unit {0})
        process_tx_ring e = elim e.tx_ring [ none ↦ ok tt e | some ring ↦ transmit_from ring e ]
