-- ===== src/Device/Transmit/Legacy.antt =====
-- A legacy descriptor in the transmit loop of src/e1000/transmit.rs, call by call.
use e1000_emu.Prelude.{
  ℕ, ◌*◌, ◌^◌, ◌<◌, ◌≡◌, ◌≢◌, refl, ap, ◌∙◌, true, false, ◌||◌, some, List, ◌++◌, length, bits, bit,
  arith, to_le_bytes, to_be_bytes, from_le_bytes, from_be_bytes, to_le_bytes-IsBytes,
  IsBytes-reverse, length-reverse, length-to_le_bytes, from_le_bytes-to_le_bytes, ◌==◌,
}
use mathlib.Core.List.{reverse, reverse-reverse}
use e1000_emu.Outcome.{ok, ◌>>=◌}
use e1000_emu.Packing.{Derive}
use e1000_emu.NicContext.{NicContext, InternetChecksum}
use e1000_emu.Descriptors.Ring.{
  DescriptorRing, is_empty, read_head, write_and_advance_head, read_descriptor, write_descriptor,
  head_check,
}
use e1000_emu.Descriptors.Ring.Laws.{IsRing}
use e1000_emu.Device.Receive.Store.{head_read, ring_prepared, advanced, advance_head_lem}
use e1000_emu.Descriptors.Formats.{
  TransmitDescriptorCommon, legacy, pack_transmit, pack_variant, or_bytes, report_status,
  transmit_descriptor, transmit_descriptor_common, transmit_descriptor_legacy,
}
use e1000_emu.Descriptors.Formats.Fits.{legacy-Fits, common-Fits}
use e1000_emu.Descriptors.Formats.Unpack.{unpack_transmit_lem}
use e1000_emu.Transmit.Sequence.{
  TransmitDescriptorSequence, add_descriptor, add_variant, read_to_buffer, new_sequence,
}
use e1000_emu.Transmit.Segments.{finalize}
use e1000_emu.Device.Transmit.{TxLoop, tx_step, complete, keep_context, send_done, send_all}

-- The bytes of a legacy descriptor with the packed bits `w` when it is written back: the common and
-- the legacy fields, with DD.
abbrev pub written_back : ℕ → List ℕ
written_back w = reverse (
    or_bytes
      (to_be_bytes 16 (
        transmit_descriptor_common.encode
          (record (transmit_descriptor_common.decode w) { status_dd = true })))
      (to_be_bytes 16 (transmit_descriptor_legacy.encode (transmit_descriptor_legacy.decode w))))

module _ {C : Type 0} ⦃D : Derive⦄ ⦃N : NicContext C⦄ where
  read_head_lem :
      (r : DescriptorRing) (c : C) (w : ℕ)
      → is_empty r ≡ false
      → (head_read r c).0 ≡ to_le_bytes 16 w
      → w < 2 ^ 128
      → bit 93 w ≡ false
      → read_head transmit_descriptor r c
        ≡ ok
            (record {
              common = transmit_descriptor_common.decode w;
              variant = legacy (transmit_descriptor_legacy.decode w);
            })
            (head_read r c).1
  unfolding read_head read_descriptor head_check
  read_head_lem r c w occupied stored small plain =
      let bs = reverse (to_le_bytes 16 w) in
      let same : from_be_bytes bs ≡ w =
        ap from_le_bytes (reverse-reverse (to_le_bytes 16 w))
        ∙ from_le_bytes-to_le_bytes 16 w small in
      let unpacked =
        unpack_transmit_lem bs (length-reverse (to_le_bytes 16 w) ∙ length-to_le_bytes 16 w)
          (IsBytes-reverse (to_le_bytes 16 w) (to_le_bytes-IsBytes 16 w)) in
      rw (occupied, stored, unpacked) (rw same (rw plain refl))

  complete_lem :
      (l : TxLoop) (w : ℕ) (c : C)
      → is_empty l.ring ≡ false
      → IsRing l.ring
      → (bit 91 w || bit 92 w) ≡ true
      → complete
          (record {
            common = transmit_descriptor_common.decode w;
            variant = legacy (transmit_descriptor_legacy.decode w);
          })
          l
          c
        ≡ ok
            (record l { ring = advanced l.ring; report = true })
            (N.dma_write l.ring.ring_address
              (written_back w)
              (l.ring.head * 16)
              (ring_prepared l.ring c))
  unfolding complete report_status write_and_advance_head write_descriptor head_check pack_transmit
      pack_variant
  complete_lem l w c occupied v reports =
      let common = record (transmit_descriptor_common.decode w) { status_dd = true } in
      rw
        (
          reports,
          occupied,
          D.pack_lem transmit_descriptor_common common (common-Fits common (omega arith)),
          D.pack_lem transmit_descriptor_legacy (transmit_descriptor_legacy.decode w)
              (legacy-Fits w),
          advance_head_lem l.ring v,
        )
        refl

  -- The data of the descriptor, and the surroundings after it is read.
  abbrev pub data_read : ℕ → C → List ℕ × C
  data_read w c =
      N.dma_read (bits 0 64 w) (bits 64 16 w) 0 (N.dma_prepare (bits 0 64 w) (bits 64 16 w) c)

  -- The descriptor is read, then its data, and then it is written back.
  abbrev pub fetched : DescriptorRing → ℕ → C → C
  fetched r w c =
      N.dma_write r.ring_address (written_back w) (r.head * 16)
        (ring_prepared r (data_read w (head_read r c).1).1)

  -- The sequence with the data, which is then complete.
  abbrev ended : TransmitDescriptorSequence → ℕ → C → TransmitDescriptorSequence
  ended s w c = record s { bytes = s.bytes ++ (data_read w c).0; done = true }

  add_lem :
      (s : TransmitDescriptorSequence) (common : TransmitDescriptorCommon) (w : ℕ) (c : C)
      → s.done ≡ false
      → s.tcp ≡ false
      → bit 90 w ≡ false
      → bit 88 w ≡ true
      → bits 0 64 w ≢ 0
      → add_descriptor s
          (record { common = common; variant = legacy (transmit_descriptor_legacy.decode w) })
          c
        ≡ ok (ended s w c) (data_read w c).1
  unfolding add_descriptor add_variant read_to_buffer
  add_lem s common w c fresh plain unsummed ends buffered =
      let present : (bits 0 64 w == 0) ≡ false = ground (arith, buffered) in
      rw (fresh, plain, unsummed, present, ends) refl

  send_done_lem :
      ⦃K : InternetChecksum⦄ (l : TxLoop) (c c' : C)
      → l.sequence.done ≡ true
      → l.sequence.tcp ≡ false
      → N.send l.sequence.bytes c ≡ (some (length l.sequence.bytes), c')
      → send_done l c ≡ ok (record l { sequence = new_sequence }) c'
  unfolding send_done send_all finalize
  send_done_lem l c c' done plain sent =
      let all : (length l.sequence.bytes == length l.sequence.bytes) ≡ true = ground arith in
      rw (done, plain, ◌>>=◌, sent, all) refl

  -- One round of the transmit loop at the last descriptor of a legacy packet does not panic: it
  -- sends the bytes gathered so far and then the data of the descriptor as one packet, after the
  -- descriptor is written back with DD; the head advances, the next sequence is empty, and the
  -- status is to be reported. Taken are head and tail in the ring, a sequence of legacy data, the
  -- bytes of `w` at the head: a legacy descriptor that ends the packet, asks for no checksum and for
  -- its status, and has its buffer not at 0; and that the whole packet is sent.
  pub tx_step_lem :
      ⦃K : InternetChecksum⦄ (l : TxLoop) (c c' : C) (w : ℕ)
      → is_empty l.ring ≡ false
      → IsRing l.ring
      → l.sequence.done ≡ false
      → l.sequence.tcp ≡ false
      → (head_read l.ring c).0 ≡ to_le_bytes 16 w
      → w < 2 ^ 128
      → bit 93 w ≡ false
      → bit 90 w ≡ false
      → bit 88 w ≡ true
      → (bit 91 w || bit 92 w) ≡ true
      → bits 0 64 w ≢ 0
      → let packet = l.sequence.bytes ++ (data_read w (head_read l.ring c).1).0 in
        N.send packet (fetched l.ring w c) ≡ (some (length packet), c')
        → tx_step l c
          ≡ ok (record l { ring = advanced l.ring; sequence = new_sequence; report = true }) c'
  unfolding tx_step keep_context
  tx_step_lem l c c' w occupied v fresh plain stored small is_legacy unsummed ends reports buffered
        sent =
      let common = transmit_descriptor_common.decode w in
      let l' = record l { sequence = ended l.sequence w (head_read l.ring c).1 } in
      rw (read_head_lem l.ring c w occupied stored small is_legacy, ◌>>=◌)
        (rw (add_lem l.sequence common w (head_read l.ring c).1 fresh plain unsummed ends buffered)
          (rw (complete_lem l' w (data_read w (head_read l.ring c).1).1 occupied v reports, ◌>>=◌)
            (send_done_lem (record l' { ring = advanced l.ring; report = true })
              (fetched l.ring w c) c' refl plain sent)))
