-- ===== src/Device/Receive/Store.antt =====
-- The delivery of a frame in src/e1000/receive.rs, write by write.
use e1000_emu.Prelude.{
  ℕ, ◌+◌, ◌*◌, ◌%◌, ◌^◌, ◌≤◌, ◌<◌, ◌≡◌, ◌≢◌, refl, sym, ap, ◌∙◌, true, false, some, List, length,
  bits, digit_laws, bit-eq-of_digit, arith, to_le_bytes, ltb, ◌==◌, to_le_bytes-IsBytes,
  from_le_bytes, IsBytes-reverse, length-reverse, from_le_bytes-to_le_bytes, length-to_le_bytes,
}
use mathlib.Core.List.{reverse, reverse-reverse}
use e1000_emu.Outcome.{ok, ◌>>=◌}
use e1000_emu.NicContext.{NicContext, Clock}
use e1000_emu.Descriptors.Ring.{
  DescriptorRing, is_empty, advance_head, read_head, write_and_advance_head, read_descriptor,
  write_descriptor, head_check,
}
use e1000_emu.Packing.{Derive, Fits}
use e1000_emu.Registers.General.{get_buffer_size}
use e1000_emu.Device.State.{E1000, online}
use e1000_emu.Device.Receive.{fill_head, store_frame, counted_length, filled, receive}
use e1000_emu.Descriptors.Ring.Laws.{IsRing}
use e1000_emu.Device.Interrupts.Laws.{interrupted}
use e1000_emu.Device.Receive.Laws.{
  IsSettled, state_for, online-owned, receive-online, noted, finish_lem, update_receive_state_lem,
}
use e1000_emu.Descriptors.Formats.{ReceiveDescriptor, receive_descriptor}

receive_descriptor-Fits :
    (d : ReceiveDescriptor) → d.buffer < 2 ^ 64 → d.length < 2 ^ 16 → Fits receive_descriptor d
receive_descriptor-Fits d b l = record {
  in_size = omega (digit_laws, b, l);
  kept = λ i. record {
    buffer = buffer_kept i;
    length = length_kept i;
    status_dd =
        bit-eq-of_digit 96 (receive_descriptor.encode d) d.status_dd (omega (digit_laws, b, l)) i;
    status_eop =
        bit-eq-of_digit 97 (receive_descriptor.encode d) d.status_eop (omega (digit_laws, b, l)) i;
  };
}
  where
    buffer_kept : bits 0 64 (receive_descriptor.encode d) ≡ d.buffer
    buffer_kept = omega (digit_laws, b, l)

    length_kept : bits 64 16 (receive_descriptor.encode d) ≡ d.length
    length_kept = omega (digit_laws, b, l)

-- What a driver finds at the head afterwards: the address as it was, the length, and the bits DD,
-- EOP and IXSM.
abbrev pub written_back : ℕ → ℕ → ℕ
written_back w n = bits 0 64 w + n % 2 ^ 16 * 2 ^ 64 + 7 * 2 ^ 96

encode-filled :
    (w n : ℕ)
    → receive_descriptor.encode (filled (receive_descriptor.decode w) n) ≡ written_back w n
unfolding filled
encode-filled w n = omega arith

filled-Fits : (w n : ℕ) → Fits receive_descriptor (filled (receive_descriptor.decode w) n)
unfolding filled
filled-Fits w n =
    receive_descriptor-Fits (filled (receive_descriptor.decode w) n) (omega arith) (omega arith)

module _ ⦃D : Derive⦄ where
  -- Sixteen bytes, as the little endian machine stores them, unpack to the bits of their number.
  unpack-stored :
      (w : ℕ)
      → w < 2 ^ 128
      → (D.derive receive_descriptor).unpack (reverse (to_le_bytes 16 w))
        ≡ some (receive_descriptor.decode w)
  unpack-stored w small =
      D.unpack_lem receive_descriptor (reverse (to_le_bytes 16 w))
        (length-reverse (to_le_bytes 16 w) ∙ length-to_le_bytes 16 w)
        (IsBytes-reverse (to_le_bytes 16 w) (to_le_bytes-IsBytes 16 w))
      ∙ ap (λ n. some (receive_descriptor.decode n))
          (ap from_le_bytes (reverse-reverse (to_le_bytes 16 w))
            ∙ from_le_bytes-to_le_bytes 16 w small)

module _ {C : Type 0} ⦃D : Derive⦄ ⦃N : NicContext C⦄ where
  -- The memory of a ring is prepared as a whole.
  abbrev pub ring_prepared : DescriptorRing → C → C
  ring_prepared r c = N.dma_prepare r.ring_address (r.length * 16) c

  -- The bytes at the head of the ring, and the surroundings after they are read.
  abbrev pub head_read : DescriptorRing → C → List ℕ × C
  head_read r c = N.dma_read r.ring_address 16 (r.head * 16) (ring_prepared r c)

  read_head_lem :
      (r : DescriptorRing) (c : C) (w : ℕ)
      → is_empty r ≡ false
      → (head_read r c).0 ≡ to_le_bytes 16 w
      → w < 2 ^ 128
      → read_head (D.derive receive_descriptor) r c
        ≡ ok (receive_descriptor.decode w) (head_read r c).1
  unfolding read_head read_descriptor head_check
  read_head_lem r c w occupied stored small = rw (occupied, stored, unpack-stored w small) refl

  write_head_lem :
      (r r' : DescriptorRing) (d : ReceiveDescriptor) (c : C)
      → is_empty r ≡ false
      → advance_head r ≡ some r'
      → Fits receive_descriptor d
      → write_and_advance_head (D.derive receive_descriptor) r d c
        ≡ ok r' (
            N.dma_write r.ring_address
              (to_le_bytes 16 (receive_descriptor.encode d))
              (r.head * 16)
              (ring_prepared r c))
  unfolding write_and_advance_head write_descriptor head_check
  write_head_lem r r' d c occupied advanced fits =
      rw
        (
          occupied,
          D.pack_lem receive_descriptor d fits,
          advanced,
          reverse-reverse (to_le_bytes 16 (receive_descriptor.encode d)),
        )
        refl

  -- The frame at the address of the descriptor, and then the descriptor written back.
  abbrev pub delivered : DescriptorRing → ℕ → ℕ → ℕ → List ℕ → C → C
  delivered r w size n frame c =
      let buffer = bits 0 64 w in
      let stored = N.dma_write buffer frame 0 (N.dma_prepare buffer size (head_read r c).1) in
      N.dma_write r.ring_address (to_le_bytes 16 (written_back w n)) (r.head * 16)
        (ring_prepared r stored)

  fill_head_lem :
      (e : E1000 C) (r r' : DescriptorRing) (frame : List ℕ) (c : C) (w size : ℕ)
      → is_empty r ≡ false
      → advance_head r ≡ some r'
      → (head_read r c).0 ≡ to_le_bytes 16 w
      → w < 2 ^ 128
      → get_buffer_size e.regs.rctl ≡ some size
      → counted_length e frame ≤ size
      → bits 0 64 w ≢ 0
      → fill_head e r frame c ≡ ok r' (delivered r w size (counted_length e frame) frame c)
  unfolding fill_head store_frame
  fill_head_lem e r r' frame c w size occupied advanced stored small sized fits buffered =
      let n = counted_length e frame in
      let enough : ltb size n ≡ false = ground (arith, fits) in
      let present : (bits 0 64 w == 0) ≡ false = ground (arith, buffered) in
      rw (read_head_lem r c w occupied stored small, ◌>>=◌)
        (rw (sized, enough, present)
          (write_head_lem r r' (filled (receive_descriptor.decode w) n) _ occupied advanced
              (filled-Fits w n)
            ∙ rw (encode-filled w n) refl))

-- The ring after the descriptor at its head is used up.
abbrev pub advanced : DescriptorRing → DescriptorRing
advanced r = record r { head = (r.head + 1) % r.length }

pub advance_head_lem : (r : DescriptorRing) → IsRing r → advance_head r ≡ some (advanced r)
unfolding advance_head
advance_head_lem r v =
    let some_length : (r.length == 0) ≡ false = ground (arith, v.head_in) in rw some_length refl

module _ {C : Type 0} ⦃D : Derive⦄ ⦃N : NicContext C⦄ ⦃T : Clock C⦄ where
  -- The device before it interrupts.
  pub record IsStored (r : DescriptorRing) (w size : ℕ) (frame : List ℕ) (e e' : E1000 C)
      : Type 0 where
    pub surroundings : e'.nic_ctx ≡ delivered r w size (counted_length e frame) frame e.nic_ctx
    pub ring : e'.rx_ring ≡ some (advanced r)
    pub settled : IsSettled e'
    pub register : e'.regs.rd_h.head ≡ (advanced r).head % 2 ^ 16
    pub causes : e'.regs.interrupt_cause ≡ record (e.regs.interrupt_cause) { rxt0 = true }

  noted-IsStored :
      (e : E1000 C) (r : DescriptorRing) (w size : ℕ) (frame : List ℕ)
      → let c = delivered r w size (counted_length e frame) frame e.nic_ctx in
        IsStored r w size frame e (noted (advanced r) (record e { nic_ctx = c }))
  noted-IsStored e r w size frame =
      let c = delivered r w size (counted_length e frame) frame e.nic_ctx in
      rw
        (update_receive_state_lem (record e {
          nic_ctx = c;
          rx_ring = some (advanced r);
          regs = record (e.regs) { rd_h = record { head = (advanced r).head % 2 ^ 16 } };
        }))
        (record {
          surroundings = refl;
          ring = refl;
          settled = refl;
          register = refl;
          causes = refl;
        })

  -- The delivery of a frame does not panic if the device is online with the receive state that
  -- belongs to its ring, head and tail lie in the ring, the register RCTL states a buffer size that
  -- the frame fits, with its frame check sequence where one is counted, the descriptor at the head
  -- of the ring is read as the bytes of `w`, its buffer is not at 0, and the frame is not empty:
  -- the frame is written to the buffer, the descriptor is written back with the same address, the
  -- length and the bits DD, EOP and IXSM, the ring advances, the receive state follows it, and then
  -- an interrupt for RXT0 is reported.
  pub receive_lem :
      (e : E1000 C) (r : DescriptorRing) (frame : List ℕ) (w size : ℕ)
      → e.rx_ring ≡ some r
      → IsRing r
      → IsSettled e
      → e.receive_state ≡ online
      → 0 < length frame
      → (head_read r e.nic_ctx).0 ≡ to_le_bytes 16 w
      → w < 2 ^ 128
      → get_buffer_size e.regs.rctl ≡ some size
      → counted_length e frame ≤ size
      → bits 0 64 w ≢ 0
      → (e' : E1000 C) × (receive frame e ≡ ok tt (interrupted e')) × IsStored r w size frame e e'
  receive_lem e r frame w size h v settled on n stored small sized fits buffered =
      let occupied = online-owned r v (sym (settled ∙ ap state_for h) ∙ on) in
      let c = delivered r w size (counted_length e frame) frame e.nic_ctx in
      let filled_ring =
        fill_head_lem e r (advanced r) frame e.nic_ctx w size occupied (advance_head_lem r v) stored
          small sized fits buffered in
      (
        noted (advanced r) (record e { nic_ctx = c }),
        receive-online e r frame h on n
            ∙ (rw (filled_ring, ◌>>=◌) (finish_lem (advanced r) (record e { nic_ctx = c }))),
        noted-IsStored e r w size frame,
      )
