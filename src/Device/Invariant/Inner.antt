-- ===== src/Device/Invariant/Inner.antt =====
-- The parts of reception and transmission that run on the surroundings alone.
use e1000_emu.Prelude.{
  ℕ, zero, suc, ◌*◌, true, not, Option, none, some, List, [], ◌∷◌, length, drop, ◌==◌, ltb,
  if◌then◌else◌,
}
use mathlib.Core.List.{reverse}
use e1000_emu.Outcome.{
  Outcome, ok, err, panic, out_of_fuel, pure, fail, panics, modify, or_panic, or_fail, unwrap,
  ensure, assert, ◌>>=◌,
}
use e1000_emu.Outcome.Always.{
  Always, Kept, Always-bind, Always-if, Always-or_panic, Always-or_fail, Always-ensure,
  Always-assert, Always-unwrap,
}
use e1000_emu.Packing.{Derive, PackedStruct}
use e1000_emu.NicContext.{NicContext, InternetChecksum}
use e1000_emu.Registers.General.{get_buffer_size}
use e1000_emu.Descriptors.Ring.{
  DescriptorRing, descriptor_bytes, is_empty, advance_head, read_head, read_descriptor,
  write_descriptor, write_and_advance_head, head_check,
}
use e1000_emu.Descriptors.Formats.{
  ReceiveDescriptor, receive_descriptor, TransmitDescriptor, TransmitDescriptorVariant,
  TransmitDescriptorTcpContext, legacy, tcp_context, tcp_data, transmit_descriptor, report_status,
}
use e1000_emu.Transmit.Sequence.{
  TransmitDescriptorSequence, read_to_buffer, add_variant, add_descriptor, no_bytes, begin_tcp,
}
use e1000_emu.Transmit.Segments.{finalize, finalize_tcp, segment}
use e1000_emu.Transmit.Buffer.{slice}
use e1000_emu.Device.State.{E1000}
use e1000_emu.Device.Receive.{store_frame, fill_head, counted_length, filled}
use e1000_emu.Device.Transmit.{
  TxLoop, keep_context, send_all, send_done, complete, tx_step, tx_loop,
}
use e1000_emu.Device.Invariant.{IsServed}

-- Calls that only compute.
module _ {C : Type 0} (Q : C → Type 0) where
  head_check-Kept : (r : DescriptorRing) → Kept Q (head_check r)
  unfolding head_check
  head_check-Kept r c q = Always-if Q (is_empty r) fail (pure tt) c q q

  finalize-Kept :
      ⦃K : InternetChecksum⦄ (s : TransmitDescriptorSequence)
      (o : Option TransmitDescriptorTcpContext)
      → Kept Q (finalize s o)
  unfolding finalize finalize_tcp segment
  finalize-Kept s o c q = Always-bind Q (assert s.done) _ c (Always-assert Q s.done c q) λ a t q.
      Always-if Q s.tcp _ _ t
        (Always-bind Q (or_fail o) _ t (Always-or_fail Q o t q) λ ctx u q.
          Always-bind Q (if ctx.tucmd_tse then segment s ctx else pure (s.bytes ∷ [])) _ u
            (Always-if Q ctx.tucmd_tse _ _ u
              (Always-bind Q (or_panic (slice s.bytes 0 ctx.hdrlen)) _ u
                (Always-or_panic Q (slice s.bytes 0 ctx.hdrlen) u q)
                λ h v q.
                  let complete = length (drop ctx.hdrlen s.bytes) == ctx.paylen in
                  Always-bind Q (ensure complete) (λ b. or_panic _) v (Always-ensure Q complete v q)
                    (λ b w q. Always-or_panic Q _ w q))
              q)
            (λ ps v q. Always-or_panic Q _ v q))
        q

module _ {C : Type 0} ⦃N : NicContext C⦄ (Q : C → Type 0) (served : IsServed N Q) where
  read_descriptor-Kept :
      {A : Type 0} (P : PackedStruct A) (r : DescriptorRing) (index : ℕ)
      → Kept Q (read_descriptor P r index)
  unfolding read_descriptor
  read_descriptor-Kept P r index c q = Always-or_fail Q (P.unpack _) _ (
      served.prepared_read r.ring_address (r.length * descriptor_bytes) descriptor_bytes
        (index * descriptor_bytes) c q)

  read_head-Kept : {A : Type 0} (P : PackedStruct A) (r : DescriptorRing) → Kept Q (read_head P r)
  unfolding read_head
  read_head-Kept P r c q =
      Always-bind Q (head_check r) _ c (head_check-Kept Q r c q)
        (λ a t q. read_descriptor-Kept P r r.head t q)

  write_descriptor-Kept :
      {A : Type 0} (P : PackedStruct A) (r : DescriptorRing) (d : A) (index : ℕ)
      → Kept Q (write_descriptor P r d index)
  unfolding write_descriptor
  write_descriptor-Kept P r d index c q = go (P.pack d)
    where
      go :
          (o : Option (List ℕ))
          → Always Q (
              (or_fail o >>= λ bytes.
              modify (N.dma_write r.ring_address (reverse bytes) (index * descriptor_bytes)))
                (N.dma_prepare r.ring_address (r.length * descriptor_bytes) c))
      go none = served.prepare r.ring_address (r.length * descriptor_bytes) c q
      go (some bytes) =
          served.prepared_write r.ring_address (r.length * descriptor_bytes) (reverse bytes)
            (index * descriptor_bytes) c q

  write_and_advance_head-Kept :
      {A : Type 0} (P : PackedStruct A) (r : DescriptorRing) (d : A)
      → Kept Q (write_and_advance_head P r d)
  unfolding write_and_advance_head
  write_and_advance_head-Kept P r d c q =
      Always-bind Q (head_check r) _ c (head_check-Kept Q r c q) λ a t q.
        Always-bind Q (write_descriptor P r d r.head) _ t (write_descriptor-Kept P r d r.head t q)
          (λ b u q. Always-or_panic Q (advance_head r) u q)

  -- Reception.

  store_frame-Kept :
      (n : ℕ) (d : ReceiveDescriptor) (size : ℕ) (frame : List ℕ)
      → Kept Q (store_frame n d size frame)
  unfolding store_frame
  store_frame-Kept n d size frame c q =
      Always-bind Q (if ltb size n then panics else pure tt) _ c
        (Always-if Q (ltb size n) panics (pure tt) c tt q)
        λ a t q.
          Always-bind Q (if d.buffer == 0 then panics else pure tt) _ t
            (Always-if Q (d.buffer == 0) panics (pure tt) t tt q)
            (λ b u q. served.prepared_write d.buffer size frame 0 u q)

  pub fill_head-Kept :
      ⦃D : Derive⦄ (e : E1000 C) (r : DescriptorRing) (frame : List ℕ)
      → Kept Q (fill_head e r frame)
  unfolding fill_head
  fill_head-Kept ⦃D⦄ e r frame c q =
      Always-bind Q (read_head (D.derive receive_descriptor) r) _ c
        (read_head-Kept (D.derive receive_descriptor) r c q)
        λ d t q.
          Always-bind Q (or_panic (get_buffer_size e.regs.rctl)) _ t
            (Always-or_panic Q (get_buffer_size e.regs.rctl) t q)
            λ size u q.
              Always-bind Q (store_frame (counted_length e frame) d size frame) _ u
                (store_frame-Kept (counted_length e frame) d size frame u q)
                (λ a v q.
                  write_and_advance_head-Kept (D.derive receive_descriptor) r
                    (filled d (counted_length e frame)) v q)

  -- Transmission.

  read_to_buffer-Kept :
      (s : TransmitDescriptorSequence) (address n : ℕ) → Kept Q (read_to_buffer s address n)
  unfolding read_to_buffer
  read_to_buffer-Kept s address n c q =
      Always-if Q (address == 0) (pure s) _ c q (served.prepared_read address n n 0 c q)

  add_variant-Kept :
      (s : TransmitDescriptorSequence) (v : TransmitDescriptorVariant) → Kept Q (add_variant s v)
  unfolding add_variant
  add_variant-Kept s (legacy d) c q =
      Always-bind Q (ensure (not s.tcp)) _ c (Always-ensure Q (not s.tcp) c q) λ a t q.
        Always-bind Q (if d.cmd_ic then panics else pure tt) _ t
          (Always-if Q d.cmd_ic panics (pure tt) t tt q)
          λ b u q.
            Always-bind Q (read_to_buffer s d.buffer d.length) _ u
              (read_to_buffer-Kept s d.buffer d.length u q) (λ s' v q. q)
  add_variant-Kept s (tcp_context d) c q =
      Always-bind Q (ensure (no_bytes s.bytes)) _ c (Always-ensure Q (no_bytes s.bytes) c q)
        (λ a t q. q)
  add_variant-Kept s (tcp_data d) c q =
      Always-bind Q (if s.tcp then pure tt else ensure (no_bytes s.bytes)) _ c
        (Always-if Q s.tcp (pure tt) (ensure (no_bytes s.bytes)) c q
          (Always-ensure Q (no_bytes s.bytes) c q))
        λ a t q.
          Always-bind Q (read_to_buffer (begin_tcp s d) d.buffer d.length) _ t
            (read_to_buffer-Kept (begin_tcp s d) d.buffer d.length t q) (λ s' v q. q)

  add_descriptor-Kept :
      (s : TransmitDescriptorSequence) (d : TransmitDescriptor) → Kept Q (add_descriptor s d)
  unfolding add_descriptor
  add_descriptor-Kept s d c q =
      Always-bind Q (assert (not s.done)) _ c (Always-assert Q (not s.done) c q)
        (λ a t q. add_variant-Kept s d.variant t q)

  send_all-Kept : (ps : List (List ℕ)) → Kept Q (send_all ps)
  unfolding send_all
  send_all-Kept [] c q = q
  send_all-Kept (p ∷ ps) c q =
      Always-bind Q (λ c. or_panic (N.send p c).0 (N.send p c).1) _ c
        (Always-or_panic Q (N.send p c).0 (N.send p c).1 (served.send p c q))
        λ sent t q.
          Always-bind Q (assert (sent == length p)) _ t (Always-assert Q (sent == length p) t q)
            (λ a u q. send_all-Kept ps u q)

  send_done-Kept : ⦃K : InternetChecksum⦄ (l : TxLoop) → Kept Q (send_done l)
  unfolding send_done
  send_done-Kept l c q =
      Always-if Q l.sequence.done _ _ c
        (Always-bind Q (unwrap (finalize l.sequence l.saved_context)) _ c
          (Always-unwrap Q (finalize l.sequence l.saved_context) c
            (finalize-Kept Q l.sequence l.saved_context c q))
          λ ps t q. Always-bind Q (send_all ps) _ t (send_all-Kept ps t q) (λ a u q. q))
        q

  complete-Kept : ⦃D : Derive⦄ (d : TransmitDescriptor) (l : TxLoop) → Kept Q (complete d l)
  unfolding complete
  complete-Kept d l c q =
      let done = record d { common = record (d.common) { status_dd = true } } in
      Always-if Q (report_status d.common) _ _ c
        (Always-bind Q (unwrap (write_and_advance_head transmit_descriptor l.ring done)) _ c
          (Always-unwrap Q (write_and_advance_head transmit_descriptor l.ring done) c
            (write_and_advance_head-Kept transmit_descriptor l.ring done c q))
          (λ r t q. q))
        (Always-bind Q (or_panic (advance_head l.ring)) _ c
          (Always-or_panic Q (advance_head l.ring) c q) (λ r t q. q))

  tx_step-Kept : ⦃D : Derive⦄ ⦃K : InternetChecksum⦄ (l : TxLoop) → Kept Q (tx_step l)
  unfolding tx_step
  tx_step-Kept l c q =
      Always-bind Q (unwrap (read_head transmit_descriptor l.ring)) _ c
        (Always-unwrap Q (read_head transmit_descriptor l.ring) c
          (read_head-Kept transmit_descriptor l.ring c q))
        (λ d t q. go d (add_descriptor l.sequence d t) (add_descriptor-Kept l.sequence d t q))
    where
      go :
          (d : TransmitDescriptor) (o : Outcome C TransmitDescriptorSequence)
          → Always Q o
          → Always Q (elim o [
            | ok sequence c' ↦
                (do
                  l' ← complete d (record l { sequence = sequence })
                  send_done (keep_context d.variant l'))
                  c'
            | err c' ↦
                (do ring ← or_panic (advance_head l.ring); pure (record l { ring = ring })) c'
            | panic ↦ panic
            | out_of_fuel ↦ out_of_fuel
          ])
      go d (ok s t) q =
          Always-bind Q (complete d (record l { sequence = s })) _ t
            (complete-Kept d (record l { sequence = s }) t q)
            (λ l' u q. send_done-Kept (keep_context d.variant l') u q)
      go d (err t) q =
          Always-bind Q (or_panic (advance_head l.ring)) _ t
            (Always-or_panic Q (advance_head l.ring) t q) (λ r u q. q)
      go d panic q = tt
      go d out_of_fuel q = tt

  pub tx_loop-Kept :
      ⦃D : Derive⦄ ⦃K : InternetChecksum⦄ (fuel : ℕ) (l : TxLoop) → Kept Q (tx_loop fuel l)
  unfolding tx_loop
  tx_loop-Kept zero l c q = Always-if Q (is_empty l.ring) (pure l) _ c q tt
  tx_loop-Kept (suc fuel) l c q =
      Always-if Q (is_empty l.ring) (pure l) _ c q
        (Always-bind Q (tx_step l) _ c (tx_step-Kept l c q) (λ l' t q. tx_loop-Kept fuel l' t q))
