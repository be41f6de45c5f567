-- ===== src/Device/Transmit/Loop.antt =====
-- One round of the loop of `process_tx_ring` of src/e1000/transmit.rs: its outcomes, and the ring
-- after it.
use e1000_emu.Prelude.{
  ℕ, ◌≡◌, refl, sym, ap, ◌∙◌, true, not, Option, some, List, [], ◌∷◌, if◌then◌else◌, ◌==◌, length,
  drop,
}
use e1000_emu.Outcome.{
  Outcome, ok, err, panic, out_of_fuel, pure, panics, or_panic, or_fail, unwrap, ensure, assert,
  ◌>>=◌, ◌>>◌,
}
use e1000_emu.Outcome.Post.{
  Post, Ends, Returns, Post-bind, Post-unwrap, Post-or_panic, Post-if, Post-weaken, Ends-bind,
  Ends-assert, Ends-ensure, Ends-or_panic, Ends-or_fail, Ends-if, Returns-assert,
}
use e1000_emu.Packing.{Derive}
use e1000_emu.NicContext.{NicContext, InternetChecksum}
use e1000_emu.Descriptors.Ring.{advance_head, read_head, write_and_advance_head}
use e1000_emu.Descriptors.Ring.Outcomes.{read_head-Ends, write_and_advance_head-Post}
use e1000_emu.Descriptors.Formats.{
  TransmitDescriptor, TransmitDescriptorVariant, TransmitDescriptorTcpContext, legacy, tcp_context,
  tcp_data, transmit_descriptor, report_status,
}
use e1000_emu.Transmit.Sequence.{
  TransmitDescriptorSequence, add_descriptor, add_variant, read_to_buffer, begin_tcp, no_bytes,
}
use e1000_emu.Transmit.Segments.{finalize, finalize_tcp, segment}
use e1000_emu.Transmit.Buffer.{slice}
use e1000_emu.Device.Transmit.{TxLoop, keep_context, send_all, send_done, complete, tx_step}

keep_context-ring : (v : TransmitDescriptorVariant) (l : TxLoop) → (keep_context v l).ring ≡ l.ring
unfolding keep_context
keep_context-ring (legacy d) l = refl
keep_context-ring (tcp_context d) l = refl
keep_context-ring (tcp_data d) l = refl

module _ {C : Type 0} ⦃N : NicContext C⦄ where
  read_to_buffer-Ends :
      (s : TransmitDescriptorSequence) (address n : ℕ) (c : C) → Ends (read_to_buffer s address n c)
  unfolding read_to_buffer
  read_to_buffer-Ends s address n c = Ends-if (address == 0) (pure s) _ c tt tt

  add_variant-Ends :
      (s : TransmitDescriptorSequence) (v : TransmitDescriptorVariant) (c : C)
      → Ends (add_variant s v c)
  unfolding add_variant
  add_variant-Ends s (legacy d) c =
      Ends-bind (ensure (not s.tcp)) _ c (Ends-ensure (not s.tcp) c) λ a t.
        Ends-bind (if d.cmd_ic then panics else pure tt) _ t
          (Ends-if d.cmd_ic panics (pure tt) t tt tt)
          λ b u.
            Ends-bind (read_to_buffer s d.buffer d.length) _ u
              (read_to_buffer-Ends s d.buffer d.length u) (λ s' v. tt)
  add_variant-Ends s (tcp_context d) c =
      Ends-bind (ensure (no_bytes s.bytes)) _ c (Ends-ensure (no_bytes s.bytes) c) (λ a t. tt)
  add_variant-Ends s (tcp_data d) c =
      Ends-bind (if s.tcp then pure tt else ensure (no_bytes s.bytes)) _ c
        (Ends-if s.tcp (pure tt) (ensure (no_bytes s.bytes)) c tt
          (Ends-ensure (no_bytes s.bytes) c))
        λ a t.
          Ends-bind (read_to_buffer (begin_tcp s d) d.buffer d.length) _ t
            (read_to_buffer-Ends (begin_tcp s d) d.buffer d.length t) (λ s' v. tt)

  add_descriptor-Ends :
      (s : TransmitDescriptorSequence) (d : TransmitDescriptor) (c : C)
      → Ends (add_descriptor s d c)
  unfolding add_descriptor
  add_descriptor-Ends s d c =
      Ends-bind (assert (not s.done)) _ c (Ends-assert (not s.done) c)
        (λ a t. add_variant-Ends s d.variant t)

  send_all-Returns : (ps : List (List ℕ)) (c : C) → Returns (send_all ps c)
  unfolding send_all
  send_all-Returns [] c = tt
  send_all-Returns (p ∷ ps) c =
      Post-bind (λ a t. Unit) (λ a t. Unit) (λ t. ⊥) (λ c. or_panic (N.send p c).0 (N.send p c).1)
        (λ sent. assert (sent == length p) >> send_all ps) c
        (Post-or_panic (λ a t. Unit) (λ t. ⊥) (N.send p c).0 (N.send p c).1 (λ a e. tt))
        λ sent t q.
          Post-bind (λ a t. Unit) (λ a t. Unit) (λ t. ⊥) (assert (sent == length p))
            (λ a. send_all ps) t (Returns-assert (sent == length p) t)
            (λ a u v. send_all-Returns ps u)

  finalize-Ends :
      ⦃K : InternetChecksum⦄ (s : TransmitDescriptorSequence)
      (o : Option TransmitDescriptorTcpContext) (c : C)
      → Ends (finalize s o c)
  unfolding finalize finalize_tcp segment
  finalize-Ends s o c = Ends-bind (assert s.done) _ c (Ends-assert s.done c) λ a t.
      Ends-if s.tcp _ _ t
        (Ends-bind (or_fail o) _ t (Ends-or_fail o t) λ ctx u.
          Ends-bind (if ctx.tucmd_tse then segment s ctx else pure (s.bytes ∷ [])) _ u
            (Ends-if ctx.tucmd_tse _ _ u
              (Ends-bind (or_panic (slice s.bytes 0 ctx.hdrlen)) _ u (Ends-or_panic _ u) λ h v.
                Ends-bind (ensure (length (drop ctx.hdrlen s.bytes) == ctx.paylen)) _ v
                  (Ends-ensure _ v) (λ b w. Ends-or_panic _ w))
              tt)
            (λ ps v. Ends-or_panic _ v))
        tt

  send_done-Post :
      ⦃K : InternetChecksum⦄ (l : TxLoop) (c : C)
      → Post (λ l' c'. l'.ring ≡ l.ring) (λ c'. ⊥) (send_done l c)
  unfolding send_done
  send_done-Post l c =
      Post-if (λ l' c'. l'.ring ≡ l.ring) (λ c'. ⊥) l.sequence.done _ _ c
        (λ d.
          Post-bind (λ ps t. Unit) (λ l' t. l'.ring ≡ l.ring) (λ t. ⊥)
            (unwrap (finalize l.sequence l.saved_context)) _ c
            (Post-unwrap (λ ps t. Unit) (λ t. Unit) (λ t. ⊥) (finalize l.sequence l.saved_context) c
              (finalize-Ends l.sequence l.saved_context c))
            λ ps t q.
              Post-bind (λ a u. Unit) (λ l' u. l'.ring ≡ l.ring) (λ u. ⊥) (send_all ps) _ t
                (send_all-Returns ps t) (λ a u v. refl))
        (λ d. refl)

  complete-Post :
      ⦃D : Derive⦄ (d : TransmitDescriptor) (l : TxLoop) (c : C)
      → Post (λ l' c'. advance_head l.ring ≡ some l'.ring) (λ c'. ⊥) (complete d l c)
  unfolding complete
  complete-Post d l c =
      let done = record d { common = record (d.common) { status_dd = true } } in
      Post-if (λ l' c'. advance_head l.ring ≡ some l'.ring) (λ c'. ⊥) (report_status d.common) _ _ c
        (λ p.
          Post-bind (λ r t. advance_head l.ring ≡ some r)
            (λ l' t. advance_head l.ring ≡ some l'.ring) (λ t. ⊥)
            (unwrap (write_and_advance_head transmit_descriptor l.ring done)) _ c
            (Post-unwrap (λ r t. advance_head l.ring ≡ some r) (λ t. Unit) (λ t. ⊥)
              (write_and_advance_head transmit_descriptor l.ring done) c
              (write_and_advance_head-Post transmit_descriptor l.ring done c))
            (λ r t e. e))
        (λ p.
          Post-bind (λ r t. advance_head l.ring ≡ some r)
            (λ l' t. advance_head l.ring ≡ some l'.ring) (λ t. ⊥) (or_panic (advance_head l.ring)) _
            c
            (Post-or_panic (λ r t. advance_head l.ring ≡ some r) (λ t. ⊥) (advance_head l.ring) c
              (λ r e. e))
            (λ r t e. e))

  -- A round that does not panic advances the head by one.
  pub tx_step-Post :
      ⦃D : Derive⦄ ⦃K : InternetChecksum⦄ (l : TxLoop) (c : C)
      → Post (λ l' c'. advance_head l.ring ≡ some l'.ring) (λ c'. ⊥) (tx_step l c)
  unfolding tx_step
  tx_step-Post l c =
      Post-bind (λ d t. Unit) (λ l' t. advance_head l.ring ≡ some l'.ring) (λ t. ⊥)
        (unwrap (read_head transmit_descriptor l.ring)) _ c
        (Post-unwrap (λ d t. Unit) (λ t. Unit) (λ t. ⊥) (read_head transmit_descriptor l.ring) c
          (read_head-Ends transmit_descriptor l.ring c))
        (λ d t q. go d (add_descriptor l.sequence d t) (add_descriptor-Ends l.sequence d t))
    where
      go :
          (d : TransmitDescriptor) (o : Outcome C TransmitDescriptorSequence)
          → Ends o
          → Post
              (λ l' c'. advance_head l.ring ≡ some l'.ring)
              (λ c'. ⊥)
              (elim o [
                | ok sequence c' ↦
                    (do
                      l' ← complete d (record l { sequence = sequence })
                      send_done (keep_context d.variant l'))
                      c'
                | err c' ↦
                    (do ring ← or_panic (advance_head l.ring); pure (record l { ring = ring })) c'
                | panic ↦ panic
                | out_of_fuel ↦ out_of_fuel
              ])
      go d (ok s t) q =
          Post-bind (λ l' t. advance_head l.ring ≡ some l'.ring)
            (λ l' t. advance_head l.ring ≡ some l'.ring) (λ t. ⊥)
            (complete d (record l { sequence = s })) _ t
            (complete-Post d (record l { sequence = s }) t)
            λ l' u e.
              Post-weaken (λ l'' v. l''.ring ≡ (keep_context d.variant l').ring)
                (λ l'' v. advance_head l.ring ≡ some l''.ring) (λ t. ⊥)
                (send_done (keep_context d.variant l') u)
                (send_done-Post (keep_context d.variant l') u)
                (λ l'' v f. e ∙ ap some (sym (f ∙ keep_context-ring d.variant l')))
      go d (err t) q =
          Post-bind (λ r t. advance_head l.ring ≡ some r)
            (λ l' t. advance_head l.ring ≡ some l'.ring) (λ t. ⊥) (or_panic (advance_head l.ring)) _
            t
            (Post-or_panic (λ r t. advance_head l.ring ≡ some r) (λ t. ⊥) (advance_head l.ring) t
              (λ r e. e))
            (λ r t e. e)
      go d panic q = tt
      go d out_of_fuel q = q
