-- ===== src/Device/Transmit/Drain.antt =====
-- `process_tx_ring` of src/e1000/transmit.rs as a whole, with the tail in the ring.
use e1000_emu.Prelude.{
  ℕ, zero, suc, ◌+◌, ◌^◌, ◌≤◌, ◌<◌, ◌≡◌, refl, sym, subst, ◌∙◌, Bool, true, false, some, arith,
  Bool-cases, inl, inr, if◌then◌else◌,
}
use e1000_emu.Outcome.Post.{Post, Post-bind, Post-if, Post-weaken, Post-zoom}
use e1000_emu.Packing.{Derive}
use e1000_emu.NicContext.{NicContext, Clock, InternetChecksum}
use e1000_emu.Descriptors.Ring.{DescriptorRing, is_empty, advance_head, hardware_owned_descriptors}
use e1000_emu.Descriptors.Ring.Laws.{IsRing, advanced_fields, advanced-IsRing, owned_lem}
use e1000_emu.Device.State.{E1000, on_ctx}
use e1000_emu.Device.Interrupts.{with_causes, report_txdw_and_txqe, report_txqe}
use e1000_emu.Device.Interrupts.Laws.{interrupt_lem, interrupted, pending}
use e1000_emu.Device.Transmit.{
  TxLoop, tx_step, tx_loop, tx_start, tx_finish, process_tx_ring, transmit_from,
}
use e1000_emu.Device.Transmit.Loop.{tx_step-Post}

-- The ring is used up: its head has come to its tail, and address, length and tail are as
-- before.
pub record IsDrained (r r' : DescriptorRing) : Type 0 where
  pub empty : is_empty r' ≡ true
  pub same_address : r'.ring_address ≡ r.ring_address
  pub same_length : r'.length ≡ r.length
  pub same_tail : r'.tail ≡ r.tail

IsDrained-here : (l : TxLoop) → is_empty l.ring ≡ true → IsDrained l.ring l.ring
IsDrained-here l h = record { empty = h; same_address = refl; same_length = refl; same_tail = refl }

IsDrained-advance :
    (r r' s : DescriptorRing) → advance_head r ≡ some r' → IsDrained r' s → IsDrained r s
IsDrained-advance r r' s h d =
    let f = advanced_fields r r' h in
    record {
      empty = d.empty;
      same_address = d.same_address ∙ f.0;
      same_length = d.same_length ∙ f.1;
      same_tail = d.same_tail ∙ f.2;
    }

-- Nothing is left where nothing is owned.
unowned : (r : DescriptorRing) → IsRing r → hardware_owned_descriptors r ≤ 0 → is_empty r ≡ true
unowned r v h = ground (arith, owned_lem r v)

module _ {C : Type 0} ⦃D : Derive⦄ ⦃N : NicContext C⦄ ⦃K : InternetChecksum⦄ where
  tx_loop-Post :
      (fuel : ℕ) (l : TxLoop) (c : C)
      → IsRing l.ring
      → hardware_owned_descriptors l.ring ≤ fuel
      → Post (λ l' c'. IsDrained l.ring l'.ring) (λ c'. ⊥) (tx_loop fuel l c)
  unfolding tx_loop
  tx_loop-Post zero l c v h =
      Post-if (λ l' c'. IsDrained l.ring l'.ring) (λ c'. ⊥) (is_empty l.ring) _ _ c
        (λ p. IsDrained-here l p) (λ p. cc (p, unowned l.ring v h))
  tx_loop-Post (suc fuel) l c v h =
      Post-if (λ l' c'. IsDrained l.ring l'.ring) (λ c'. ⊥) (is_empty l.ring) _ _ c
        (λ p. IsDrained-here l p)
        λ p.
          Post-bind (λ l' t. advance_head l.ring ≡ some l'.ring) (λ l' t. IsDrained l.ring l'.ring)
            (λ t. ⊥) (tx_step l) _ c (tx_step-Post l c)
            λ l' t e.
              let v' = advanced-IsRing l.ring l'.ring v p e in
              Post-weaken (λ l'' u. IsDrained l'.ring l''.ring) (λ l'' u. IsDrained l.ring l''.ring)
                (λ t. ⊥) (tx_loop fuel l' t) (tx_loop-Post fuel l' t v'.0 (omega arith))
                (λ l'' u d. IsDrained-advance l.ring l'.ring l''.ring e d)

module _ {C : Type 0} ⦃D : Derive⦄ ⦃N : NicContext C⦄ ⦃K : InternetChecksum⦄ ⦃T : Clock C⦄ where
  -- What the device is left with: an empty ring that is the same but for its head, and the
  -- register of the head equal to that of the tail.
  abbrev pub Transmitted : E1000 C → DescriptorRing → E1000 C → Type 0
  Transmitted e r e' =
      (r' : DescriptorRing) × (e'.tx_ring ≡ some r')
      × IsDrained r r'
      × (e'.regs.td_h.head ≡ e.regs.td_t.tail)

  Transmitted-interrupted :
      (e : E1000 C) (r : DescriptorRing) (e' : E1000 C)
      → Transmitted e r e'
      → Transmitted e r (interrupted e')
  Transmitted-interrupted e r e' h = elim (Bool-cases (pending e')) [
    | inl p ↦ rw p h
    | inr p ↦ rw p h
  ]

  Transmitted-reported :
      (e : E1000 C) (r : DescriptorRing) (b : Bool) (e' : E1000 C)
      → Transmitted e r e'
      → Post
          (λ a e''. Transmitted e r e'')
          (λ e''. ⊥)
          ((if b then report_txdw_and_txqe else report_txqe) e')
  unfolding report_txdw_and_txqe report_txqe
  Transmitted-reported e r true e' h =
      let e'' = with_causes (λ c. record c { txdw = true; txqe = true }) e' in
      rw (interrupt_lem e'') (Transmitted-interrupted e r e'' h)
  Transmitted-reported e r false e' h =
      let e'' = with_causes (λ c. record c { txqe = true }) e' in
      rw (interrupt_lem e'') (Transmitted-interrupted e r e'' h)

  tx_finish-Transmitted :
      (e : E1000 C) (r : DescriptorRing) (l : TxLoop) (c : C)
      → e.regs.td_t.tail < 2 ^ 16
      → r.tail ≡ e.regs.td_t.tail
      → IsDrained r l.ring
      → Transmitted e r (tx_finish l (record e { nic_ctx = c }))
  unfolding is_empty
  tx_finish-Transmitted e r l c small same d =
      (l.ring, refl, d, ground (arith, d.empty, d.same_tail, same, small))

  process_tx_ring-some :
      (e : E1000 C) (r : DescriptorRing)
      → e.tx_ring ≡ some r
      → process_tx_ring e ≡ transmit_from r e
  unfolding process_tx_ring
  process_tx_ring-some e r h = ground (arith, h)

  transmit_from-Post :
      (e : E1000 C) (r : DescriptorRing)
      → IsRing (record r { tail = e.regs.td_t.tail })
      → e.regs.td_t.tail < 2 ^ 16
      → Post
          (λ a e'. Transmitted e (record r { tail = e.regs.td_t.tail }) e')
          (λ e'. ⊥)
          (transmit_from r e)
  unfolding transmit_from
  transmit_from-Post e r v small =
      let r' = record r { tail = e.regs.td_t.tail } in
      let fuel = r.length + 1 in
      Post-bind (λ l e'. (c : C) × (e' ≡ record e { nic_ctx = c }) × IsDrained r' l.ring)
        (λ a e'. Transmitted e r' e') (λ e'. ⊥) (on_ctx (tx_loop fuel (tx_start e r))) _ e
        (Post-zoom (λ l c. IsDrained r' l.ring) (λ x. x.nic_ctx) (λ c x. record x { nic_ctx = c })
          (tx_loop fuel (tx_start e r)) e
          (tx_loop-Post fuel (tx_start e r) e.nic_ctx v (omega (arith, owned_lem r' v))))
        λ l e' (c, same, d). Transmitted-reported e r' l.report (tx_finish l e') (
          subst (λ x. Transmitted e r' (tx_finish l x)) (sym same)
            (tx_finish-Transmitted e r' l c small refl d))

  -- If a transmit ring of fewer than 2^32 descriptors is set up and its head and the tail
  -- register (below 2^16) point into it, transmission does not fail or loop for ever: unless it
  -- panics it returns, the ring has become empty, its address and length are as before, its tail
  -- is the tail register, and the head register equals the tail register.
  pub process_tx_ring-Post :
      (e : E1000 C) (r : DescriptorRing)
      → e.tx_ring ≡ some r
      → IsRing (record r { tail = e.regs.td_t.tail })
      → e.regs.td_t.tail < 2 ^ 16
      → Post
          (λ a e'. Transmitted e (record r { tail = e.regs.td_t.tail }) e')
          (λ e'. ⊥)
          (process_tx_ring e)
  process_tx_ring-Post e r h v small =
      simp (process_tx_ring-some e r h) (transmit_from-Post e r v small)
