-- ===== src/Device/Receive/Laws.antt =====
-- The receive state of src/e1000/receive.rs against the ring, and what a delivery leaves.
use e1000_emu.Prelude.{
  ℕ, suc, ◌%◌, ◌^◌, ◌≤◌, ◌<◌, ◌≡◌, ◌≢◌, refl, sym, ap, ◌∙◌, Bool, true, false, Option, none, some,
  List, length, arith, ltb, lt→ltb, leb, ◌==◌, if◌then◌else◌, Bool-cases, inl, inr, ◌&&◌,
}
use native.Mathlib.Nat.{mod-eq_of_lt}
use e1000_emu.Outcome.{ok, M, pure, modify, panics, or_panic, ◌>>=◌, ◌>>◌}
use e1000_emu.Outcome.Post.{Post, Post-bind, Ends, Ends-bind, Ends-if, Ends-or_panic, Post-zoom_err}
use e1000_emu.Packing.{Derive}
use e1000_emu.NicContext.{NicContext, Clock}
use e1000_emu.Registers.General.{get_buffer_size}
use e1000_emu.Descriptors.Ring.{
  DescriptorRing, hardware_owned_descriptors, is_empty, advance_head, read_head,
}
use e1000_emu.Descriptors.Ring.Laws.{IsRing, advanced_fields, advanced-IsRing, owned_lem}
use e1000_emu.Descriptors.Formats.{ReceiveDescriptor, receive_descriptor}
use e1000_emu.Device.State.{E1000, ReceiveState, offline, online, throttled, on_ctx}
use e1000_emu.Device.Interrupts.{with_causes, report_rxt0}
use e1000_emu.Device.Interrupts.Laws.{interrupt_lem, interrupted, pending}
use e1000_emu.Descriptors.Ring.Outcomes.{read_head-Ends, write_and_advance_head-Post}
use e1000_emu.Device.Receive.{
  fill_head, store_frame, counted_length, filled, update_receive_state, next_state,
  rx_queue_reserve, receive, is_ready,
}
use e1000_emu.Device.Control.{rctl_write, rdt_write, reset_e1000, no_ring}
use e1000_emu.Device.State.{setup_rx_ring, new}

-- The receive state that belongs to a ring.
abbrev pub state_for : Option DescriptorRing → ReceiveState
state_for none = offline
state_for (some r) = if leb (hardware_owned_descriptors r) 1 then throttled else online

-- The device's receive state is the one that belongs to its ring.
abbrev pub IsSettled : {C : Type 0} → E1000 C → Type 0
IsSettled e = e.receive_state ≡ state_for e.rx_ring

next_state_lem : (s : ReceiveState) (b : Bool) → next_state s b ≡ (if b then throttled else online)
unfolding next_state
next_state_lem offline true = refl
next_state_lem offline false = refl
next_state_lem online true = refl
next_state_lem online false = refl
next_state_lem throttled true = refl
next_state_lem throttled false = refl

to_offline :
    (s : ReceiveState)
    → elim s [ offline ↦ offline | online ↦ offline | throttled ↦ offline ] ≡ offline
to_offline offline = refl
to_offline online = refl
to_offline throttled = refl

module _ {C : Type 0} where
  updated :
      (o : Option DescriptorRing) (e : E1000 C)
      → e.rx_ring ≡ o
      → update_receive_state e ≡ record e { receive_state = state_for e.rx_ring }
  unfolding update_receive_state
  updated none e h = rw (h, to_offline e.receive_state) refl
  updated (some r) e h =
      rw (h, next_state_lem e.receive_state (leb (hardware_owned_descriptors r) rx_queue_reserve))
        refl

  -- Whatever the state was, `update_receive_state` sets it to the one that belongs to the ring:
  -- offline without a ring, throttled with at most one owned descriptor, online with more; it
  -- changes nothing else.
  pub update_receive_state_lem :
      (e : E1000 C) → update_receive_state e ≡ record e { receive_state = state_for e.rx_ring }
  update_receive_state_lem e = updated e.rx_ring e refl

module _ {C : Type 0} ⦃N : NicContext C⦄ where
  store_frame-Ends :
      (n : ℕ) (d : ReceiveDescriptor) (size : ℕ) (frame : List ℕ) (c : C)
      → Ends (store_frame n d size frame c)
  unfolding store_frame
  store_frame-Ends n d size frame c =
      Ends-bind (if ltb size n then panics else pure tt) _ c (Ends-if (ltb size n) _ _ c tt tt)
        λ a t.
          Ends-bind (if d.buffer == 0 then panics else pure tt) _ t
            (Ends-if (d.buffer == 0) _ _ t tt tt) (λ b u. tt)

  pub fill_head-Post :
      ⦃D : Derive⦄ (e : E1000 C) (r : DescriptorRing) (frame : List ℕ) (c : C)
      → Post (λ r' c'. advance_head r ≡ some r') (λ c'. Unit {0}) (fill_head e r frame c)
  unfolding fill_head
  fill_head-Post ⦃D⦄ e r frame c =
      let Q : DescriptorRing → C → Type 0 = λ r' c'. advance_head r ≡ some r' in
      Post-bind (λ d t. Unit {0}) Q (λ t. Unit {0}) (read_head (D.derive receive_descriptor) r) _ c
        (read_head-Ends (D.derive receive_descriptor) r c)
        λ d t p.
          Post-bind (λ d t. Unit {0}) Q (λ t. Unit {0}) (or_panic (get_buffer_size e.regs.rctl)) _ t
            (Ends-or_panic (get_buffer_size e.regs.rctl) t)
            λ size u q.
              Post-bind (λ d t. Unit {0}) Q (λ t. Unit {0})
                (store_frame (counted_length e frame) d size frame) _ u
                (store_frame-Ends (counted_length e frame) d size frame u)
                λ a v w.
                  write_and_advance_head-Post (D.derive receive_descriptor) r
                    (filled d (counted_length e frame)) v

-- What a delivery leaves: one owned descriptor less, the receive state of the ring, and the head
-- in its register.
pub record IsDelivered {C : Type 0} (r : DescriptorRing) (e : E1000 C) : Type 0 where
  pub ring : DescriptorRing
  pub holds : e.rx_ring ≡ some ring
  pub in_ring : IsRing ring
  pub used_one : hardware_owned_descriptors r ≡ suc (hardware_owned_descriptors ring)
  pub settled : IsSettled e
  pub register : e.regs.rd_h.head ≡ ring.head

throttled≢online : throttled ≢ online
throttled≢online = cc

pub online-owned :
    (r : DescriptorRing) → IsRing r → state_for (some r) ≡ online → is_empty r ≡ false
online-owned r v h = elim (Bool-cases (leb (hardware_owned_descriptors r) 1)) [
  | inl p ↦ absurd (throttled≢online (simp p at h))
  | inr p ↦ ground (arith, owned_lem r v, p)
]

module _ {C : Type 0} ⦃D : Derive⦄ ⦃N : NicContext C⦄ ⦃T : Clock C⦄ where
  -- The device with the ring advanced and the cause noted, before it interrupts.
  abbrev pub noted : DescriptorRing → E1000 C → E1000 C
  noted r e =
      with_causes (λ g. record g { rxt0 = true })
        (update_receive_state (record e {
          rx_ring = some r;
          regs = record (e.regs) { rd_h = record { head = r.head % 2 ^ 16 } };
        }))

  abbrev pub finish : DescriptorRing → M (E1000 C) (Unit {0})
  finish r = do
    modify λ e. record e {
      rx_ring = some r;
      regs = record (e.regs) { rd_h = record { head = r.head % 2 ^ 16 } };
    }
    modify update_receive_state
    report_rxt0

  pub finish_lem : (r : DescriptorRing) (e : E1000 C) → finish r e ≡ ok tt (interrupted (noted r e))
  unfolding report_rxt0
  finish_lem r e = interrupt_lem (noted r e)

  pub receive-online :
      (e : E1000 C) (r : DescriptorRing) (frame : List ℕ)
      → e.rx_ring ≡ some r
      → e.receive_state ≡ online
      → 0 < length frame
      → receive frame e ≡ ((λ e. on_ctx (fill_head e r frame) e) >>= finish) e
  unfolding receive is_ready
  receive-online e r frame h on n = simp (lt→ltb 0 (length frame) n, on, h) refl

  noted-IsDelivered :
      (e : E1000 C) (r r' : DescriptorRing)
      → IsRing r
      → is_empty r ≡ false
      → r.length ≤ 2 ^ 16
      → advance_head r ≡ some r'
      → IsDelivered r (noted r' e)
  noted-IsDelivered e r r' v h small a =
      let moved = record e {
        rx_ring = some r';
        regs = record (e.regs) { rd_h = record { head = r'.head % 2 ^ 16 } };
      } in
      let (in_ring, used) = advanced-IsRing r r' v h a in
      rw (update_receive_state_lem moved) (record {
        ring = r';
        holds = refl;
        in_ring = in_ring;
        used_one = used;
        settled = refl;
        register = mod-eq_of_lt (omega (arith, in_ring.head_in, (advanced_fields r r' a).1));
      })

  IsDelivered-interrupted :
      (r : DescriptorRing) (e : E1000 C) → IsDelivered r e → IsDelivered r (interrupted e)
  IsDelivered-interrupted r e d = elim (Bool-cases (pending e)) [
    | inl p ↦ rw p (record {
      ring = d.ring;
      holds = d.holds;
      in_ring = d.in_ring;
      used_one = d.used_one;
      settled = d.settled;
      register = d.register;
    })
    | inr p ↦ rw p d
  ]

  -- If the device is online, its receive state belongs to its ring, and the ring has at most 2^16
  -- descriptors with head and tail among them, the delivery of a frame that is not empty uses up
  -- one descriptor and settles the receive state anew, with the head in its register; or it is
  -- refused with all but the surroundings as it was; or it panics.
  pub receive-Post :
      (e : E1000 C) (r : DescriptorRing) (frame : List ℕ)
      → e.rx_ring ≡ some r
      → IsRing r
      → r.length ≤ 2 ^ 16
      → IsSettled e
      → e.receive_state ≡ online
      → 0 < length frame
      → Post
          (λ a e'. IsDelivered r e')
          (λ e'. (c : C) × (e' ≡ record e { nic_ctx = c }))
          (receive frame e)
  receive-Post e r frame h v small s on n =
      let occupied = online-owned r v (sym (s ∙ ap state_for h) ∙ on) in
      rw (receive-online e r frame h on n) (
        Post-bind (λ r' e'. (c : C) × (e' ≡ record e { nic_ctx = c }) × (advance_head r ≡ some r'))
          (λ a e'. IsDelivered r e') (λ e'. (c : C) × (e' ≡ record e { nic_ctx = c }))
          (on_ctx (fill_head e r frame)) finish e
          (Post-zoom_err (λ r' c. advance_head r ≡ some r') (λ x. x.nic_ctx)
            (λ c x. record x { nic_ctx = c }) (fill_head e r frame) e
            (fill_head-Post e r frame e.nic_ctx))
          λ r' e' (c, same, a). rw (finish_lem r' e') (
            IsDelivered-interrupted r (noted r' e') (noted-IsDelivered e' r r' v occupied small a)))

-- The receive state belongs to the ring in a new device, after a reset and after every write to
-- RCTL, and a write to RDT keeps it so. The device is taken to be settled before.
pub IsSettled-kept :
    {C : Type 0} ⦃N : NicContext C⦄ (c : C) (mitigate : Bool) (e : E1000 C)
    → IsSettled e
    → IsSettled (new c mitigate)
      × IsSettled (reset_e1000 e)
      × IsSettled (rctl_write e)
      × IsSettled (rdt_write e)
unfolding new reset_e1000 rctl_write rdt_write
IsSettled-kept c mitigate e s = (
  refl,
  refl,
  rw (update_receive_state_lem (if e.regs.rctl.en && no_ring e.rx_ring then setup_rx_ring e else e))
      refl,
  after_tail e e.rx_ring s,
)
  where
    after_tail :
        {C : Type 0} (e : E1000 C) (o : Option DescriptorRing)
        → IsSettled e
        → IsSettled (elim o [
          | some ring ↦
              update_receive_state
                (record e { rx_ring = some (record ring { tail = e.regs.rd_t.tail }) })
          | none ↦ e
        ])
    after_tail e none s = s
    after_tail e (some r) s =
        rw
          (update_receive_state_lem
            (record e { rx_ring = some (record r { tail = e.regs.rd_t.tail }) }))
          refl
