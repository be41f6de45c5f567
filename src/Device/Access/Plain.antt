-- ===== src/Device/Access/Plain.antt =====
-- The registers of src/e1000/registers.rs that a write only stores, as the driver sees them.
use e1000_emu.Prelude.{
  ℕ, ◌*◌, ◌/◌, ◌%◌, ◌^◌, ◌<◌, ◌≡◌, refl, sym, subst, ap, ap₂, ◌∙◌, Bool, true, false, some, List,
  bits, arith, IsBytes, from_le_bytes, from_le_bytes-lt, to_le_bytes,
}
use e1000_emu.Outcome.{ok, ◌>>=◌}
use e1000_emu.Packing.{Layout, Derive, Fits}
use e1000_emu.NicContext.{NicContext, Clock, InternetChecksum}
use e1000_emu.Registers.General.{interrupt_delay}
use e1000_emu.Registers.Rings.{
  descriptor_base_address_low, descriptor_base_address_high, descriptor_length, descriptor_head,
  receive_address_low, receive_address_high,
}
use e1000_emu.Registers.File.{Registers}
use e1000_emu.Device.State.{E1000}
use e1000_emu.Device.Access.{access_register, access_plain, arm, no_action, with_regs}
use e1000_emu.Device.Access.Arms.{four, arm-action, arm-read}
use e1000_emu.Device.Regions.{region_access_bar0}

-- ITR, RDBAL, RDBAH, RDLEN, RDH, the same of transmission, RAL and RAH.
pub data Plain : Type 0 where
  itr rdbal rdbah rdlen rdh tdbal tdbah tdlen tdh ral rah : Plain

abbrev pub address : Plain → ℕ
address itr = 0xC4
address rdbal = 0x2800
address rdbah = 0x2804
address rdlen = 0x2808
address rdh = 0x2810
address tdbal = 0x3800
address tdbah = 0x3804
address tdlen = 0x3808
address tdh = 0x3810
address ral = 0x5400
address rah = 0x5404

-- The bits of a word that a register has: base addresses are multiples of 16, lengths are multiples
-- of 128 below 2 ^ 20.
abbrev pub kept_bits : Plain → ℕ → ℕ
kept_bits itr w = w % 2 ^ 16
kept_bits rdbal w = w / 16 * 16
kept_bits rdbah w = w
kept_bits rdlen w = w % 2 ^ 20 / 128 * 128
kept_bits rdh w = w % 2 ^ 16
kept_bits tdbal w = w / 16 * 16
kept_bits tdbah w = w
kept_bits tdlen w = w % 2 ^ 20 / 128 * 128
kept_bits tdh w = w % 2 ^ 16
kept_bits ral w = w
kept_bits rah w = w % 2 ^ 16

-- The registers with the fields of the word in the one.
abbrev pub stored : Plain → ℕ → Registers → Registers
stored itr w g = record g { interrupt_throttling = interrupt_delay.decode w }
stored rdbal w g = record g { rd_ba_l = descriptor_base_address_low.decode w }
stored rdbah w g = record g { rd_ba_h = descriptor_base_address_high.decode w }
stored rdlen w g = record g { rd_len = descriptor_length.decode w }
stored rdh w g = record g { rd_h = descriptor_head.decode w }
stored tdbal w g = record g { td_ba_l = descriptor_base_address_low.decode w }
stored tdbah w g = record g { td_ba_h = descriptor_base_address_high.decode w }
stored tdlen w g = record g { td_len = descriptor_length.decode w }
stored tdh w g = record g { td_h = descriptor_head.decode w }
stored ral w g = record g { ral0 = receive_address_low.decode w }
stored rah w g = record g { rah0 = receive_address_high.decode w }

interrupt_delay-Fits : (w : ℕ) → Fits interrupt_delay (interrupt_delay.decode w)
interrupt_delay-Fits w = record { in_size = omega arith; kept = λ i. record { interval = same i } }
  where
    same : bits 0 16 (interrupt_delay.encode (interrupt_delay.decode w)) ≡ bits 0 16 w
    same = omega arith

descriptor_base_address_low-Fits :
    (w : ℕ) → Fits descriptor_base_address_low (descriptor_base_address_low.decode w)
descriptor_base_address_low-Fits w = record {
  in_size = omega arith;
  kept = λ i. record { base_address_low = same i };
}
  where
    same :
        bits 4 28 (descriptor_base_address_low.encode (descriptor_base_address_low.decode w))
        ≡ bits 4 28 w
    same = omega arith

descriptor_base_address_high-Fits :
    (w : ℕ) → Fits descriptor_base_address_high (descriptor_base_address_high.decode w)
descriptor_base_address_high-Fits w = record {
  in_size = omega arith;
  kept = λ i. record { base_address_high = same i };
}
  where
    same :
        bits 0 32 (descriptor_base_address_high.encode (descriptor_base_address_high.decode w))
        ≡ bits 0 32 w
    same = omega arith

descriptor_length-Fits : (w : ℕ) → Fits descriptor_length (descriptor_length.decode w)
descriptor_length-Fits w = record { in_size = omega arith; kept = λ i. record { length = same i } }
  where
    same : bits 7 13 (descriptor_length.encode (descriptor_length.decode w)) ≡ bits 7 13 w
    same = omega arith

descriptor_head-Fits : (w : ℕ) → Fits descriptor_head (descriptor_head.decode w)
descriptor_head-Fits w = record { in_size = omega arith; kept = λ i. record { head = same i } }
  where
    same : bits 0 16 (descriptor_head.encode (descriptor_head.decode w)) ≡ bits 0 16 w
    same = omega arith

receive_address_low-Fits : (w : ℕ) → Fits receive_address_low (receive_address_low.decode w)
receive_address_low-Fits w = record {
  in_size = omega arith;
  kept = λ i. record { receive_address_low = same i };
}
  where
    same : bits 0 32 (receive_address_low.encode (receive_address_low.decode w)) ≡ bits 0 32 w
    same = omega arith

receive_address_high-Fits : (w : ℕ) → Fits receive_address_high (receive_address_high.decode w)
receive_address_high-Fits w = record {
  in_size = omega arith;
  kept = λ i. record { receive_address_high = same i };
}
  where
    same : bits 0 16 (receive_address_high.encode (receive_address_high.decode w)) ≡ bits 0 16 w
    same = omega arith

module _ {C : Type 0} ⦃D : Derive⦄ ⦃K : InternetChecksum⦄ ⦃N : NicContext C⦄ ⦃T : Clock C⦄ where
  -- An access through region 0 at an offset that it takes.
  pub through_bar0 :
      (offset b0 b1 b2 b3 : ℕ) (write : Bool) (bytes : List ℕ) (e e' : E1000 C)
      → offset % 4 ≡ 0
      → offset % 2 ^ 32 ≡ offset
      → access_register offset (four b0 b1 b2 b3) write e ≡ ok (some bytes) e'
      → region_access_bar0 offset (four b0 b1 b2 b3) write e ≡ ok (4, bytes) e'
  unfolding region_access_bar0
  through_bar0 offset b0 b1 b2 b3 write bytes e e' aligned small done =
      rw (aligned, small, done, ◌>>=◌) refl

  -- What the driver wrote it reads.
  abbrev pub ReadsBack : Plain → ℕ → ℕ → ℕ → ℕ → E1000 C → Type 0
  ReadsBack p b0 b1 b2 b3 e =
      let w = from_le_bytes (four b0 b1 b2 b3) in
      let e' = with_regs (stored p w) e in
      (region_access_bar0 (address p) (four b0 b1 b2 b3) true e ≡ ok (4, four b0 b1 b2 b3) e')
      × ((c0 c1 c2 c3 : ℕ)
          → region_access_bar0 (address p) (four c0 c1 c2 c3) false e'
            ≡ ok (4, to_le_bytes 4 (kept_bits p w)) e')

  module _ (b0 b1 b2 b3 : ℕ) (e : E1000 C) (h : IsBytes (four b0 b1 b2 b3)) where
    abbrev word : ℕ
    word = from_le_bytes (four b0 b1 b2 b3)

    word-lt : word < 2 ^ 32
    word-lt = from_le_bytes-lt (four b0 b1 b2 b3) h

    -- From an arm of the match that has no action.
    arm-ReadsBack :
        {A : Type 0} (offset : ℕ) (L : Layout A) (get : Registers → A)
        (put : A → Registers → Registers) (n : ℕ)
        → ((bytes : List ℕ) (write : Bool) (e : E1000 C)
            → access_register offset bytes write e ≡ arm L get put no_action bytes write e)
        → offset % 4 ≡ 0
        → offset % 2 ^ 32 ≡ offset
        → L.size ≡ 4
        → ((r : A) (g : Registers) → get (put r g) ≡ r)
        → ((r : A) (g : Registers) → put r (put r g) ≡ put r g)
        → Fits L (L.decode word)
        → L.encode (L.decode word) ≡ n
        → let e' = with_regs (put (L.decode word)) e in
          (region_access_bar0 offset (four b0 b1 b2 b3) true e ≡ ok (4, four b0 b1 b2 b3) e')
          × ((c0 c1 c2 c3 : ℕ)
              → region_access_bar0 offset (four c0 c1 c2 c3) false e' ≡ ok (4, to_le_bytes 4 n) e')
    arm-ReadsBack offset L get put n matches aligned small size own twice fits same =
        let e' = with_regs (put (L.decode word)) e in
        let held : get e'.regs ≡ L.decode word = own (L.decode word) e.regs in
        (
          through_bar0 offset b0 b1 b2 b3 true _ e _ aligned small
              (matches _ true e ∙ arm-action b0 b1 b2 b3 L size get put no_action e h),
          λ c0 c1 c2 c3.
              through_bar0 offset c0 c1 c2 c3 false (to_le_bytes 4 n) e' e' aligned small (
                matches _ false e'
                ∙ arm-read c0 c1 c2 c3 L size get put no_action e' (subst (Fits L) (sym held) fits)
                ∙ ap₂ (λ m g. ok (some (to_le_bytes 4 m)) (record e' { regs = g }))
                    (ap (L.encode) held ∙ same)
                    (ap (λ r. put r e'.regs) held ∙ twice (L.decode word) e.regs)),
        )

    -- A register that a write only stores reads back as it was written through region 0, without
    -- the bits that it does not have, and of the device nothing else changes: neither by the write
    -- nor by the read. These are ITR, and base address, length and head of both rings, and the
    -- receive address.
    pub access_register-ReadsBack : (p : Plain) → ReadsBack p b0 b1 b2 b3 e
    unfolding access_register access_plain
    access_register-ReadsBack itr =
        arm-ReadsBack 0xC4 interrupt_delay (λ g. g.interrupt_throttling)
          (λ r g. record g { interrupt_throttling = r }) _ (λ bytes write e. refl) refl refl refl
          (λ r g. refl) (λ r g. refl) (interrupt_delay-Fits word) (omega (arith, word-lt))
    access_register-ReadsBack rdbal =
        arm-ReadsBack 0x2800 descriptor_base_address_low (λ g. g.rd_ba_l)
          (λ r g. record g { rd_ba_l = r }) _ (λ bytes write e. refl) refl refl refl (λ r g. refl)
          (λ r g. refl) (descriptor_base_address_low-Fits word) (omega (arith, word-lt))
    access_register-ReadsBack rdbah =
        arm-ReadsBack 0x2804 descriptor_base_address_high (λ g. g.rd_ba_h)
          (λ r g. record g { rd_ba_h = r }) _ (λ bytes write e. refl) refl refl refl (λ r g. refl)
          (λ r g. refl) (descriptor_base_address_high-Fits word) (omega (arith, word-lt))
    access_register-ReadsBack rdlen =
        arm-ReadsBack 0x2808 descriptor_length (λ g. g.rd_len) (λ r g. record g { rd_len = r }) _
          (λ bytes write e. refl) refl refl refl (λ r g. refl) (λ r g. refl)
          (descriptor_length-Fits word) (omega (arith, word-lt))
    access_register-ReadsBack rdh =
        arm-ReadsBack 0x2810 descriptor_head (λ g. g.rd_h) (λ r g. record g { rd_h = r }) _
          (λ bytes write e. refl) refl refl refl (λ r g. refl) (λ r g. refl)
          (descriptor_head-Fits word) (omega (arith, word-lt))
    access_register-ReadsBack tdbal =
        arm-ReadsBack 0x3800 descriptor_base_address_low (λ g. g.td_ba_l)
          (λ r g. record g { td_ba_l = r }) _ (λ bytes write e. refl) refl refl refl (λ r g. refl)
          (λ r g. refl) (descriptor_base_address_low-Fits word) (omega (arith, word-lt))
    access_register-ReadsBack tdbah =
        arm-ReadsBack 0x3804 descriptor_base_address_high (λ g. g.td_ba_h)
          (λ r g. record g { td_ba_h = r }) _ (λ bytes write e. refl) refl refl refl (λ r g. refl)
          (λ r g. refl) (descriptor_base_address_high-Fits word) (omega (arith, word-lt))
    access_register-ReadsBack tdlen =
        arm-ReadsBack 0x3808 descriptor_length (λ g. g.td_len) (λ r g. record g { td_len = r }) _
          (λ bytes write e. refl) refl refl refl (λ r g. refl) (λ r g. refl)
          (descriptor_length-Fits word) (omega (arith, word-lt))
    access_register-ReadsBack tdh =
        arm-ReadsBack 0x3810 descriptor_head (λ g. g.td_h) (λ r g. record g { td_h = r }) _
          (λ bytes write e. refl) refl refl refl (λ r g. refl) (λ r g. refl)
          (descriptor_head-Fits word) (omega (arith, word-lt))
    access_register-ReadsBack ral =
        arm-ReadsBack 0x5400 receive_address_low (λ g. g.ral0) (λ r g. record g { ral0 = r }) _
          (λ bytes write e. refl) refl refl refl (λ r g. refl) (λ r g. refl)
          (receive_address_low-Fits word) (omega (arith, word-lt))
    access_register-ReadsBack rah =
        arm-ReadsBack 0x5404 receive_address_high (λ g. g.rah0) (λ r g. record g { rah0 = r }) _
          (λ bytes write e. refl) refl refl refl (λ r g. refl) (λ r g. refl)
          (receive_address_high-Fits word) (omega (arith, word-lt))
