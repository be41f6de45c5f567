-- ===== src/Device/Mdi.antt =====
-- The MDI of src/e1000/phy.rs: what a driver reads of the PHY after it has written.
use e1000_emu.Prelude.{
  ℕ, ◌*◌, ◌^◌, ◌<◌, ◌≡◌, refl, sym, ap, subst, ◌∙◌, ◌≤◌, Bool-cases, List, inl, inr, Bool, true,
  false, some, arith, digit, digit_laws, bit, bits, bit-eq-of_digit, to_be_bytes, to_le_bytes,
  from_le_bytes, IsBytes-reverse, length-reverse, to_le_bytes-IsBytes, length-to_le_bytes,
  from_le_bytes-to_le_bytes, ◌==◌, if◌then◌else◌,
}
use mathlib.Core.List.{reverse-reverse}
use e1000_emu.Outcome.{ok, modify, zoom, ◌>>=◌, ◌>>◌}
use e1000_emu.Packing.{Layout, Derive, Fits}
use e1000_emu.NicContext.{NicContext, Clock}
use e1000_emu.Registers.General.{MdiControl}
use e1000_emu.Phy.{
  Phy, mdi_read, mdi_write, phy_access, phy_status, phy_identifier, phy_extended_identifier,
}
use e1000_emu.Device.State.{E1000}
use e1000_emu.Device.Management.{mdic_write, mdi_writes, mdi_done, phy_dispatch}

-- What a PHY register keeps of a value: PHY status one bit, the identifiers all.
abbrev pub kept_by : ℕ → ℕ → ℕ
kept_by address v = if address == 1 then digit (bit 2 v) * 2 ^ 2 else v

status-Fits : (v : ℕ) → Fits phy_status (phy_status.decode v)
status-Fits v = record {
  in_size = omega digit_laws;
  kept = λ i. record {
    link_status =
        bit-eq-of_digit 2 (phy_status.encode (phy_status.decode v)) (bit 2 v) (omega digit_laws) i;
  };
}

identifier-Fits : (v : ℕ) → Fits phy_identifier (phy_identifier.decode v)
identifier-Fits v = record { in_size = omega arith; kept = λ i. record { identifier = same i } }
  where
    same : bits 0 16 (bits 0 16 v) ≡ bits 0 16 v
    same = omega arith

extended-Fits : (v : ℕ) → Fits phy_extended_identifier (phy_extended_identifier.decode v)
extended-Fits v = record {
  in_size = omega arith;
  kept = λ i. record { revision = same_revision i; model = same_model i; identifier = same i };
}
  where
    w : ℕ
    w = phy_extended_identifier.encode (phy_extended_identifier.decode v)

    same_revision : bits 0 4 w ≡ bits 0 4 v
    same_revision = omega arith

    same_model : bits 4 6 w ≡ bits 4 6 v
    same_model = omega arith

    same : bits 10 6 w ≡ bits 10 6 v
    same = omega arith

module _ ⦃D : Derive⦄ where
  unpack-written :
      {A : Type 0} (L : Layout A) (v : ℕ)
      → L.size ≡ 2
      → v < 2 ^ 16
      → (D.derive L).unpack (to_be_bytes 2 v) ≡ some (L.decode v)
  unpack-written L v two small =
      D.unpack_lem L (to_be_bytes 2 v)
        (length-reverse (to_le_bytes 2 v) ∙ (length-to_le_bytes 2 v ∙ sym two))
        (IsBytes-reverse (to_le_bytes 2 v) (to_le_bytes-IsBytes 2 v))
      ∙ ap (λ n. some (L.decode n))
          (ap from_le_bytes (reverse-reverse (to_le_bytes 2 v))
            ∙ from_le_bytes-to_le_bytes 2 v small)

  -- A write followed by a read of the PHY.
  abbrev Reads : ℕ → ℕ → Phy → Type 0
  Reads address v p =
      (p' : Phy) × (phy_dispatch address (to_be_bytes 2 v) true p ≡ ok (to_be_bytes 2 v) p')
      × ((bs : List ℕ)
          → phy_dispatch address bs false p' ≡ ok (to_be_bytes 2 (kept_by address v)) p')

  status-Reads : (v : ℕ) (p : Phy) → v < 2 ^ 16 → Reads 1 v p
  unfolding phy_dispatch phy_access
  status-Reads v p small = (
    record p { status = phy_status.decode v },
    rw (unpack-written phy_status v refl small) refl,
    λ bs. rw (D.pack_lem phy_status (phy_status.decode v) (status-Fits v)) refl,
  )

  identifier-Reads : (v : ℕ) (p : Phy) → v < 2 ^ 16 → Reads 2 v p
  unfolding phy_dispatch phy_access
  identifier-Reads v p small =
      let whole : bits 0 16 v ≡ v = omega (arith, small) in
      (
        record p { identifier = phy_identifier.decode v },
        rw (unpack-written phy_identifier v refl small) refl,
        λ bs. rw (D.pack_lem phy_identifier (phy_identifier.decode v) (identifier-Fits v)) (
            ap (λ n. ok (to_be_bytes 2 n) (record p { identifier = phy_identifier.decode v }))
              whole),
      )

  extended-Reads : (v : ℕ) (p : Phy) → v < 2 ^ 16 → Reads 3 v p
  unfolding phy_dispatch phy_access
  extended-Reads v p small =
      let r = phy_extended_identifier.decode v in
      let whole : phy_extended_identifier.encode r ≡ v = omega (arith, small) in
      (
        record p { extended_identifier = r },
        rw (unpack-written phy_extended_identifier v refl small) refl,
        λ bs.
            rw (D.pack_lem phy_extended_identifier r (extended-Fits v))
              (ap (λ n. ok (to_be_bytes 2 n) (record p { extended_identifier = r })) whole),
      )

  phy-Reads : (address v : ℕ) (p : Phy) → 1 ≤ address → address ≤ 3 → v < 2 ^ 16 → Reads address v p
  phy-Reads address v p low high small = elim (Bool-cases (address == 1)) [
    | inl one ↦
        let a : 1 ≡ address = ground (arith, one) in
        subst (λ k. Reads k v p) a (status-Reads v p small)
    | inr p1 ↦ elim (Bool-cases (address == 2)) [
      | inl two ↦
          let a : 2 ≡ address = ground (arith, two) in
          subst (λ k. Reads k v p) a (identifier-Reads v p small)
      | inr p2 ↦
          let a : 3 ≡ address = ground (arith, p1, p2, low, high) in
          subst (λ k. Reads k v p) a (extended-Reads v p small)
    ]
  ]

  kept_by-lt : (address v : ℕ) → v < 2 ^ 16 → kept_by address v < 2 ^ 16
  kept_by-lt address v small = elim (Bool-cases (address == 1)) [
    | inl p ↦ rw p (omega digit_laws)
    | inr p ↦ rw p small
  ]

-- A command of the driver in MDIC, without an interrupt at its end.
abbrev pub command : ℕ → ℕ → ℕ → MdiControl
command opcode address v = record {
  value = v;
  register_address = address;
  opcode = opcode;
  ready = false;
  interrupt_enable = false;
}

module _ {C : Type 0} where
  abbrev pub with_mdic : MdiControl → E1000 C → E1000 C
  with_mdic m e = record e { regs = record (e.regs) { mdic = m } }

module _ {C : Type 0} ⦃D : Derive⦄ ⦃N : NicContext C⦄ ⦃T : Clock C⦄ where
  mdic_write_lem :
      (e : E1000 C) (opcode address v : ℕ) (write : Bool) (out : List ℕ) (p : Phy)
      → mdi_writes opcode ≡ some write
      → phy_dispatch address (to_be_bytes 2 v) write e.phy ≡ ok out p
      → mdic_write (with_mdic (command opcode address v) e)
        ≡ ok tt (mdi_done write out (record (with_mdic (command opcode address v) e) { phy = p }))
  unfolding mdic_write mdi_done
  mdic_write_lem e opcode address v write out p known done =
      rw (mdic_write, known) (rw (done, ◌>>=◌, zoom) refl)

  -- After the driver has written a PHY register by the MDI it reads back what it wrote, of PHY
  -- status the one bit that the register has, in a command that is then ready, for each of the
  -- three registers and values of 16 bits, with commands that ask for no interrupt.
  pub mdic_write-reads_back :
      (e : E1000 C) (address v u : ℕ)
      → 1 ≤ address
      → address ≤ 3
      → v < 2 ^ 16
      → (e' : E1000 C) × ((modify (with_mdic (command mdi_write address v))
              >> mdic_write
              >> modify (with_mdic (command mdi_read address u))
              >> mdic_write)
            e
          ≡ ok tt e')
        × (e'.regs.mdic.value ≡ kept_by address v)
        × (e'.regs.mdic.ready ≡ true)
  unfolding mdi_writes mdi_done
  mdic_write-reads_back e address v u low high small =
      let (p, writes, reads) = phy-Reads address v e.phy low high small in
      let first = mdic_write_lem e mdi_write address v true (to_be_bytes 2 v) p refl writes in
      let e1 =
        mdi_done true (to_be_bytes 2 v)
          (record (with_mdic (command mdi_write address v) e) { phy = p }) in
      let k = kept_by address v in
      let second =
        mdic_write_lem e1 mdi_read address u false (to_be_bytes 2 k) p refl
          (reads (to_be_bytes 2 u)) in
      (
        mdi_done false (to_be_bytes 2 k)
            (record (with_mdic (command mdi_read address u) e1) { phy = p }),
        rw (first, ◌>>=◌) second,
        ap from_le_bytes (reverse-reverse (to_le_bytes 2 k))
            ∙ from_le_bytes-to_le_bytes 2 k (kept_by-lt address v small),
        refl,
      )
