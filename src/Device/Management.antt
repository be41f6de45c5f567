-- ===== src/Device/Management.antt =====
-- `mdic_write` of src/e1000/phy.rs and `eecd_write` of src/e1000/eeprom.rs.
use e1000_emu.Prelude.{
  ℕ, Bool, true, false, not, Option, none, some, List, ◌==◌, if◌then◌else◌, from_be_bytes,
  to_be_bytes,
}
use e1000_emu.Outcome.{M, ok, pure, modify, unwrap, zoom, ◌>>=◌, ◌>>◌}
use e1000_emu.Packing.{Derive}
use e1000_emu.NicContext.{NicContext, Clock}
use e1000_emu.Eeprom.{process_wires}
use e1000_emu.Phy.{
  Phy, mdi_read, mdi_write, phy_access, phy_status, phy_identifier, phy_extended_identifier,
}
use e1000_emu.Device.State.{E1000}
use e1000_emu.Device.Interrupts.{report_mdac}

-- Whether the opcode writes; `none` if it is unknown.
unfoldable pub mdi_writes : ℕ → Option Bool
mdi_writes opcode =
    if opcode == mdi_read then some false else if opcode == mdi_write then some true else none

-- The access to the PHY register at the address, which gives the bytes after it.
unfoldable pub phy_dispatch : ⦃D : Derive⦄ → ℕ → List ℕ → Bool → M Phy (List ℕ)
phy_dispatch address bytes write p =
    if address == 0x1
    then (phy_access phy_status p.status bytes write >>= λ (r, bs).
          modify (λ p. record p { status = r }) >> pure bs)
        p
    else if address == 0x2
    then (phy_access phy_identifier p.identifier bytes write >>= λ (r, bs).
          modify (λ p. record p { identifier = r }) >> pure bs)
        p
    else if address == 0x3
    then (phy_access phy_extended_identifier p.extended_identifier bytes write >>= λ (r, bs).
          modify (λ p. record p { extended_identifier = r }) >> pure bs)
        p
    else ok bytes p

module _ {C : Type 0} where
  -- The result of an access in the register MDIC.
  unfoldable pub mdi_done : Bool → List ℕ → E1000 C → E1000 C
  mdi_done write bytes e = record e {
    regs = record (e.regs) {
      mdic = record (e.regs.mdic) {
        value = if not write then from_be_bytes bytes else e.regs.mdic.value;
        ready = true;
      };
    };
  }

  module _ ⦃D : Derive⦄ where
    unfoldable pub mdic_write : ⦃N : NicContext C⦄ ⦃T : Clock C⦄ → M (E1000 C) (Unit {0})
    mdic_write e = elim (mdi_writes e.regs.mdic.opcode) [
      | none ↦ ok tt e
      | some write ↦
          (do
            bytes ←
                zoom (λ e. e.phy) (λ p e. record e { phy = p })
                  (phy_dispatch e.regs.mdic.register_address (to_be_bytes 2 e.regs.mdic.value)
                    write)
            modify (mdi_done write bytes)
            λ e. if e.regs.mdic.interrupt_enable then report_mdac e else ok tt e)
            e
    ]

  unfoldable pub eecd_write : M (E1000 C) (Unit {0})
  eecd_write e =
      (do
        wires ←
            zoom (λ e. e.eeprom) (λ p e. record e { eeprom = p })
              (unwrap (
                process_wires (record {
                  clock_input = e.regs.eecd.sk;
                  chip_select = e.regs.eecd.cs;
                  data_input = e.regs.eecd.di;
                  data_output = false;
                })))
        modify λ e. record e {
          regs = record (e.regs) { eecd = record (e.regs.eecd) { do_ = wires.data_output } };
        })
        e
