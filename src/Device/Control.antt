-- ===== src/Device/Control.antt =====
-- The reset and the handlers of writes to the control registers of src/e1000.rs.
use e1000_emu.Prelude.{Bool, true, false, Option, none, some, ◌&&◌, if◌then◌else◌}
use e1000_emu.Outcome.{M, ok}
use e1000_emu.Packing.{Derive}
use e1000_emu.NicContext.{NicContext, Clock, InternetChecksum}
use e1000_emu.Registers.File.{default_registers, set_mac}
use e1000_emu.Eeprom.{ethernet_address}
use e1000_emu.Phy.{default_phy}
use e1000_emu.Descriptors.Ring.{DescriptorRing}
use e1000_emu.Device.State.{E1000, offline, setup_rx_ring, setup_tx_ring}
use e1000_emu.Device.Interrupts.{report_lsc}
use e1000_emu.Device.Receive.{update_receive_state}
use e1000_emu.Device.Transmit.{process_tx_ring}

-- `Option::is_none`.
abbrev pub no_ring : Option DescriptorRing → Bool
no_ring none = true
no_ring (some r) = false

module _ {C : Type 0} where
  unfoldable pub reset_e1000 : ⦃N : NicContext C⦄ → E1000 C → E1000 C
  reset_e1000 ⦃N⦄ e = record e {
    receive_state = offline;
    regs = set_mac (ethernet_address e.eeprom.initial_eeprom) default_registers;
    phy = default_phy;
    rx_ring = none;
    tx_ring = none;
    transmit_tcp_context = none;
    nic_ctx = N.delete_timer e.nic_ctx;
    interrupt_mitigation = none;
  }

  -- The link is up in the status register and in the PHY.
  unfoldable pub link_up : E1000 C → E1000 C
  link_up e = record e {
    regs = record (e.regs) { status = record { lu = true } };
    phy = record (e.phy) { status = record { link_status = true } };
  }

  unfoldable pub ctrl_write : ⦃D : Derive⦄ ⦃N : NicContext C⦄ ⦃T : Clock C⦄ → M (E1000 C) (Unit {0})
  ctrl_write e =
      if e.regs.ctrl.rst
      then ok tt (reset_e1000 e)
      else if e.regs.ctrl.slu
      then report_lsc (link_up e)
      else ok tt e

  unfoldable pub rctl_write : E1000 C → E1000 C
  rctl_write e =
      update_receive_state (if e.regs.rctl.en && no_ring e.rx_ring then setup_rx_ring e else e)

  unfoldable pub tctl_write : E1000 C → E1000 C
  tctl_write e = if e.regs.tctl.en && no_ring e.tx_ring then setup_tx_ring e else e

  unfoldable pub rdt_write : E1000 C → E1000 C
  rdt_write e = elim e.rx_ring [
    | some ring ↦
        update_receive_state (record e { rx_ring = some (record ring { tail = e.regs.rd_t.tail }) })
    | none ↦ e
  ]

  unfoldable pub tdt_write :
      ⦃D : Derive⦄ ⦃K : InternetChecksum⦄ ⦃N : NicContext C⦄ ⦃T : Clock C⦄ → M (E1000 C) (Unit {0})
  tdt_write = process_tx_ring
