-- ===== src/Device/State.antt =====
-- `struct E1000` of src/e1000.rs, `E1000::new`, and the rings set up from the registers
-- (src/e1000/descriptors.rs).
use e1000_emu.Prelude.{ℕ, ◌*◌, Bool, Option, none, some}
use e1000_emu.Outcome.{M, zoom}
use e1000_emu.Registers.File.{
  Registers, default_registers, get_receive_descriptor_base_address,
  get_transmit_descriptor_base_address,
}
use e1000_emu.Descriptors.Ring.{DescriptorRing}
use e1000_emu.Descriptors.Formats.{TransmitDescriptorTcpContext}
use e1000_emu.Eeprom.{EepromInterface, default_eeprom}
use e1000_emu.Phy.{Phy, default_phy}

-- From src/e1000/receive.rs.
pub data ReceiveState : Type 0 where
  offline online throttled : ReceiveState

-- From src/e1000/interrupts.rs; `expiration` is an instant.
pub record InterruptMitigation : Type 0 where
  pub expiration : ℕ
  pub interrupt_after : Bool

pub record E1000 (C : Type 0) : Type 0 where
  pub nic_ctx : C
  pub enable_interrupt_mitigation : Bool
  pub receive_state : ReceiveState
  pub regs : Registers
  pub io_addr : ℕ
  pub eeprom : EepromInterface
  pub phy : Phy
  pub rx_ring : Option DescriptorRing
  pub tx_ring : Option DescriptorRing
  pub transmit_tcp_context : Option TransmitDescriptorTcpContext
  pub interrupt_mitigation : Option InterruptMitigation

module _ {C : Type 0} where
  unfoldable pub new : C → Bool → E1000 C
  new nic_ctx mitigate_interrupts = record {
    nic_ctx = nic_ctx;
    enable_interrupt_mitigation = mitigate_interrupts;
    receive_state = offline;
    regs = default_registers;
    io_addr = 0;
    eeprom = default_eeprom;
    phy = default_phy;
    rx_ring = none;
    tx_ring = none;
    transmit_tcp_context = none;
    interrupt_mitigation = none;
  }

  unfoldable pub setup_rx_ring : E1000 C → E1000 C
  setup_rx_ring e = record e {
    rx_ring = some (record {
      ring_address = get_receive_descriptor_base_address e.regs;
      length = e.regs.rd_len.length * 8;
      head = e.regs.rd_h.head;
      tail = e.regs.rd_t.tail;
    });
  }

  unfoldable pub setup_tx_ring : E1000 C → E1000 C
  setup_tx_ring e = record e {
    tx_ring = some (record {
      ring_address = get_transmit_descriptor_base_address e.regs;
      length = e.regs.td_len.length * 8;
      head = e.regs.td_h.head;
      tail = e.regs.td_t.tail;
    });
  }

  -- A call that borrows the context alone.
  abbrev pub on_ctx : {A : Type 0} → M C A → M (E1000 C) A
  on_ctx m = zoom (λ e. e.nic_ctx) (λ c e. record e { nic_ctx = c }) m
