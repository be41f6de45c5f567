-- ===== src/Device/Access.antt =====
-- `access_register` of src/e1000/registers.rs with the macro `match_and_access_registers` of
-- src/util.rs: the register at an offset is read or written, and what hangs on it is done.
pub mod Arms
pub mod Causes
pub mod Plain
use e1000_emu.Prelude.{
  ℕ, Bool, true, false, not, ◌||◌, ◌&&◌, Option, none, some, List, ◌==◌, if◌then◌else◌,
}
use e1000_emu.Outcome.{M, ok, err, panic, out_of_fuel, pure, fail, modify, ◌>>=◌, ◌>>◌}
use e1000_emu.Packing.{Layout, Derive}
use e1000_emu.NicContext.{NicContext, Clock, InternetChecksum}
use e1000_emu.Registers.General.{
  control, status, eeprom_control_and_data, mdi_control, interrupt_causes, interrupt_delay,
  receive_control, transmit_control,
}
use e1000_emu.Registers.Rings.{
  descriptor_base_address_low, descriptor_base_address_high, descriptor_length, descriptor_head,
  descriptor_tail, receive_address_low, receive_address_high,
}
use e1000_emu.Registers.File.{Registers, no_causes, access}
use e1000_emu.Device.State.{E1000}
use e1000_emu.Device.Interrupts.{modify_causes, interrupt}
use e1000_emu.Device.Management.{mdic_write, eecd_write}
use e1000_emu.Device.Control.{ctrl_write, rctl_write, tctl_write, rdt_write, tdt_write}

module _ {C : Type 0} where
  abbrev pub with_regs : (Registers → Registers) → E1000 C → E1000 C
  with_regs f e = record e { regs = f e.regs }

  -- One arm of the match: the access to the register, then its action, whose panic or error comes
  -- first; the result is the buffer after the access, or the access's error.
  unfoldable pub arm :
      {A : Type 0} ⦃D : Derive⦄
      → Layout A
      → (Registers → A)
      → (A → Registers → Registers)
      → M (E1000 C) (Unit {0})
      → List ℕ
      → Bool
      → M (E1000 C) (Option (List ℕ))
  arm L get put action bytes write e = elim (access L (get e.regs) bytes write e) [
    | ok (r, bytes') e' ↦ (action >> pure (some bytes')) (with_regs (put r) e')
    | err e' ↦ (action >> fail) e'
    | panic ↦ panic
    | out_of_fuel ↦ out_of_fuel
  ]

  abbrev pub no_action : M (E1000 C) (Unit {0})
  no_action e = ok tt e

  -- `if write { .. }`.
  abbrev pub on_write : Bool → M (E1000 C) (Unit {0}) → M (E1000 C) (Unit {0})
  on_write true m = m
  on_write false m = no_action

  module _ ⦃D : Derive⦄ where
    unfoldable pub modify_interrupt_cause : Bool → M (E1000 C) (Unit {0})
    modify_interrupt_cause clear e =
        (modify_causes e.regs.interrupt_cause e.regs.interrupt_temp clear >>= λ r.
        modify (with_regs λ g. record g { interrupt_cause = r }))
          e

    unfoldable pub modify_interrupt_mask : Bool → M (E1000 C) (Unit {0})
    modify_interrupt_mask clear e =
        (modify_causes e.regs.interrupt_mask e.regs.interrupt_temp clear >>= λ r.
        modify (with_regs λ g. record g { interrupt_mask = r }))
          e

    -- The registers that hold causes, at 0xC0, 0xC8, 0xD0 and 0xD8.
    abbrev pub cause_arm : M (E1000 C) (Unit {0}) → List ℕ → Bool → M (E1000 C) (Option (List ℕ))
    cause_arm action =
        arm interrupt_causes (λ g. g.interrupt_cause) (λ r g. record g { interrupt_cause = r })
          action

    abbrev pub mask_arm : M (E1000 C) (Unit {0}) → List ℕ → Bool → M (E1000 C) (Option (List ℕ))
    mask_arm action =
        arm interrupt_causes (λ g. g.interrupt_mask) (λ r g. record g { interrupt_mask = r }) action

    abbrev pub temp_arm : M (E1000 C) (Unit {0}) → List ℕ → Bool → M (E1000 C) (Option (List ℕ))
    temp_arm action =
        arm interrupt_causes (λ g. g.interrupt_temp) (λ r g. record g { interrupt_temp = r }) action

    -- The descriptor ring and receive address registers; `none` is an unmatched offset.
    unfoldable pub access_plain : ℕ → List ℕ → Bool → M (E1000 C) (Option (List ℕ))
    access_plain offset bytes write =
        if offset == 0x2800
        then arm descriptor_base_address_low (λ g. g.rd_ba_l) (λ r g. record g { rd_ba_l = r })
            no_action bytes write
        else if offset == 0x2804
        then arm descriptor_base_address_high (λ g. g.rd_ba_h) (λ r g. record g { rd_ba_h = r })
            no_action bytes write
        else if offset == 0x2808
        then arm descriptor_length (λ g. g.rd_len) (λ r g. record g { rd_len = r }) no_action bytes
            write
        else if offset == 0x2810
        then arm descriptor_head (λ g. g.rd_h) (λ r g. record g { rd_h = r }) no_action bytes write
        else if offset == 0x3800
        then arm descriptor_base_address_low (λ g. g.td_ba_l) (λ r g. record g { td_ba_l = r })
            no_action bytes write
        else if offset == 0x3804
        then arm descriptor_base_address_high (λ g. g.td_ba_h) (λ r g. record g { td_ba_h = r })
            no_action bytes write
        else if offset == 0x3808
        then arm descriptor_length (λ g. g.td_len) (λ r g. record g { td_len = r }) no_action bytes
            write
        else if offset == 0x3810
        then arm descriptor_head (λ g. g.td_h) (λ r g. record g { td_h = r }) no_action bytes write
        else if offset == 0x5400
        then arm receive_address_low (λ g. g.ral0) (λ r g. record g { ral0 = r }) no_action bytes
            write
        else if offset == 0x5404
        then arm receive_address_high (λ g. g.rah0) (λ r g. record g { rah0 = r }) no_action bytes
            write
        else λ e. ok none e

    module _ ⦃N : NicContext C⦄ ⦃T : Clock C⦄ where
      -- ICR and ICS.
      unfoldable pub access_causes : ℕ → List ℕ → Bool → M (E1000 C) (Option (List ℕ))
      access_causes offset bytes write =
          if offset == 0xC0 && not write
          then cause_arm (modify (with_regs λ g. record g { interrupt_cause = no_causes })) bytes
              write
          else if offset == 0xC8 && not write
          then cause_arm no_action bytes write
          else temp_arm (modify_interrupt_cause (offset == 0xC0) >> on_write write interrupt) bytes
              write

      -- IMS and IMC.
      unfoldable pub access_mask : ℕ → List ℕ → Bool → M (E1000 C) (Option (List ℕ))
      access_mask offset bytes write =
          if not write
          then mask_arm no_action bytes write
          else temp_arm (modify_interrupt_mask (offset == 0xD8)) bytes write

      unfoldable pub access_register :
          ⦃K : InternetChecksum⦄ → ℕ → List ℕ → Bool → M (E1000 C) (Option (List ℕ))
      access_register offset bytes write =
          if offset == 0x0
          then arm control (λ g. g.ctrl) (λ r g. record g { ctrl = r }) (on_write write ctrl_write)
              bytes write
          else if offset == 0x8
          then arm status (λ g. g.status) (λ r g. record g { status = r }) no_action bytes write
          else if offset == 0x10
          then arm eeprom_control_and_data (λ g. g.eecd) (λ r g. record g { eecd = r })
              (on_write write eecd_write) bytes write
          else if offset == 0x20
          then arm mdi_control (λ g. g.mdic) (λ r g. record g { mdic = r })
              (on_write write mdic_write) bytes write
          else if offset == 0xC4
          then arm interrupt_delay (λ g. g.interrupt_throttling)
              (λ r g. record g { interrupt_throttling = r }) no_action bytes write
          else if offset == 0xC0 || offset == 0xC8
          then access_causes offset bytes write
          else if offset == 0xD0 || offset == 0xD8
          then access_mask offset bytes write
          else if offset == 0x100
          then arm receive_control (λ g. g.rctl) (λ r g. record g { rctl = r })
              (on_write write (modify rctl_write)) bytes write
          else if offset == 0x400
          then arm transmit_control (λ g. g.tctl) (λ r g. record g { tctl = r })
              (on_write write (modify tctl_write)) bytes write
          else if offset == 0x2818
          then arm descriptor_tail (λ g. g.rd_t) (λ r g. record g { rd_t = r })
              (on_write write (modify rdt_write)) bytes write
          else if offset == 0x3818
          then arm descriptor_tail (λ g. g.td_t) (λ r g. record g { td_t = r })
              (on_write write tdt_write) bytes write
          else access_plain offset bytes write
