-- ===== src/Device/Invariant/Access.antt =====
-- Accesses to the registers and to the two regions under the invariant.
use e1000_emu.Prelude.{
  ℕ, ◌%◌, ◌^◌, Bool, true, false, not, ◌&&◌, ◌||◌, some, List, length, take, ◌==◌, ltb,
}
use e1000_emu.Outcome.{
  Outcome, ok, err, panic, out_of_fuel, M, pure, fail, modify, ensure, or_fail, unwrap, ◌>>=◌, ◌>>◌,
}
use e1000_emu.Outcome.Always.{
  Always, Kept, Always-bind, Always-if, Always-or_fail, Always-ensure, Always-unwrap,
}
use e1000_emu.Packing.{Layout, Derive}
use e1000_emu.NicContext.{NicContext, Clock, InternetChecksum}
use e1000_emu.Registers.General.{
  control, status, eeprom_control_and_data, mdi_control, interrupt_causes, interrupt_delay,
  receive_control, transmit_control,
}
use e1000_emu.Registers.Rings.{
  descriptor_base_address_low, descriptor_base_address_high, descriptor_length, descriptor_head,
  descriptor_tail, receive_address_low, receive_address_high,
}
use e1000_emu.Registers.File.{Registers, no_causes, access, register_read, register_write}
use e1000_emu.Device.State.{E1000, InterruptMitigation}
use e1000_emu.Device.Interrupts.{interrupt}
use e1000_emu.Device.Interrupts.Words.{modify_causes_lem}
use e1000_emu.Device.Management.{mdic_write, eecd_write}
use e1000_emu.Device.Control.{ctrl_write, rctl_write, tctl_write, rdt_write, tdt_write}
use e1000_emu.Device.Access.{
  arm, no_action, on_write, with_regs, modify_interrupt_cause, modify_interrupt_mask, access_plain,
  access_causes, access_mask, access_register,
}
use e1000_emu.Device.Regions.{region_access_bar0, region_access_bar1, access_address}
use e1000_emu.Prelude.{Option}
use e1000_emu.Device.Invariant.{IsStable}
use e1000_emu.Device.Invariant.Sound.{IsSound, interrupt-Kept}
use e1000_emu.Device.Invariant.Parts.{
  ctrl_write-Kept, rctl_write-Sound, tctl_write-Sound, rdt_write-Sound, tdt_write-Kept,
  mdic_write-Kept, eecd_write-Kept,
}

access-Kept :
    {S A : Type 0} ⦃D : Derive⦄ (P : S → Type 0) (L : Layout A) (r : A) (bytes : List ℕ)
    (write : Bool)
    → Kept P (access L r bytes write)
unfolding access register_read register_write
access-Kept ⦃D⦄ P L r bytes true s h = Always-if P (ltb (length bytes) 4) _ _ s tt (
    Always-bind P (register_write L (take 4 bytes)) (λ r'. pure (r', bytes)) s
      (Always-or_fail P _ s h) (λ r' t h. h))
access-Kept ⦃D⦄ P L r bytes false s h = Always-if P (ltb (length bytes) 4) _ _ s tt (
    Always-bind P (register_read L r) _ s
      (Always-bind P (or_fail ((D.derive L).pack r)) _ s
        (Always-or_fail P ((D.derive L).pack r) s h) (λ b t h. h))
      (λ b t h. h))

module _ {C : Type 0} ⦃N : NicContext C⦄ ⦃T : Clock C⦄
    (J : Bool → Option InterruptMitigation → C → Type 0) (stable : IsStable N T J) where
  on_write-Kept :
      (write : Bool) (m : M (E1000 C) (Unit {0}))
      → Kept (IsSound J) m
      → Kept (IsSound J) (on_write write m)
  on_write-Kept true m h e s = h e s
  on_write-Kept false m h e s = s

  module _ ⦃D : Derive⦄ where
    arm-Kept :
        {A : Type 0} (L : Layout A) (get : Registers → A) (put : A → Registers → Registers)
        (action : M (E1000 C) (Unit {0})) (bytes : List ℕ) (write : Bool)
        → Kept (IsSound J) action
        → Kept (IsSound J) (arm L get put action bytes write)
    unfolding arm
    arm-Kept {A} L get put action bytes write h e s =
        go (access L (get e.regs) bytes write e)
          (access-Kept (IsSound J) L (get e.regs) bytes write e s)
      where
        go :
            (o : Outcome (E1000 C) (A × List ℕ))
            → Always (IsSound J) o
            → Always (IsSound J) (elim o [
              | ok (r, bytes') e' ↦ (action >> pure (some bytes')) (with_regs (put r) e')
              | err e' ↦ (action >> fail) e'
              | panic ↦ panic
              | out_of_fuel ↦ out_of_fuel
            ])
        go (ok (r, bytes') e') s' =
            Always-bind (IsSound J) action (λ x. pure (some bytes')) (with_regs (put r) e')
              (h (with_regs (put r) e') s') (λ x t u. u)
        go (err e') s' = Always-bind (IsSound J) action (λ x. fail) e' (h e' s') (λ x t u. u)
        go panic s' = tt
        go out_of_fuel s' = tt

    no_action-Kept : Kept (IsSound J) no_action
    no_action-Kept e s = s

    modify_interrupt_cause-Kept : (clear : Bool) → Kept (IsSound J) (modify_interrupt_cause clear)
    unfolding modify_interrupt_cause
    modify_interrupt_cause-Kept clear e s =
        rw (modify_causes_lem e.regs.interrupt_cause e.regs.interrupt_temp clear e, ◌>>=◌) s

    modify_interrupt_mask-Kept : (clear : Bool) → Kept (IsSound J) (modify_interrupt_mask clear)
    unfolding modify_interrupt_mask
    modify_interrupt_mask-Kept clear e s =
        rw (modify_causes_lem e.regs.interrupt_mask e.regs.interrupt_temp clear e, ◌>>=◌) s

    access_plain-Kept :
        (offset : ℕ) (bytes : List ℕ) (write : Bool)
        → Kept (IsSound J) (access_plain offset bytes write)
    unfolding access_plain
    access_plain-Kept offset bytes write e s =
        let S = IsSound J in
        Always-if S (offset == 0x2800) _ _ e
          (arm-Kept descriptor_base_address_low (λ g. g.rd_ba_l) (λ r g. record g { rd_ba_l = r })
            no_action bytes write no_action-Kept e s)
          (Always-if S (offset == 0x2804) _ _ e
            (arm-Kept descriptor_base_address_high (λ g. g.rd_ba_h)
              (λ r g. record g { rd_ba_h = r }) no_action bytes write no_action-Kept e s)
            (Always-if S (offset == 0x2808) _ _ e
              (arm-Kept descriptor_length (λ g. g.rd_len) (λ r g. record g { rd_len = r }) no_action
                bytes write no_action-Kept e s)
              (Always-if S (offset == 0x2810) _ _ e
                (arm-Kept descriptor_head (λ g. g.rd_h) (λ r g. record g { rd_h = r }) no_action
                  bytes write no_action-Kept e s)
                (Always-if S (offset == 0x3800) _ _ e
                  (arm-Kept descriptor_base_address_low (λ g. g.td_ba_l)
                    (λ r g. record g { td_ba_l = r }) no_action bytes write no_action-Kept e s)
                  (Always-if S (offset == 0x3804) _ _ e
                    (arm-Kept descriptor_base_address_high (λ g. g.td_ba_h)
                      (λ r g. record g { td_ba_h = r }) no_action bytes write no_action-Kept e s)
                    (Always-if S (offset == 0x3808) _ _ e
                      (arm-Kept descriptor_length (λ g. g.td_len) (λ r g. record g { td_len = r })
                        no_action bytes write no_action-Kept e s)
                      (Always-if S (offset == 0x3810) _ _ e
                        (arm-Kept descriptor_head (λ g. g.td_h) (λ r g. record g { td_h = r })
                          no_action bytes write no_action-Kept e s)
                        (Always-if S (offset == 0x5400) _ _ e
                          (arm-Kept receive_address_low (λ g. g.ral0) (λ r g. record g { ral0 = r })
                            no_action bytes write no_action-Kept e s)
                          (Always-if S (offset == 0x5404) _ _ e
                            (arm-Kept receive_address_high (λ g. g.rah0)
                              (λ r g. record g { rah0 = r }) no_action bytes write no_action-Kept e
                              s)
                            s)))))))))

    access_causes-Kept :
        (offset : ℕ) (bytes : List ℕ) (write : Bool)
        → Kept (IsSound J) (access_causes offset bytes write)
    unfolding access_causes
    access_causes-Kept offset bytes write e s =
        let S = IsSound J in
        let clears = offset == 0xC0 in
        let changed = modify_interrupt_cause clears >> on_write write interrupt in
        Always-if S (offset == 0xC0 && not write) _ _ e
          (arm-Kept interrupt_causes (λ g. g.interrupt_cause)
            (λ r g. record g { interrupt_cause = r })
            (modify (with_regs λ g. record g { interrupt_cause = no_causes })) bytes write
            (λ e s. s) e s)
          (Always-if S (offset == 0xC8 && not write) _ _ e
            (arm-Kept interrupt_causes (λ g. g.interrupt_cause)
              (λ r g. record g { interrupt_cause = r }) no_action bytes write no_action-Kept e s)
            (arm-Kept interrupt_causes (λ g. g.interrupt_temp)
              (λ r g. record g { interrupt_temp = r }) changed bytes write
              (λ e s.
                Always-bind S (modify_interrupt_cause clears) (λ x. on_write write interrupt) e
                  (modify_interrupt_cause-Kept clears e s)
                  (λ x e s. on_write-Kept write interrupt (interrupt-Kept J stable) e s))
              e s))

    access_mask-Kept :
        (offset : ℕ) (bytes : List ℕ) (write : Bool)
        → Kept (IsSound J) (access_mask offset bytes write)
    unfolding access_mask
    access_mask-Kept offset bytes write e s =
        Always-if (IsSound J) (not write) _ _ e
          (arm-Kept interrupt_causes (λ g. g.interrupt_mask)
            (λ r g. record g { interrupt_mask = r }) no_action bytes write no_action-Kept e s)
          (arm-Kept interrupt_causes (λ g. g.interrupt_temp)
            (λ r g. record g { interrupt_temp = r }) (modify_interrupt_mask (offset == 0xD8)) bytes
            write (modify_interrupt_mask-Kept (offset == 0xD8)) e s)

    module _ ⦃K : InternetChecksum⦄ where
      access_register-Kept :
          (offset : ℕ) (bytes : List ℕ) (write : Bool)
          → Kept (IsSound J) (access_register offset bytes write)
      unfolding access_register
      access_register-Kept offset bytes write e s =
          let S = IsSound J in
          Always-if S (offset == 0x0) _ _ e
            (arm-Kept control (λ g. g.ctrl) (λ r g. record g { ctrl = r })
              (on_write write ctrl_write) bytes write
              (on_write-Kept write ctrl_write (ctrl_write-Kept J stable)) e s)
            (Always-if S (offset == 0x8) _ _ e
              (arm-Kept status (λ g. g.status) (λ r g. record g { status = r }) no_action bytes
                write no_action-Kept e s)
              (Always-if S (offset == 0x10) _ _ e
                (arm-Kept eeprom_control_and_data (λ g. g.eecd) (λ r g. record g { eecd = r })
                  (on_write write eecd_write) bytes write
                  (on_write-Kept write eecd_write (eecd_write-Kept J stable)) e s)
                (Always-if S (offset == 0x20) _ _ e
                  (arm-Kept mdi_control (λ g. g.mdic) (λ r g. record g { mdic = r })
                    (on_write write mdic_write) bytes write
                    (on_write-Kept write mdic_write (mdic_write-Kept J stable)) e s)
                  (Always-if S (offset == 0xC4) _ _ e
                    (arm-Kept interrupt_delay (λ g. g.interrupt_throttling)
                      (λ r g. record g { interrupt_throttling = r }) no_action bytes write
                      no_action-Kept e s)
                    (Always-if S (offset == 0xC0 || offset == 0xC8) _ _ e
                      (access_causes-Kept offset bytes write e s)
                      (Always-if S (offset == 0xD0 || offset == 0xD8) _ _ e
                        (access_mask-Kept offset bytes write e s)
                        (Always-if S (offset == 0x100) _ _ e
                          (arm-Kept receive_control (λ g. g.rctl) (λ r g. record g { rctl = r })
                            (on_write write (modify rctl_write)) bytes write
                            (on_write-Kept write (modify rctl_write) (rctl_write-Sound J stable)) e
                            s)
                          (Always-if S (offset == 0x400) _ _ e
                            (arm-Kept transmit_control (λ g. g.tctl) (λ r g. record g { tctl = r })
                              (on_write write (modify tctl_write)) bytes write
                              (on_write-Kept write (modify tctl_write) (tctl_write-Sound J stable))
                              e s)
                            (Always-if S (offset == 0x2818) _ _ e
                              (arm-Kept descriptor_tail (λ g. g.rd_t) (λ r g. record g { rd_t = r })
                                (on_write write (modify rdt_write)) bytes write
                                (on_write-Kept write (modify rdt_write) (rdt_write-Sound J stable))
                                e s)
                              (Always-if S (offset == 0x3818) _ _ e
                                (arm-Kept descriptor_tail (λ g. g.td_t)
                                  (λ r g. record g { td_t = r }) (on_write write tdt_write) bytes
                                  write (on_write-Kept write tdt_write (tdt_write-Kept J stable)) e
                                  s)
                                (access_plain-Kept offset bytes write e s)))))))))))

      pub region_access_bar0-Kept :
          (offset : ℕ) (bytes : List ℕ) (write : Bool)
          → Kept (IsSound J) (region_access_bar0 offset bytes write)
      unfolding region_access_bar0
      region_access_bar0-Kept offset bytes write e s =
          let S = IsSound J in
          Always-bind S (ensure (length bytes == 4)) _ e (Always-ensure S (length bytes == 4) e s)
            λ a e s.
              Always-bind S (ensure (offset % 4 == 0)) _ e (Always-ensure S (offset % 4 == 0) e s)
                λ b e s.
                  Always-bind S (unwrap (access_register (offset % 2 ^ 32) bytes write)) _ e
                    (Always-unwrap S (access_register (offset % 2 ^ 32) bytes write) e
                      (access_register-Kept (offset % 2 ^ 32) bytes write e s))
                    (λ r e s. s)

      access_address-Kept :
          (bytes : List ℕ) (write : Bool) → Kept (IsSound J) (access_address bytes write)
      unfolding access_address
      access_address-Kept bytes true e s = s
      access_address-Kept bytes false e s = s

      pub region_access_bar1-Kept :
          (offset : ℕ) (bytes : List ℕ) (write : Bool)
          → Kept (IsSound J) (region_access_bar1 offset bytes write)
      unfolding region_access_bar1
      region_access_bar1-Kept offset bytes write e s =
          let S = IsSound J in
          Always-bind S (ensure (length bytes == 4)) _ e (Always-ensure S (length bytes == 4) e s)
            λ a e s. Always-if S (offset == 0) _ _ e (access_address-Kept bytes write e s) (
              Always-if S (offset == 4) (λ e. region_access_bar0 e.io_addr bytes write e) fail e
                (region_access_bar0-Kept e.io_addr bytes write e s) s)
