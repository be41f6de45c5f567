-- ===== src/Device/Invariant/Parts.antt =====
-- Reception, transmission, management and the control registers under the invariant.
use e1000_emu.Prelude.{
  ℕ, ◌+◌, ◌%◌, ◌^◌, refl, Bool, true, false, ◌&&◌, Option, none, some, List, length, ltb,
  if◌then◌else◌, to_be_bytes,
}
use e1000_emu.Outcome.{ok, M, modify, assert, or_fail, unwrap, zoom, ◌>>=◌, ◌>>◌}
use e1000_emu.Outcome.Always.{
  Always, Kept, Always-bind, Always-if, Always-either, Always-or_fail, Always-assert, Always-zoom,
  Always-weaken,
}
use e1000_emu.Packing.{Derive}
use e1000_emu.NicContext.{NicContext, Clock, InternetChecksum}
use e1000_emu.Descriptors.Ring.{DescriptorRing}
use e1000_emu.Eeprom.{EepromWires, process_wires}
use e1000_emu.Phy.{Phy}
use e1000_emu.Device.State.{E1000, InterruptMitigation, on_ctx, setup_rx_ring, setup_tx_ring}
use e1000_emu.Device.Interrupts.{report_txdw_and_txqe, report_txqe, report_lsc, report_mdac}
use e1000_emu.Device.Receive.{receive, fill_head, is_ready, update_receive_state}
use e1000_emu.Device.Receive.Laws.{update_receive_state_lem}
use e1000_emu.Device.Transmit.{tx_loop, tx_start, tx_finish, transmit_from, process_tx_ring}
use e1000_emu.Device.Management.{mdi_writes, phy_dispatch, mdi_done, mdic_write, eecd_write}
use e1000_emu.Device.Control.{
  reset_e1000, link_up, ctrl_write, rctl_write, tctl_write, rdt_write, tdt_write, no_ring,
}
use e1000_emu.Device.Invariant.{IsStable}
use e1000_emu.Device.Invariant.Inner.{tx_loop-Kept, fill_head-Kept}
use e1000_emu.Device.Invariant.Sound.{
  IsSound, Always-const, report_txdw_and_txqe-Kept, report_txqe-Kept, report_lsc-Kept,
  report_rxt0-Kept, report_mdac-Kept,
}

module _ {C : Type 0} ⦃N : NicContext C⦄ ⦃T : Clock C⦄
    (J : Bool → Option InterruptMitigation → C → Type 0) (stable : IsStable N T J) where
  -- A call on the surroundings alone.
  inner-Sound :
      {A : Type 0} (m : M C A) (e : E1000 C)
      → IsSound J e
      → Always (J e.enable_interrupt_mitigation e.interrupt_mitigation) (m e.nic_ctx)
      → Always (IsSound J) (on_ctx m e)
  inner-Sound m e s h =
      Always-zoom (IsSound J) (λ x. x.nic_ctx) (λ c x. record x { nic_ctx = c }) m e
        (Always-weaken (m e.nic_ctx) (λ c j. (s.0, j)) h)

  -- The receive state is computed from the ring, so it belongs to it whatever was before.
  updated-Sound :
      (e : E1000 C)
      → J e.enable_interrupt_mitigation e.interrupt_mitigation e.nic_ctx
      → IsSound J (update_receive_state e)
  updated-Sound e j = rw (update_receive_state_lem e) (refl, j)

  pub reset_e1000-Sound : (e : E1000 C) → IsSound J e → IsSound J (reset_e1000 e)
  unfolding reset_e1000
  reset_e1000-Sound e s =
      (refl, stable.resets e.enable_interrupt_mitigation e.interrupt_mitigation e.nic_ctx s.1)

  pub rctl_write-Sound : (e : E1000 C) → IsSound J e → IsSound J (rctl_write e)
  unfolding rctl_write setup_rx_ring
  rctl_write-Sound e s = go (e.regs.rctl.en && no_ring e.rx_ring)
    where
      go : (b : Bool) → IsSound J (update_receive_state (if b then setup_rx_ring e else e))
      go true = updated-Sound (setup_rx_ring e) s.1
      go false = updated-Sound e s.1

  pub tctl_write-Sound : (e : E1000 C) → IsSound J e → IsSound J (tctl_write e)
  unfolding tctl_write setup_tx_ring
  tctl_write-Sound e s = go (e.regs.tctl.en && no_ring e.tx_ring)
    where
      go : (b : Bool) → IsSound J (if b then setup_tx_ring e else e)
      go true = s
      go false = s

  pub rdt_write-Sound : (e : E1000 C) → IsSound J e → IsSound J (rdt_write e)
  unfolding rdt_write
  rdt_write-Sound e s = go e.rx_ring
    where
      go :
          (o : Option DescriptorRing)
          → IsSound J (elim o [
            | some ring ↦
                update_receive_state
                  (record e { rx_ring = some (record ring { tail = e.regs.rd_t.tail }) })
            | none ↦ e
          ])
      go none = s
      go (some r) =
          updated-Sound (record e { rx_ring = some (record r { tail = e.regs.rd_t.tail }) }) s.1

  pub eecd_write-Kept : Kept (IsSound J) eecd_write
  unfolding eecd_write
  eecd_write-Kept e s =
      let wires : EepromWires = record {
        clock_input = e.regs.eecd.sk;
        chip_select = e.regs.eecd.cs;
        data_input = e.regs.eecd.di;
        data_output = false;
      } in
      Always-bind (IsSound J)
        (zoom (λ e. e.eeprom) (λ p e. record e { eeprom = p }) (unwrap (process_wires wires))) _ e
        (Always-zoom (IsSound J) (λ e. e.eeprom) (λ p e. record e { eeprom = p })
          (unwrap (process_wires wires)) e (Always-const (unwrap (process_wires wires) e.eeprom) s))
        (λ w e' s'. s')

  module _ ⦃D : Derive⦄ where
    pub ctrl_write-Kept : Kept (IsSound J) ctrl_write
    unfolding ctrl_write link_up
    ctrl_write-Kept e s = go e.regs.ctrl.rst e.regs.ctrl.slu
      where
        go :
            (rst slu : Bool)
            → Always (IsSound J) (
                if rst
                then ok tt (reset_e1000 e)
                else if slu
                then report_lsc (link_up e)
                else ok tt e)
        go true slu = reset_e1000-Sound e s
        go false true = report_lsc-Kept J stable (link_up e) s
        go false false = s

    pub mdic_write-Kept : Kept (IsSound J) mdic_write
    unfolding mdic_write mdi_done
    mdic_write-Kept e s = go (mdi_writes e.regs.mdic.opcode)
      where
        put : Phy → E1000 C → E1000 C
        put p e = record e { phy = p }

        rest : Bool → List ℕ → M (E1000 C) (Unit {0})
        rest write bytes = do
          modify (mdi_done write bytes)
          λ e. if e.regs.mdic.interrupt_enable then report_mdac e else ok tt e

        go :
            (o : Option Bool)
            → Always (IsSound J) (elim o [
              | none ↦ ok tt e
              | some write ↦
                  (zoom
                        (λ e. e.phy)
                        (λ p e. record e { phy = p })
                        (phy_dispatch e.regs.mdic.register_address
                          (to_be_bytes 2 e.regs.mdic.value)
                          write)
                      >>= rest write)
                    e
            ])
        go none = s
        go (some write) =
            let access =
              phy_dispatch e.regs.mdic.register_address (to_be_bytes 2 e.regs.mdic.value) write in
            Always-bind (IsSound J) (zoom (λ e. e.phy) (λ p e. record e { phy = p }) access)
              (rest write) e
              (Always-zoom (IsSound J) (λ e. e.phy) (λ p e. record e { phy = p }) access e
                (Always-const (access e.phy) s))
              λ bytes e' s'.
                let e'' = mdi_done write bytes e' in
                Always-either (IsSound J) e''.regs.mdic.interrupt_enable (report_mdac e'')
                  (ok tt e'') (report_mdac-Kept J stable e'' s') s'

    module _ ⦃K : InternetChecksum⦄ where
      transmit_from-Kept : (r : DescriptorRing) → Kept (IsSound J) (transmit_from r)
      unfolding transmit_from
      transmit_from-Kept r e s =
          let loop = tx_loop (r.length + 1) (tx_start e r) in
          Always-bind (IsSound J) (on_ctx loop) _ e
            (inner-Sound loop e s (
              tx_loop-Kept _ (stable.served e.enable_interrupt_mitigation e.interrupt_mitigation)
                (r.length + 1) (tx_start e r) e.nic_ctx s.1))
            λ l e' s'.
              Always-if (IsSound J) l.report report_txdw_and_txqe report_txqe (tx_finish l e')
                (report_txdw_and_txqe-Kept J stable (tx_finish l e') s')
                (report_txqe-Kept J stable (tx_finish l e') s')

      pub tdt_write-Kept : Kept (IsSound J) tdt_write
      unfolding tdt_write process_tx_ring
      tdt_write-Kept e s = go e.tx_ring
        where
          go :
              (o : Option DescriptorRing)
              → Always (IsSound J) (elim o [ none ↦ ok tt e | some ring ↦ transmit_from ring e ])
          go none = s
          go (some r) = transmit_from-Kept r e s

    pub receive-Kept : (frame : List ℕ) → Kept (IsSound J) (receive frame)
    unfolding receive
    receive-Kept frame e s =
        let S = IsSound J in
        Always-bind S (assert (ltb 0 (length frame))) _ e
          (Always-assert S (ltb 0 (length frame)) e s)
          λ a e s.
            Always-bind S (assert (is_ready e.receive_state)) _ e
              (Always-assert S (is_ready e.receive_state) e s)
              λ b e s.
                Always-bind S (or_fail e.rx_ring) _ e (Always-or_fail S e.rx_ring e s) λ ring e s.
                  Always-bind S (λ e. on_ctx (fill_head e ring frame) e) _ e
                    (inner-Sound (fill_head e ring frame) e s (
                      fill_head-Kept _
                        (stable.served e.enable_interrupt_mitigation e.interrupt_mitigation) e ring
                        frame e.nic_ctx s.1))
                    λ advanced e s.
                      let moved = record e {
                        rx_ring = some advanced;
                        regs = record (e.regs) { rd_h = record { head = advanced.head % 2 ^ 16 } };
                      } in
                      report_rxt0-Kept J stable (update_receive_state moved)
                        (updated-Sound moved s.1)
