-- ===== src/Device/Invariant/Sound.antt =====
-- The invariant itself, and interrupts under it.
use e1000_emu.Prelude.{Bool, true, false, Option, none, some, if◌then◌else◌}
use e1000_emu.Outcome.{Outcome, ok, err, panic, out_of_fuel, pure, modify, ◌>>=◌, ◌>>◌}
use e1000_emu.Outcome.Always.{Always, Kept, Always-if}
use e1000_emu.Packing.{Derive}
use e1000_emu.NicContext.{NicContext, Clock}
use e1000_emu.Registers.General.{get_itr_interval}
use e1000_emu.Device.State.{E1000, InterruptMitigation}
use e1000_emu.Device.Interrupts.{
  interrupt, timer_elapsed, with_causes, report_txdw_and_txqe, report_txqe, report_lsc, report_rxt0,
  report_mdac, is_active_at, now,
}
use e1000_emu.Device.Interrupts.Laws.{pending, notify, interrupted, interrupt_lem}
use e1000_emu.Device.Receive.Laws.{IsSettled}
use e1000_emu.Device.Invariant.{IsStable}

-- The receive state belongs to the ring, and `J` relates the mitigation and the surroundings.
abbrev pub IsSound :
    {C : Type 0} → (Bool → Option InterruptMitigation → C → Type 0) → E1000 C → Type 0
IsSound J e = IsSettled e × J e.enable_interrupt_mitigation e.interrupt_mitigation e.nic_ctx

pub Always-const : {S A X : Type 0} (o : Outcome S A) → X → Always (λ t. X) o
Always-const (ok a s) h = h
Always-const (err s) h = h
Always-const panic h = tt
Always-const out_of_fuel h = tt

module _ {C : Type 0} ⦃N : NicContext C⦄ ⦃T : Clock C⦄
    (J : Bool → Option InterruptMitigation → C → Type 0) (stable : IsStable N T J) where
  either-Sound :
      (b : Bool) (x y : E1000 C) → IsSound J x → IsSound J y → IsSound J (if b then x else y)
  either-Sound true x y h k = h
  either-Sound false x y h k = k

  interrupted-Sound : (e : E1000 C) → IsSound J e → IsSound J (interrupted e)
  interrupted-Sound e s =
      let j =
        stable.notifies e.enable_interrupt_mitigation (get_itr_interval e.regs.interrupt_throttling)
          e.interrupt_mitigation e.nic_ctx s.1 in
      either-Sound (pending e) (notify e) e (s.0, j) s

  module _ ⦃D : Derive⦄ where
    pub interrupt-Kept : Kept (IsSound J) interrupt
    interrupt-Kept e s = rw (interrupt_lem e) (interrupted-Sound e s)

    pub report_txdw_and_txqe-Kept : Kept (IsSound J) report_txdw_and_txqe
    unfolding report_txdw_and_txqe
    report_txdw_and_txqe-Kept e s =
        interrupt-Kept (with_causes (λ r. record r { txdw = true; txqe = true }) e) s

    pub report_txqe-Kept : Kept (IsSound J) report_txqe
    unfolding report_txqe
    report_txqe-Kept e s = interrupt-Kept (with_causes (λ r. record r { txqe = true }) e) s

    pub report_lsc-Kept : Kept (IsSound J) report_lsc
    unfolding report_lsc
    report_lsc-Kept e s = interrupt-Kept (with_causes (λ r. record r { lsc = true }) e) s

    pub report_rxt0-Kept : Kept (IsSound J) report_rxt0
    unfolding report_rxt0
    report_rxt0-Kept e s = interrupt-Kept (with_causes (λ r. record r { rxt0 = true }) e) s

    pub report_mdac-Kept : Kept (IsSound J) report_mdac
    unfolding report_mdac
    report_mdac-Kept e s = interrupt-Kept (with_causes (λ r. record r { mdac = true }) e) s

    pub timer_elapsed-Kept : Kept (IsSound J) timer_elapsed
    unfolding timer_elapsed
    timer_elapsed-Kept e s = go e.interrupt_mitigation
      where
        woken :
            (m : InterruptMitigation) (after : Bool)
            → Always (IsSound J) (elim after [
              | false ↦ ok tt e
              | true ↦
                  (now >>= λ t.
                  if is_active_at m t
                  then pure tt
                  else (modify (λ e. record e { interrupt_mitigation = none }) >> interrupt))
                    e
            ])
        woken m false = s
        woken m true =
            let later = record e { nic_ctx = (T.now e.nic_ctx).1 } in
            let kept : IsSound J later = (
              s.0,
              stable.now e.enable_interrupt_mitigation e.interrupt_mitigation e.nic_ctx s.1,
            ) in
            Always-if (IsSound J) (is_active_at m (T.now e.nic_ctx).0) (pure tt) _ later kept (
              interrupt-Kept (record later { interrupt_mitigation = none })
                (
                  s.0,
                  stable.ends e.enable_interrupt_mitigation e.interrupt_mitigation later.nic_ctx
                      kept.1,
                ))

        go :
            (o : Option InterruptMitigation)
            → Always (IsSound J) (elim o [
              | none ↦ ok tt e
              | some m ↦ elim m.interrupt_after [
                | false ↦ ok tt e
                | true ↦
                    (now >>= λ t.
                    if is_active_at m t
                    then pure tt
                    else (modify (λ e. record e { interrupt_mitigation = none }) >> interrupt))
                      e
              ]
            ])
        go none = s
        go (some m) = woken m m.interrupt_after
