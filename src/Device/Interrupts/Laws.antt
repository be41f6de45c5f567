-- ===== src/Device/Interrupts/Laws.antt =====
-- `interrupt` of src/e1000/interrupts.rs as a function of the device.
use e1000_emu.Prelude.{
  ℕ, ◌+◌, ◌-◌, ◌≡◌, refl, Bool, true, false, Option, none, some, arith, ltb, if-not, if◌then◌else◌,
}
use e1000_emu.Outcome.{Outcome, ok, ◌>>=◌}
use e1000_emu.Packing.{Derive}
use e1000_emu.NicContext.{NicContext, Clock}
use e1000_emu.Registers.General.{get_itr_interval}
use e1000_emu.Device.State.{E1000, InterruptMitigation}
use e1000_emu.Device.Interrupts.{interrupt, mitigate, trigger, defer, drop_mitigation}
use e1000_emu.Device.Interrupts.Words.{both, any_cause, bit_and-word, packed_word_lem, word-test}

-- A cause is set that the mask lets through.
abbrev pub pending : {C : Type 0} → E1000 C → Bool
pending e = any_cause (both e.regs.interrupt_cause e.regs.interrupt_mask)

-- What an interrupt does to the surroundings and to the mitigation.
module _ {C : Type 0} ⦃N : NicContext C⦄ ⦃T : Clock C⦄ where
  -- It is raised, and mitigation starts if it is enabled for some duration.
  unfoldable pub raised : Bool → Option ℕ → C → C × Option InterruptMitigation
  raised false duration c = (N.trigger_interrupt c, none)
  raised true none c = (N.trigger_interrupt c, none)
  raised true (some d) c =
      let (t, c') = T.now (N.trigger_interrupt c) in
      (c', some (record { expiration = t + d; interrupt_after = false }))

  -- While mitigation is active it is put off, and the timer set for its end, once.
  unfoldable pub put_off : InterruptMitigation → ℕ → C → C × Option InterruptMitigation
  put_off m t c =
      if m.interrupt_after
      then (c, some m)
      else (N.set_timer (m.expiration - t) c, some (record m { interrupt_after = true }))

  unfoldable pub notified :
      Bool → Option ℕ → Option InterruptMitigation → C → C × Option InterruptMitigation
  notified enabled duration none c = raised enabled duration c
  notified enabled duration (some m) c =
      let (t, c') = T.now c in
      if ltb t m.expiration
      then put_off m t c'
      else raised enabled duration (if m.interrupt_after then N.delete_timer c' else c')

  -- The device after an interrupt that is pending.
  abbrev pub notify : E1000 C → E1000 C
  notify e =
      let (c, m) =
        notified e.enable_interrupt_mitigation (get_itr_interval e.regs.interrupt_throttling)
          e.interrupt_mitigation e.nic_ctx in
      record e { nic_ctx = c; interrupt_mitigation = m }

  abbrev pub interrupted : E1000 C → E1000 C
  interrupted e = if pending e then notify e else e

  trigger_lem :
      (e : E1000 C)
      → e.interrupt_mitigation ≡ none
      → trigger e ≡ (
          let (c, m) =
            raised e.enable_interrupt_mitigation
              (get_itr_interval e.regs.interrupt_throttling)
              e.nic_ctx in
          ok tt (record e { nic_ctx = c; interrupt_mitigation = m }))
  unfolding trigger raised
  trigger_lem e h = ground arith

  mitigate_split :
      (o : Option InterruptMitigation) (e : E1000 C)
      → e.interrupt_mitigation ≡ o
      → mitigate o e ≡ (
          let (c, m) =
            notified e.enable_interrupt_mitigation
              (get_itr_interval e.regs.interrupt_throttling)
              o
              e.nic_ctx in
          ok tt (record e { nic_ctx = c; interrupt_mitigation = m }))
  unfolding notified put_off mitigate defer drop_mitigation
  mitigate_split none e h = trigger_lem e h
  mitigate_split (some m) e h =
      let c = (T.now e.nic_ctx).1 in
      ground (
        arith,
        trigger_lem
            (record e {
              nic_ctx = if m.interrupt_after then N.delete_timer c else c;
              interrupt_mitigation = none;
            })
            refl,
      )

  mitigate_lem : (e : E1000 C) → mitigate e.interrupt_mitigation e ≡ ok tt (notify e)
  mitigate_lem e = mitigate_split e.interrupt_mitigation e refl

if-ok :
    {S : Type 0} (b : Bool) (x y : S)
    → ◌≡◌ {A = Outcome S (Unit {0})} (if b then ok tt x else ok tt y) (ok tt (if b then x else y))
if-ok true x y = refl
if-ok false x y = refl

module _ {C : Type 0} ⦃D : Derive⦄ ⦃N : NicContext C⦄ ⦃T : Clock C⦄ where
  -- The test of the packed words comes to: is some cause set and not masked off?
  pub interrupt_lem : (e : E1000 C) → interrupt e ≡ ok tt (interrupted e)
  unfolding interrupt
  interrupt_lem e =
      rw (packed_word_lem e.regs.interrupt_cause e, ◌>>=◌)
        (rw (packed_word_lem e.regs.interrupt_mask e, ◌>>=◌)
          (rw (bit_and-word e.regs.interrupt_cause e.regs.interrupt_mask, word-test)
            (rw (if-not (pending e), mitigate_lem e) (if-ok (pending e) (notify e) e))))
