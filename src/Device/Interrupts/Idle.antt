-- ===== src/Device/Interrupts/Idle.antt =====
-- `timer_elapsed` of src/e1000/interrupts.rs: what it leaves of the mitigation.
use e1000_emu.Prelude.{
  ℕ, ◌≡◌, ◌≤◌, refl, Bool, true, false, Option, none, some, le→ltb, ltb, if◌then◌else◌,
}
use e1000_emu.Outcome.{ok, pure, modify, ◌>>=◌, ◌>>◌}
use e1000_emu.Outcome.Always.{Always}
use e1000_emu.Packing.{Derive}
use e1000_emu.NicContext.{NicContext, Clock}
use e1000_emu.Registers.General.{get_itr_interval}
use e1000_emu.Device.State.{E1000, InterruptMitigation}
use e1000_emu.Device.Interrupts.{timer_elapsed, interrupt, now, is_active_at}
use e1000_emu.Device.Interrupts.Laws.{pending, raised, notified, notify, interrupt_lem}

-- No interrupt is put off.
abbrev pub IsIdle : Option InterruptMitigation → Type 0
IsIdle none = Unit {0}
IsIdle (some m) = m.interrupt_after ≡ false

module _ {C : Type 0} ⦃N : NicContext C⦄ ⦃T : Clock C⦄ where
  abbrev Idle : E1000 C → Type 0
  Idle e = IsIdle e.interrupt_mitigation

  raised-IsIdle : (b : Bool) (d : Option ℕ) (c : C) → IsIdle (raised b d c).1
  unfolding raised
  raised-IsIdle false d c = tt
  raised-IsIdle true none c = tt
  raised-IsIdle true (some d) c = refl

  notified-IsIdle :
      (b : Bool) (d : Option ℕ) (o : Option InterruptMitigation) (c : C)
      → o ≡ none
      → IsIdle (notified b d o c).1
  unfolding notified
  notified-IsIdle b d o c h = rw h (raised-IsIdle b d c)

  interrupted-IsIdle :
      (b : Bool) (e : E1000 C) → e.interrupt_mitigation ≡ none → Idle (if b then notify e else e)
  interrupted-IsIdle true e h =
      notified-IsIdle e.enable_interrupt_mitigation (get_itr_interval e.regs.interrupt_throttling)
        e.interrupt_mitigation e.nic_ctx h
  interrupted-IsIdle false e h = rw h tt

  -- What was put off is raised once its mitigation has run out.
  pub timer_elapsed-IsIdle :
      ⦃D : Derive⦄ (e : E1000 C)
      → ((m : InterruptMitigation)
          → e.interrupt_mitigation ≡ some m
          → m.interrupt_after ≡ true
          → m.expiration ≤ (T.now e.nic_ctx).0)
      → Always Idle (timer_elapsed e)
  unfolding timer_elapsed
  timer_elapsed-IsIdle e over = go e.interrupt_mitigation refl
    where
      later : E1000 C
      later = record e { nic_ctx = (T.now e.nic_ctx).1 }

      woken :
          (m : InterruptMitigation) (after : Bool)
          → e.interrupt_mitigation ≡ some m
          → m.interrupt_after ≡ after
          → Always Idle (elim after [
            | false ↦ ok tt e
            | true ↦
                (now >>= λ t.
                if is_active_at m t
                then pure tt
                else (modify (λ e. record e { interrupt_mitigation = none }) >> interrupt))
                  e
          ])
      woken m false h p = rw h p
      woken m true h p =
          let passed : ltb (T.now e.nic_ctx).0 m.expiration ≡ false = le→ltb _ _ (over m h p) in
          rw (passed, interrupt_lem (record later { interrupt_mitigation = none }))
            (interrupted-IsIdle (pending later) (record later { interrupt_mitigation = none }) refl)

      go :
          (o : Option InterruptMitigation)
          → e.interrupt_mitigation ≡ o
          → Always Idle (elim o [
            | none ↦ ok tt e
            | some m ↦ elim m.interrupt_after [
              | false ↦ ok tt e
              | true ↦
                  (now >>= λ t.
                  if is_active_at m t
                  then pure tt
                  else (modify (λ e. record e { interrupt_mitigation = none }) >> interrupt))
                    e
            ]
          ])
      go none h = rw h tt
      go (some m) h = woken m m.interrupt_after h refl
