-- ===== src/Device/Interrupts.antt =====
-- src/e1000/interrupts.rs: raising interrupts, their mitigation, and the reported causes.
pub mod Words
pub mod Laws
pub mod Delivery
pub mod Idle
use e1000_emu.Prelude.{
  ℕ, ◌+◌, ◌-◌, ◌^◌, Bool, true, false, Option, none, some, bit_and, bit_or, ltb, ◌==◌,
  if◌then◌else◌, from_le_bytes, to_le_bytes,
}
use e1000_emu.Outcome.{M, ok, pure, modify, or_panic, ◌>>=◌, ◌>>◌}
use e1000_emu.Packing.{Derive}
use e1000_emu.NicContext.{NicContext, Clock}
use e1000_emu.Registers.General.{InterruptCauses, interrupt_causes, get_itr_interval}
use e1000_emu.Device.State.{E1000, InterruptMitigation, on_ctx}

abbrev pub is_active_at : InterruptMitigation → ℕ → Bool
is_active_at m time = ltb time m.expiration

-- `u32::from_ne_bytes(causes.pack().unwrap())`, on a little endian machine.
unfoldable pub packed_word : {S : Type 0} ⦃D : Derive⦄ → InterruptCauses → M S ℕ
packed_word ⦃D⦄ r = do
  bytes ← or_panic ((D.derive interrupt_causes).pack r)
  pure (from_le_bytes bytes)

-- `InterruptCauses::modify` of src/e1000/registers.rs: the causes after it.
unfoldable pub modify_causes :
    {S : Type 0} ⦃D : Derive⦄ → InterruptCauses → InterruptCauses → Bool → M S InterruptCauses
modify_causes ⦃D⦄ r mask clear = do
  previous_bits ← packed_word r
  mask_bits ← packed_word mask
  let new_bits =
      if clear
      then bit_and previous_bits (2 ^ 32 - 1 - mask_bits)
      else bit_or previous_bits mask_bits
  or_panic ((D.derive interrupt_causes).unpack (to_le_bytes 4 new_bits))

module _ {C : Type 0} where
  abbrev pub with_causes : (InterruptCauses → InterruptCauses) → E1000 C → E1000 C
  with_causes f e = record e {
    regs = record (e.regs) { interrupt_cause = f e.regs.interrupt_cause };
  }

  module _ ⦃T : Clock C⦄ where
    -- `Instant::now()`.
    abbrev pub now : M (E1000 C) ℕ
    now = on_ctx λ c. let (t, c') = T.now c in ok t c'

  module _ ⦃N : NicContext C⦄ ⦃T : Clock C⦄ where
    -- The interrupt itself, and the start of the next mitigation.
    unfoldable pub trigger : M (E1000 C) (Unit {0})
    trigger = do
      modify λ e. record e { nic_ctx = N.trigger_interrupt e.nic_ctx }
      λ e.
          if e.enable_interrupt_mitigation
          then elim (get_itr_interval e.regs.interrupt_throttling) [
            | none ↦ ok tt e
            | some duration ↦
                (now >>= λ t. modify λ e. record e {
                  interrupt_mitigation =
                      some (record { expiration = t + duration; interrupt_after = false });
                })
                  e
          ]
          else ok tt e

    -- While mitigation is active: the timer is set, once.
    unfoldable pub defer : InterruptMitigation → ℕ → E1000 C → E1000 C
    defer m t e = if m.interrupt_after then e else record e {
      nic_ctx = N.set_timer (m.expiration - t) e.nic_ctx;
      interrupt_mitigation = some (record m { interrupt_after = true });
    }

    -- Mitigation that has expired before the timer called.
    unfoldable pub drop_mitigation : InterruptMitigation → E1000 C → E1000 C
    drop_mitigation m e = record e {
      nic_ctx = if m.interrupt_after then N.delete_timer e.nic_ctx else e.nic_ctx;
      interrupt_mitigation = none;
    }

    -- An interrupt that the mask lets through.
    unfoldable pub mitigate : Option InterruptMitigation → M (E1000 C) (Unit {0})
    mitigate none = trigger
    mitigate (some m) = do
      t ← now
      if is_active_at m t then modify (defer m t) else (modify (drop_mitigation m) >> trigger)

    module _ ⦃D : Derive⦄ where
      unfoldable pub interrupt : M (E1000 C) (Unit {0})
      interrupt = do
        cause ← λ e. packed_word e.regs.interrupt_cause e
        mask ← λ e. packed_word e.regs.interrupt_mask e
        λ e. if bit_and cause mask == 0 then ok tt e else mitigate e.interrupt_mitigation e

      -- The timer that `defer` set has run out.
      unfoldable pub timer_elapsed : M (E1000 C) (Unit {0})
      timer_elapsed e = elim e.interrupt_mitigation [
        | none ↦ ok tt e
        | some m ↦ elim m.interrupt_after [
          | false ↦ ok tt e
          | true ↦
              (now >>= λ t.
              if is_active_at m t
              then pure tt
              else (modify (λ e. record e { interrupt_mitigation = none }) >> interrupt))
                e
        ]
      ]

      unfoldable pub report_txdw_and_txqe : M (E1000 C) (Unit {0})
      report_txdw_and_txqe =
          modify (with_causes λ r. record r { txdw = true; txqe = true }) >> interrupt

      unfoldable pub report_txqe : M (E1000 C) (Unit {0})
      report_txqe = modify (with_causes λ r. record r { txqe = true }) >> interrupt

      unfoldable pub report_lsc : M (E1000 C) (Unit {0})
      report_lsc = modify (with_causes λ r. record r { lsc = true }) >> interrupt

      unfoldable pub report_rxt0 : M (E1000 C) (Unit {0})
      report_rxt0 = modify (with_causes λ r. record r { rxt0 = true }) >> interrupt

      unfoldable pub report_mdac : M (E1000 C) (Unit {0})
      report_mdac = modify (with_causes λ r. record r { mdac = true }) >> interrupt
