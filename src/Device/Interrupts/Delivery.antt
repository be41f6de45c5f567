-- ===== src/Device/Interrupts/Delivery.antt =====
-- Interrupts of src/e1000/interrupts.rs as the surroundings see them: how often one is raised, with
-- and without mitigation.
use e1000_emu.Prelude.{
  ℕ, zero, suc, ◌+◌, ◌-◌, ◌≤◌, ◌<◌, ◌≡◌, refl, sym, ap, subst, ◌∙◌, ◌⊎◌, inl, inr, Bool, true,
  false, Option, none, some, arith, lt→ltb, if◌then◌else◌, Bool-cases,
}
use e1000_emu.Outcome.{ok, M, pure, ◌>>=◌, ◌>>◌}
use e1000_emu.Packing.{Derive}
use e1000_emu.NicContext.{NicContext, Clock}
use e1000_emu.Registers.General.{get_itr_interval}
use e1000_emu.Device.State.{E1000, InterruptMitigation}
use e1000_emu.Device.Interrupts.{interrupt, timer_elapsed}
use e1000_emu.Device.Interrupts.Laws.{
  pending, raised, put_off, notified, notify, interrupted, interrupt_lem,
}

-- A count of the interrupts raised so far. The other calls do not change it.
pub record InterruptCount (C : Type 0) (N : NicContext C) (T : Clock C) : Type 0 where
  pub count : C → ℕ
  pub count-trigger : (c : C) → count (N.trigger_interrupt c) ≡ count c + 1
  pub count-set_timer : (d : ℕ) (c : C) → count (N.set_timer d c) ≡ count c
  pub count-delete_timer : (c : C) → count (N.delete_timer c) ≡ count c
  pub count-now : (c : C) → count (T.now c).1 ≡ count c

-- Surroundings that stand for `k` more readings of the clock below `end`: each reading takes one of
-- them away, and setting the timer takes at most one.
pub record IsBefore {C : Type 0} (N : NicContext C) (T : Clock C) (end : ℕ) (E : ℕ → C → Type 0)
    : Type 0 where
  pub reads : (k : ℕ) (c : C) → E (suc k) c → (T.now c).0 < end
  pub after_now : (k : ℕ) (c : C) → E (suc k) c → E k (T.now c).1
  pub after_set_timer : (k d : ℕ) (c : C) → E (suc k) c → E k (N.set_timer d c)
  pub weaken : (k : ℕ) (c : C) → E (suc k) c → E k c

-- An interrupt is put off until the timer runs out.
abbrev pub deferred : Option InterruptMitigation → Bool
deferred none = false
deferred (some m) = m.interrupt_after

-- `interrupt`, n times.
abbrev pub interrupts :
    {C : Type 0} ⦃D : Derive⦄ ⦃N : NicContext C⦄ ⦃T : Clock C⦄ → ℕ → M (E1000 C) (Unit {0})
interrupts zero = pure tt
interrupts (suc n) = interrupt >> interrupts n

module _ {C : Type 0} ⦃N : NicContext C⦄ ⦃T : Clock C⦄ (I : InterruptCount C N T) where
  open I use {count, count-trigger, count-set_timer, count-delete_timer, count-now}

  count-raised :
      (enabled : Bool) (d : Option ℕ) (c : C) → count (raised enabled d c).0 ≡ count c + 1
  unfolding raised
  count-raised false d c = count-trigger c
  count-raised true none c = count-trigger c
  count-raised true (some d) c = count-now (N.trigger_interrupt c) ∙ count-trigger c

  count-put_off : (m : InterruptMitigation) (t : ℕ) (c : C) → count (put_off m t c).0 ≡ count c
  unfolding put_off
  count-put_off m t c = ground (arith, count-set_timer (m.expiration - t) c)

  deferred-put_off : (m : InterruptMitigation) (t : ℕ) (c : C) → deferred (put_off m t c).1 ≡ true
  unfolding put_off
  deferred-put_off m t c = ground arith

  count-notified :
      (enabled : Bool) (d : Option ℕ) (o : Option InterruptMitigation) (c : C)
      → let (c', o') = notified enabled d o c in
        (count c' ≡ count c + 1) ⊎ ((count c' ≡ count c) × (deferred o' ≡ true))
  unfolding notified
  count-notified enabled d none c = inl (count-raised enabled d c)
  count-notified enabled d (some m) c =
      let t = (T.now c).0 in
      let c' = (T.now c).1 in
      ground (
        arith,
        count-now c,
        count-put_off m t c',
        deferred-put_off m t c',
        count-delete_timer c',
        count-raised enabled d c',
        count-raised enabled d (N.delete_timer c'),
      )

  -- If a cause is pending that is not masked, `interrupt` returns, and either it raised exactly one
  -- interrupt or it raised none and noted that one is to follow when the mitigation ends.
  pub interrupt-not_lost :
      ⦃D : Derive⦄ (e : E1000 C)
      → pending e ≡ true
      → (e' : E1000 C) × (interrupt e ≡ ok tt e')
        × ((count e'.nic_ctx ≡ count e.nic_ctx + 1)
            ⊎ ((count e'.nic_ctx ≡ count e.nic_ctx) × (deferred e'.interrupt_mitigation ≡ true)))
  interrupt-not_lost e h = (
    notify e,
    interrupt_lem e ∙ rw h refl,
    count-notified e.enable_interrupt_mitigation (get_itr_interval e.regs.interrupt_throttling)
        e.interrupt_mitigation e.nic_ctx,
  )

  timer_elapsed-expired :
      ⦃D : Derive⦄ (o : Option InterruptMitigation) (e : E1000 C) (m : InterruptMitigation)
      → e.interrupt_mitigation ≡ some m
      → m.interrupt_after ≡ true
      → m.expiration ≤ (T.now e.nic_ctx).0
      → timer_elapsed e
        ≡ interrupt (record e { nic_ctx = (T.now e.nic_ctx).1; interrupt_mitigation = none })
  unfolding timer_elapsed
  timer_elapsed-expired o e m h p q = ground (arith, h, p)

  -- When the timer runs out at the end of a mitigation that put an interrupt off, exactly one
  -- interrupt is raised, if a cause is still pending that is not masked.
  pub timer_elapsed-raises :
      ⦃D : Derive⦄ (e : E1000 C) (m : InterruptMitigation)
      → e.interrupt_mitigation ≡ some m
      → m.interrupt_after ≡ true
      → m.expiration ≤ (T.now e.nic_ctx).0
      → pending e ≡ true
      → (e' : E1000 C) × (timer_elapsed e ≡ ok tt e') × (count e'.nic_ctx ≡ count e.nic_ctx + 1)
  unfolding notified
  timer_elapsed-raises e m h p q r =
      let woken = record e { nic_ctx = (T.now e.nic_ctx).1; interrupt_mitigation = none } in
      (
        notify woken,
        timer_elapsed-expired none e m h p q ∙ (interrupt_lem woken ∙ rw r refl),
        count-raised e.enable_interrupt_mitigation (get_itr_interval e.regs.interrupt_throttling)
              woken.nic_ctx
            ∙ ap (λ (n : ℕ). n + 1) (count-now e.nic_ctx),
      )

  -- The budget of readings for `n` calls: the timer is set at most once.
  abbrev pub readings : ℕ → Bool → ℕ
  readings n true = n
  readings n false = suc n

  notified-early :
      (enabled : Bool) (d : Option ℕ) (n : ℕ) (m : InterruptMitigation) (E : ℕ → C → Type 0) (c : C)
      → IsBefore N T m.expiration E
      → E (readings (suc n) m.interrupt_after) c
      → let (c', o) = notified enabled d (some m) c in
        (m' : InterruptMitigation) × (o ≡ some m')
        × (m'.expiration ≡ m.expiration)
        × (count c' ≡ count c)
        × E (readings n m'.interrupt_after) c'
  unfolding notified put_off
  notified-early enabled d n m E c b h =
      let c' = (T.now c).1 in
      elim (Bool-cases m.interrupt_after) [
        | inl p ↦
            let left : E (suc n) c = subst (λ k. E (readings (suc n) k) c) p h in
            let early = lt→ltb _ _ (b.reads n c left) in
            simp (early, p)
              (
                m,
                refl,
                refl,
                count-now c,
                subst (λ k. E (readings n k) c') (sym p) (b.after_now n c left),
              )
        | inr p ↦
            let left : E (suc (suc n)) c = subst (λ k. E (readings (suc n) k) c) p h in
            let early = lt→ltb _ _ (b.reads (suc n) c left) in
            let wait = m.expiration - (T.now c).0 in
            simp (early, p)
              (
                record m { interrupt_after = true },
                refl,
                refl,
                count-set_timer wait c' ∙ count-now c,
                b.after_set_timer n wait c' (b.after_now (suc n) c left),
              )
      ]

  weaken_readings :
      (n : ℕ) (after : Bool) (end : ℕ) (E : ℕ → C → Type 0) (c : C)
      → IsBefore N T end E
      → E (readings (suc n) after) c
      → E (readings n after) c
  weaken_readings n true end E c b h = b.weaken n c h
  weaken_readings n false end E c b h = b.weaken (suc n) c h

  interrupted-early :
      (n : ℕ) (e : E1000 C) (m : InterruptMitigation) (E : ℕ → C → Type 0)
      → e.interrupt_mitigation ≡ some m
      → IsBefore N T m.expiration E
      → E (readings (suc n) m.interrupt_after) e.nic_ctx
      → (m' : InterruptMitigation) × ((interrupted e).interrupt_mitigation ≡ some m')
        × (m'.expiration ≡ m.expiration)
        × (count (interrupted e).nic_ctx ≡ count e.nic_ctx)
        × E (readings n m'.interrupt_after) (interrupted e).nic_ctx
  interrupted-early n e m E h before early = elim (Bool-cases (pending e)) [
    | inl p ↦ rw p (
        rw h (
          notified-early e.enable_interrupt_mitigation
            (get_itr_interval e.regs.interrupt_throttling) n m E e.nic_ctx before early))
    | inr p ↦ rw p (
      m,
      h,
      refl,
      refl,
      weaken_readings n m.interrupt_after m.expiration E e.nic_ctx before early,
    )
  ]

  interrupts-early :
      ⦃D : Derive⦄ (n : ℕ) (e : E1000 C) (m : InterruptMitigation) (E : ℕ → C → Type 0)
      → e.interrupt_mitigation ≡ some m
      → IsBefore N T m.expiration E
      → E (readings n m.interrupt_after) e.nic_ctx
      → (e' : E1000 C) × (interrupts n e ≡ ok tt e')
        × (count e'.nic_ctx ≡ count e.nic_ctx)
        × ((m' : InterruptMitigation) × (e'.interrupt_mitigation ≡ some m')
            × (m'.expiration ≡ m.expiration))
  interrupts-early zero e m E h before early = (e, refl, refl, (m, h, refl))
  interrupts-early (suc n) e m E h before early =
      let (m', h', x, k, early') = interrupted-early n e m E h before early in
      let (e', r, k', end) =
        interrupts-early n (interrupted e) m' E h' (subst (λ t. IsBefore N T t E) (sym x) before)
          early' in
      (e', rw (interrupt_lem e, ◌>>=◌) r, k' ∙ k, (end.0, end.1, end.2 ∙ x))

  enough_readings :
      (n : ℕ) (after : Bool) (end : ℕ) (E : ℕ → C → Type 0) (c : C)
      → IsBefore N T end E
      → E (suc n) c
      → E (readings n after) c
  enough_readings n true end E c b h = b.weaken n c h
  enough_readings n false end E c b h = h

  -- While mitigation is active, `n` calls of `interrupt` raise no interrupt and do not move its end,
  -- and each of them returns, if the surroundings stand for `n + 1` readings of the clock below that
  -- end; the calls read the clock at most once each, and at most one of them sets the timer, for
  -- which the one more is.
  pub interrupts_mitigated :
      ⦃D : Derive⦄ (n : ℕ) (e : E1000 C) (m : InterruptMitigation) (E : ℕ → C → Type 0)
      → e.interrupt_mitigation ≡ some m
      → IsBefore N T m.expiration E
      → E (suc n) e.nic_ctx
      → (e' : E1000 C) × (interrupts n e ≡ ok tt e')
        × (count e'.nic_ctx ≡ count e.nic_ctx)
        × ((m' : InterruptMitigation) × (e'.interrupt_mitigation ≡ some m')
            × (m'.expiration ≡ m.expiration))
  interrupts_mitigated n e m E h before early =
      interrupts-early n e m E h before
        (enough_readings n m.interrupt_after m.expiration E e.nic_ctx before early)

notify_unmitigated :
    {C : Type 0} ⦃N : NicContext C⦄ ⦃T : Clock C⦄ (e : E1000 C)
    → e.enable_interrupt_mitigation ≡ false
    → e.interrupt_mitigation ≡ none
    → notify e ≡ record e { nic_ctx = N.trigger_interrupt e.nic_ctx }
unfolding notified raised
notify_unmitigated e h p = ground arith

-- With mitigation disabled and none active, `interrupt` raises an interrupt exactly if a cause is
-- pending that is not masked, sets no timer and starts no mitigation.
pub interrupt_unmitigated :
    {C : Type 0} ⦃D : Derive⦄ ⦃N : NicContext C⦄ ⦃T : Clock C⦄ (e : E1000 C)
    → e.enable_interrupt_mitigation ≡ false
    → e.interrupt_mitigation ≡ none
    → interrupt e
      ≡ ok tt (if pending e then record e { nic_ctx = N.trigger_interrupt e.nic_ctx } else e)
interrupt_unmitigated e h p =
    interrupt_lem e ∙ ap (λ x. ok tt (if pending e then x else e)) (notify_unmitigated e h p)
