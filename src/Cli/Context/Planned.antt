-- ===== src/Cli/Context/Planned.antt =====
-- The timer that src/bin/nic-emu-cli/ctx.rs keeps for the device: while an interrupt is put off, it
-- is set for an instant that is not before the end of the mitigation.
use e1000_emu.Prelude.{
  ℕ, ◌+◌, ◌-◌, ◌≤◌, inl, inr, Bool, true, false, Option, none, some, arith, ltb, if◌then◌else◌,
  Bool-cases,
}
use e1000_emu.Device.State.{InterruptMitigation}
use e1000_emu.Device.Interrupts.Laws.{notified, raised, put_off}
use e1000_emu.Device.Invariant.{IsStable}
use e1000_emu.Cli.{Libraries}
use e1000_emu.Cli.Context.{
  Host, running, panicked, missing_mapping, unwrapped, set_timer, instant_now, delete_timer,
  trigger_interrupt, host_context, host_clock,
}
use e1000_emu.Cli.Context.Invariant.{
  IsMissFree, IsWorldClosed, IsMissFree-IsServed, triggered-IsMissFree, now-IsMissFree,
}

-- `Instant::now()` is monotonic: what it reads next is not earlier.
abbrev pub IsMonotonic : {W Mapping Iface : Type 0} → Libraries W Mapping Iface → Type 0
IsMonotonic {W} {Mapping} {Iface} libraries =
    (w : W) → (libraries.instant_now w).0 ≤ (libraries.instant_now (libraries.instant_now w).1).0

-- The timer is set for an instant that is not before `end`, if it has to be set.
abbrev pub IsSetFor : Bool → ℕ → Option ℕ → Type 0
IsSetFor false end timer = Unit {0}
IsSetFor true end none = ⊥
IsSetFor true end (some instant) = end ≤ instant

abbrev pub IsScheduled : Option InterruptMitigation → Option ℕ → Type 0
IsScheduled none timer = Unit {0}
IsScheduled (some m) timer = IsSetFor m.interrupt_after m.expiration timer

with_fact :
    {W Mapping Iface : Type 0} (libraries : Libraries W Mapping Iface) (R : W → Type 0)
    (closed : IsWorldClosed libraries R) (S : Type 0)
    → IsWorldClosed libraries (λ w. R w × S)
with_fact libraries R closed S = record {
  dma_map = λ address len w h. (closed.dma_map address len w h.0, h.1);
  read_into_volatile =
      λ mapping len offset w h. (closed.read_into_volatile mapping len offset w h.0, h.1);
  write_volatile =
      λ mapping bytes offset w h. (closed.write_volatile mapping bytes offset w h.0, h.1);
  trigger_irq = λ w h. (closed.trigger_irq w h.0, h.1);
  instant_now = λ w h. (closed.instant_now w h.0, h.1);
  send = λ i bytes w h. (closed.send i bytes w h.0, h.1);
}

module _ {W Mapping Iface : Type 0} (libraries : Libraries W Mapping Iface) (R : W → Type 0) where
  -- What holds of the timer and the world under a mitigation.
  abbrev pub Plan : Option InterruptMitigation → Option ℕ → W → Type 0
  Plan o timer w = R w × (IsMonotonic libraries → IsScheduled o timer)

  -- No access has missed a mapping, `R` holds of the world, and with a monotonic clock an interrupt
  -- that is put off is scheduled.
  abbrev pub Planned : Bool → Option InterruptMitigation → Host W Mapping Iface → Type 0
  Planned b o = IsMissFree (Plan o)

  replanned :
      (o o' : Option InterruptMitigation) (b : Bool) (h : Host W Mapping Iface)
      → ((timer : Option ℕ) → IsScheduled o timer → IsScheduled o' timer)
      → Planned b o h
      → Planned b o' h
  replanned o o' b (running c) k f = (f.0, λ mono. k c.timer (f.1 mono))
  replanned o o' b (panicked missing_mapping) k f = f
  replanned o o' b (panicked unwrapped) k f = tt

  module _ (closed : IsWorldClosed libraries R) where
    Plan-closed :
        (o : Option InterruptMitigation) (timer : Option ℕ) → IsWorldClosed libraries (Plan o timer)
    Plan-closed o timer = with_fact libraries R closed (IsMonotonic libraries → IsScheduled o timer)

    now-Planned :
        (b : Bool) (o : Option InterruptMitigation) (h : Host W Mapping Iface)
        → Planned b o h
        → Planned b o (instant_now libraries h).1
    now-Planned b o h f = now-IsMissFree libraries (Plan o) (Plan-closed o) h f

    deleted-Planned :
        (b : Bool) (o : Option InterruptMitigation) (h : Host W Mapping Iface)
        → Planned b o h
        → Planned b none (delete_timer h)
    unfolding delete_timer
    deleted-Planned b o (running c) f = (f.0, λ mono. tt)
    deleted-Planned b o (panicked missing_mapping) f = f
    deleted-Planned b o (panicked unwrapped) f = tt

    raised-Planned :
        (b : Bool) (d : Option ℕ) (h : Host W Mapping Iface)
        → Planned b none h
        → let (h', o) = raised ⦃N = host_context libraries⦄ ⦃T = host_clock libraries⦄ b d h in
          Planned b o h'
    unfolding raised
    raised-Planned false d h f = triggered-IsMissFree libraries (Plan none) (Plan-closed none) h f
    raised-Planned true none h f = triggered-IsMissFree libraries (Plan none) (Plan-closed none) h f
    raised-Planned true (some d) h f =
        let h' = trigger_interrupt libraries h in
        replanned none
          (some (record { expiration = (instant_now libraries h').0 + d; interrupt_after = false }))
          true (instant_now libraries h').1 (λ timer s. tt)
          (now-Planned true none h'
            (triggered-IsMissFree libraries (Plan none) (Plan-closed none) h f))

    -- The timer is set from a second reading of the clock.
    set-Planned :
        (b : Bool) (m : InterruptMitigation) (o : Option InterruptMitigation)
        (h : Host W Mapping Iface)
        → Planned b o h
        → let (t, h') = instant_now libraries h in
          Planned b
            (some (record m { interrupt_after = true }))
            (set_timer libraries (m.expiration - t) h')
    unfolding set_timer instant_now
    set-Planned b m o (running c) f = (
      closed.instant_now (libraries.instant_now c.world).1 (closed.instant_now c.world f.0),
      λ mono. omega (arith, mono c.world),
    )
    set-Planned b m o (panicked missing_mapping) f = f
    set-Planned b m o (panicked unwrapped) f = tt

    -- It is put off while the mitigation lasts.
    put_off-Planned :
        (b : Bool) (m : InterruptMitigation) (h : Host W Mapping Iface)
        → Planned b (some m) h
        → let (t, h') = instant_now libraries h in
          let (h'', o) = put_off ⦃N = host_context libraries⦄ ⦃T = host_clock libraries⦄ m t h' in
          Planned b o h''
    unfolding put_off
    put_off-Planned b m h f = elim (Bool-cases m.interrupt_after) [
      | inl p ↦ simp p (now-Planned b (some m) h f)
      | inr p ↦ simp p (set-Planned b m (some m) h f)
    ]

    dropped-Planned :
        (b after : Bool) (o : Option InterruptMitigation) (h : Host W Mapping Iface)
        → Planned b o h
        → Planned b none (if after then delete_timer h else h)
    dropped-Planned b true o h f = deleted-Planned b o h f
    dropped-Planned b false o h f = replanned o none b h (λ timer s. tt) f

    notified-Planned :
        (b : Bool) (d : Option ℕ) (o : Option InterruptMitigation) (h : Host W Mapping Iface)
        → Planned b o h
        → let (h', o') = notified ⦃N = host_context libraries⦄ ⦃T = host_clock libraries⦄ b d o h in
          Planned b o' h'
    unfolding notified
    notified-Planned b d none h f = raised-Planned b d h f
    notified-Planned b d (some m) h f =
        elim (Bool-cases (ltb (instant_now libraries h).0 m.expiration)) [
          | inl p ↦ simp p (put_off-Planned b m h f)
          | inr p ↦ simp p (
              raised-Planned b d _
                (dropped-Planned b m.interrupt_after (some m) _ (now-Planned b (some m) h f)))
        ]

    pub Planned-IsStable : IsStable (host_context libraries) (host_clock libraries) Planned
    Planned-IsStable = record {
      served = λ b o. IsMissFree-IsServed libraries (Plan o) (Plan-closed o);
      notifies = notified-Planned;
      now = now-Planned;
      ends = λ b o h f. replanned o none b h (λ timer s. tt) f;
      resets = deleted-Planned;
    }
