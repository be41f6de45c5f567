-- ===== src/Cli/Polling/Elapsed.antt =====
-- The timer event of src/bin/nic-emu-cli/main.rs: nothing is put off any more once the timer that was
-- set has run out.
use e1000_emu.Prelude.{
  ℕ, ◌≤◌, ◌≡◌, refl, sym, subst, true, arith, Bool-cases, inl, inr, Option, none, some, leb,
}
use e1000_emu.Outcome.{ok, M, ◌>>=◌}
use e1000_emu.Outcome.Always.{Always, Kept, Always-both, Always-given, Always-then}
use e1000_emu.Packing.{Derive}
use e1000_emu.Device.State.{E1000, InterruptMitigation}
use e1000_emu.Device.Interrupts.{timer_elapsed}
use e1000_emu.Device.Interrupts.Idle.{IsIdle, timer_elapsed-IsIdle}
use e1000_emu.Device.Invariant.{IsStable}
use e1000_emu.Device.Invariant.Sound.{timer_elapsed-Kept}
use e1000_emu.Cli.{Libraries}
use e1000_emu.Cli.Context.{LibvfioUserContext, Host, running, instant_now, host_context, host_clock}
use e1000_emu.Cli.Context.Invariant.{IsWorldClosed}
use e1000_emu.Cli.Context.Planned.{IsMonotonic, IsSetFor, IsScheduled, Planned, Planned-IsStable}
use e1000_emu.Cli.Polling.{now, on_timer, check_timer, fire}
use e1000_emu.Cli.Polling.Sound.{Sound, Planning, with_context}

module _ {W Mapping Iface : Type 0} (libraries : Libraries W Mapping Iface) (R : W → Type 0)
    (closed : IsWorldClosed libraries R) ⦃D : Derive⦄ where
  stable : IsStable (host_context libraries) (host_clock libraries) (Planned libraries R)
  stable = Planned-IsStable libraries R closed

  -- The mitigation of an interrupt that is put off has run out.
  abbrev Overdue : E1000 (Host W Mapping Iface) → Type 0
  Overdue e =
      IsMonotonic libraries
      → (m : InterruptMitigation) → e.interrupt_mitigation ≡ some m
      → m.interrupt_after ≡ true
      → m.expiration ≤ (instant_now libraries e.nic_ctx).0

  idle-IsScheduled : (o : Option InterruptMitigation) → IsIdle o → IsScheduled o none
  idle-IsScheduled none h = tt
  idle-IsScheduled (some m) h = subst (λ b. IsSetFor b m.expiration none) (sym h) tt

  fire-Sound :
      (e : E1000 (Host W Mapping Iface))
      → Sound libraries R e
      → Overdue e
      → Always (Sound libraries R) (fire libraries e)
  unfolding fire
  fire-Sound e s over =
      let elapsed : M (E1000 (Host W Mapping Iface)) (Unit {0}) =
        timer_elapsed ⦃N = host_context libraries⦄ ⦃T = host_clock libraries⦄ in
      let Rested : E1000 (Host W Mapping Iface) → Type 0 =
        λ e. Sound libraries R e × (IsMonotonic libraries → IsIdle e.interrupt_mitigation) in
      Always-then Rested (Sound libraries R) elapsed _ e
        (Always-both (Sound libraries R)
          (λ e. IsMonotonic libraries → IsIdle e.interrupt_mitigation) (elapsed e)
          (timer_elapsed-Kept ⦃N = host_context libraries⦄ ⦃T = host_clock libraries⦄
            (Planned libraries R) stable e s)
          (Always-given (λ e. IsIdle e.interrupt_mitigation) (elapsed e)
            λ mono.
              timer_elapsed-IsIdle ⦃N = host_context libraries⦄ ⦃T = host_clock libraries⦄ e
                (over mono)))
        (λ e h. h.0)
        (λ a e h.
          with_context libraries R _ e h.0
            λ c x r. (h.0.0, (r.0, λ mono. idle-IsScheduled e.interrupt_mitigation (h.1 mono))))

  -- The timer is set for no instant before the end of the mitigation.
  due :
      (o : Option InterruptMitigation) (m : InterruptMitigation) (instant : ℕ)
      → o ≡ some m
      → m.interrupt_after ≡ true
      → IsScheduled o (some instant)
      → m.expiration ≤ instant
  due o m instant h p f =
      subst (λ b. IsSetFor b m.expiration (some instant)) p
        (subst (λ o. IsScheduled o (some instant)) h f)

  passed : (end instant t t' : ℕ) → end ≤ instant → leb instant t ≡ true → t ≤ t' → end ≤ t'
  passed end instant t t' h k l = ground arith

  now_lem :
      (e : E1000 (Host W Mapping Iface)) (c : LibvfioUserContext W Mapping Iface)
      → e.nic_ctx ≡ running c
      → let (t, w) = libraries.instant_now c.world in
        now libraries e ≡ ok t (record e { nic_ctx = running (record c { world = w }) })
  unfolding now
  now_lem e c h = rw h refl

  pub on_timer-Kept : Kept (Sound libraries R) (on_timer libraries)
  unfolding on_timer instant_now
  on_timer-Kept e s = with_context libraries R _ e s λ c h r. go c h r c.timer refl
    where
      go :
          (c : LibvfioUserContext W Mapping Iface)
          → e.nic_ctx ≡ running c
          → Planning libraries R e c
          → (o : Option ℕ) → c.timer ≡ o
          → Always (Sound libraries R) (check_timer libraries o e)
      go c h r none p = s
      go c h r (some instant) p =
          let (t, w) = libraries.instant_now c.world in
          let e' = record e { nic_ctx = running (record c { world = w }) } in
          let s' : Sound libraries R e' = (s.0, (closed.instant_now c.world r.0, r.1)) in
          let over : leb instant t ≡ true → Overdue e' = λ z mono m x y.
            let early : m.expiration ≤ instant =
              due e.interrupt_mitigation m instant x y
                (subst (IsScheduled e.interrupt_mitigation) p (r.1 mono)) in
            passed m.expiration instant t _ early z (mono c.world) in
          rw (now_lem e c h, ◌>>=◌)
            (elim (Bool-cases (leb instant t)) [
              | inl z ↦ rw z (fire-Sound e' s' (over z))
              | inr z ↦ rw z s'
            ])
