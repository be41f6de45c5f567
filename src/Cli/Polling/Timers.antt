-- ===== src/Cli/Polling/Timers.antt =====
-- The timer between the device and src/bin/nic-emu-cli/main.rs: an interrupt that is put off, the
-- update of the timer after it, and the event of the timer.
use e1000_emu.Prelude.{
  ℕ, ◌+◌, ◌-◌, ◌≤◌, ◌<◌, ◌≡◌, refl, ◌∙◌, Bool, true, false, Option, none, some, arith, lt→ltb, ltb,
  leb, if◌then◌else◌,
}
use e1000_emu.Outcome.{ok, M, pure, bind-ok, ◌>>=◌, ◌>>◌}
use e1000_emu.Packing.{Derive}
use e1000_emu.Registers.General.{get_itr_interval}
use e1000_emu.Device.State.{E1000, InterruptMitigation}
use e1000_emu.Device.Interrupts.{interrupt, timer_elapsed}
use e1000_emu.Device.Interrupts.Laws.{
  pending, interrupted, interrupt_lem, notified, put_off, raised,
}
use e1000_emu.Cli.{Libraries}
use e1000_emu.Cli.Context.{
  LibvfioUserContext, Host, running, host_context, host_clock, set_timer, instant_now, counted,
  trigger_interrupt,
}
use e1000_emu.Cli.Polling.{
  TimerState, oneshot, disarmed, context, set_context, update_timer, remaining, now, state_of,
  on_timer, fire,
}

state_of-if :
    (b : Bool) (d : ℕ) → state_of (if b then some d else none) ≡ (if b then oneshot d else disarmed)
state_of-if true d = refl
state_of-if false d = refl

module _ {W Mapping Iface : Type 0} (libraries : Libraries W Mapping Iface) ⦃D : Derive⦄ where
  -- `interrupt` in the emulator.
  abbrev interrupts_host : M (E1000 (Host W Mapping Iface)) (Unit {0})
  interrupts_host = interrupt ⦃N = host_context libraries⦄ ⦃T = host_clock libraries⦄

  put_off_lem :
      (e : E1000 (Host W Mapping Iface)) (c : LibvfioUserContext W Mapping Iface)
      (m : InterruptMitigation) (t0 t1 : ℕ) (w1 w2 : W)
      → e.nic_ctx ≡ running c
      → e.interrupt_mitigation ≡ some m
      → m.interrupt_after ≡ false
      → pending e ≡ true
      → libraries.instant_now c.world ≡ (t0, w1)
      → t0 < m.expiration
      → libraries.instant_now w1 ≡ (t1, w2)
      → interrupts_host e
        ≡ ok tt (record e {
          nic_ctx = running (record c {
            world = w2;
            timer = some (t1 + (m.expiration - t0));
            timer_has_changed = true;
          });
          interrupt_mitigation = some (record m { interrupt_after = true });
        })
  unfolding notified put_off set_timer instant_now
  put_off_lem e c m t0 t1 w1 w2 h mitigated early p n0 before n1 =
      interrupt_lem ⦃N = host_context libraries⦄ ⦃T = host_clock libraries⦄ e
      ∙ rw (p, h, mitigated, n0, lt→ltb t0 m.expiration before, early) (rw n1 refl)

  -- When a pending cause is put off, the update of the timer that follows arms `tfd` for the time
  -- that is left to the deadline, the end of the mitigation as `set_timer` counts it from its own
  -- reading of the clock, or disarms it if the deadline has passed by then; the timer that the
  -- context asks for is the deadline in both cases. Taken are an active mitigation that has not put
  -- off an interrupt so far, and three readings of the clock one after the other.
  pub interrupt-update_timer :
      (e : E1000 (Host W Mapping Iface)) (c : LibvfioUserContext W Mapping Iface)
      (m : InterruptMitigation) (tfd : TimerState) (t0 t1 t2 : ℕ) (w1 w2 w3 : W)
      → e.nic_ctx ≡ running c
      → e.interrupt_mitigation ≡ some m
      → m.interrupt_after ≡ false
      → pending e ≡ true
      → libraries.instant_now c.world ≡ (t0, w1)
      → t0 < m.expiration
      → libraries.instant_now w1 ≡ (t1, w2)
      → libraries.instant_now w2 ≡ (t2, w3)
      → let deadline = t1 + (m.expiration - t0) in
        (interrupts_host >> update_timer libraries tfd) e
        ≡ ok (if leb t2 deadline then oneshot (deadline - t2) else disarmed) (record e {
          nic_ctx =
              running (record c { world = w3; timer = some deadline; timer_has_changed = false });
          interrupt_mitigation = some (record m { interrupt_after = true });
        })
  unfolding update_timer remaining now
  interrupt-update_timer e c m tfd t0 t1 t2 w1 w2 w3 h mitigated early p n0 before n1 n2 =
      bind-ok interrupts_host (λ x. update_timer libraries tfd)
        (put_off_lem e c m t0 t1 w1 w2 h mitigated early p n0 before n1)
      ∙ rw n2 (
          rw (state_of-if (leb t2 (t1 + (m.expiration - t0))) (t1 + (m.expiration - t0) - t2)) refl)

  -- The process runs, and has raised one interrupt more.
  abbrev pub HasRaised : LibvfioUserContext W Mapping Iface → Host W Mapping Iface → Type 0
  HasRaised c h =
      (c' : LibvfioUserContext W Mapping Iface) × (h ≡ running c')
      × (c'.interrupt_count ≡ counted c.interrupt_count 1)

  raised-HasRaised :
      (enabled : Bool) (d : Option ℕ) (c : LibvfioUserContext W Mapping Iface) (w : W)
      → libraries.trigger_irq c.world ≡ (true, w)
      → HasRaised c
          (raised ⦃N = host_context libraries⦄ ⦃T = host_clock libraries⦄ enabled d (running c)).0
  unfolding raised trigger_interrupt instant_now
  raised-HasRaised false d c w h =
      rw h (record c { world = w; interrupt_count = counted c.interrupt_count 1 }, refl, refl)
  raised-HasRaised true none c w h =
      rw h (record c { world = w; interrupt_count = counted c.interrupt_count 1 }, refl, refl)
  raised-HasRaised true (some d) c w h = rw h (
    record c { world = (libraries.instant_now w).1; interrupt_count = counted c.interrupt_count 1 },
    refl,
    refl,
  )

  -- `interrupt` with a cause pending and no mitigation.
  notify-HasRaised :
      (e : E1000 (Host W Mapping Iface)) (c : LibvfioUserContext W Mapping Iface) (w : W)
      → e.nic_ctx ≡ running c
      → e.interrupt_mitigation ≡ none
      → pending e ≡ true
      → libraries.trigger_irq c.world ≡ (true, w)
      → (e' : E1000 (Host W Mapping Iface)) × (interrupts_host e ≡ ok tt e')
        × HasRaised c e'.nic_ctx
  unfolding notified
  notify-HasRaised e c w h unmitigated p triggered = (
    interrupted ⦃N = host_context libraries⦄ ⦃T = host_clock libraries⦄ e,
    interrupt_lem ⦃N = host_context libraries⦄ ⦃T = host_clock libraries⦄ e,
    rw (p, unmitigated, h)
        (raised-HasRaised e.enable_interrupt_mitigation
          (get_itr_interval e.regs.interrupt_throttling) c w triggered),
  )

  timer_elapsed_lem :
      (e : E1000 (Host W Mapping Iface)) (c : LibvfioUserContext W Mapping Iface)
      (m : InterruptMitigation) (t : ℕ) (w : W)
      → e.nic_ctx ≡ running c
      → e.interrupt_mitigation ≡ some m
      → m.interrupt_after ≡ true
      → libraries.instant_now c.world ≡ (t, w)
      → m.expiration ≤ t
      → timer_elapsed ⦃N = host_context libraries⦄ ⦃T = host_clock libraries⦄ e
        ≡ interrupts_host
            (record e { nic_ctx = running (record c { world = w }); interrupt_mitigation = none })
  unfolding timer_elapsed instant_now
  timer_elapsed_lem e c m t w h mitigated late n over =
      let ended : ltb t m.expiration ≡ false = ground (arith, over) in
      rw (timer_elapsed, mitigated, late, h, n, ended) refl

  fire_lem :
      (e e' : E1000 (Host W Mapping Iface)) (c : LibvfioUserContext W Mapping Iface)
      → timer_elapsed ⦃N = host_context libraries⦄ ⦃T = host_clock libraries⦄ e ≡ ok tt e'
      → e'.nic_ctx ≡ running c
      → fire libraries e ≡ ok tt (record e' { nic_ctx = running (record c { timer = none }) })
  unfolding fire
  fire_lem e e' c h k =
      bind-ok (timer_elapsed ⦃N = host_context libraries⦄ ⦃T = host_clock libraries⦄)
        (λ x. context >>= λ c. set_context (record c { timer = none })) h
      ∙ rw k refl

  on_timer_lem :
      (e : E1000 (Host W Mapping Iface)) (c : LibvfioUserContext W Mapping Iface) (instant t : ℕ)
      (w : W)
      → e.nic_ctx ≡ running c
      → c.timer ≡ some instant
      → libraries.instant_now c.world ≡ (t, w)
      → on_timer libraries e
        ≡ (if leb instant t then fire libraries else pure tt)
            (record e { nic_ctx = running (record c { world = w }) })
  unfolding on_timer now
  on_timer_lem e c instant t w h timer n = rw (h, timer, n) refl

  -- When the event of the timer comes at or after its deadline and the clock then reads no less than
  -- the end of the mitigation that put an interrupt off, `main` raises exactly one interrupt and
  -- marks the timer as done, if a cause is still pending that is not masked and libvfio-user raises
  -- it without an error.
  pub on_timer-HasRaised :
      (e : E1000 (Host W Mapping Iface)) (c : LibvfioUserContext W Mapping Iface)
      (m : InterruptMitigation) (instant t0 t1 : ℕ) (w1 w2 w3 : W)
      → e.nic_ctx ≡ running c
      → c.timer ≡ some instant
      → e.interrupt_mitigation ≡ some m
      → m.interrupt_after ≡ true
      → pending e ≡ true
      → libraries.instant_now c.world ≡ (t0, w1)
      → instant ≤ t0
      → libraries.instant_now w1 ≡ (t1, w2)
      → m.expiration ≤ t1
      → libraries.trigger_irq w2 ≡ (true, w3)
      → (e' : E1000 (Host W Mapping Iface)) × (c' : LibvfioUserContext W Mapping Iface) × (on_timer
            libraries e
          ≡ ok tt e')
        × (e'.nic_ctx ≡ running c')
        × (c'.interrupt_count ≡ counted c.interrupt_count 1)
        × (c'.timer ≡ none)
  on_timer-HasRaised e c m instant t0 t1 w1 w2 w3 h timer mitigated late p n0 due n1 over
        triggered =
      let c1 = record c { world = w1 } in
      let c2 = record c { world = w2 } in
      let e1 = record e { nic_ctx = running c1 } in
      let e2 = record e { nic_ctx = running c2; interrupt_mitigation = none } in
      let (e3, r, once) = notify-HasRaised e2 c2 w3 refl refl p triggered in
      let elapsed = timer_elapsed_lem e1 c1 m t1 w2 refl mitigated late n1 over in
      let is_due : leb instant t0 ≡ true = ground (arith, due) in
      (
        record e3 { nic_ctx = running (record (once.0) { timer = none }) },
        record (once.0) { timer = none },
        on_timer_lem e c instant t0 w1 h timer n0
            ∙ (rw is_due refl ∙ fire_lem e1 e3 once.0 (elapsed ∙ r) once.1),
        refl,
        once.2,
        refl,
      )
