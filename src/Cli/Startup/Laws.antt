-- ===== src/Cli/Startup/Laws.antt =====
-- src/bin/nic-emu-cli/main.rs as a whole: what holds from its start on.
use e1000_emu.Prelude.{ℕ, true, List, Option}
use e1000_emu.Outcome.{Outcome, ok, err, panic, out_of_fuel}
use e1000_emu.Outcome.Always.{Always, Always-bind, Always-weaken}
use e1000_emu.Packing.{Derive}
use e1000_emu.NicContext.{InternetChecksum}
use e1000_emu.Device.State.{E1000, InterruptMitigation}
use e1000_emu.Cli.{Libraries}
use e1000_emu.Cli.Context.{Host, running, panicked, missing_mapping, unwrapped}
use e1000_emu.Cli.Context.Planned.{IsMonotonic, IsScheduled, Plan}
use e1000_emu.Cli.Context.Invariant.{IsMissFree, IsWorldClosed}
use e1000_emu.Cli.Polling.{disarmed, Round, on_device, poll_all}
use e1000_emu.Cli.Polling.Sound.{Sound}
use e1000_emu.Cli.Polling.Rounds.{SoundEmulator, on_device-Kept, poll_all-Kept}
use e1000_emu.Cli.Environment.{Environment, Args}
use e1000_emu.Cli.Startup.{start_up, build, run, main}
use e1000_emu.Cli.Startup.Kept.{IsStartClosed, start_up-Kept, build-Sound}

module _ {W Mapping Iface : Type 0} (libraries : Libraries W Mapping Iface) (R : W → Type 0)
    (closed : IsWorldClosed libraries R)
    (read : (i : Iface) (n : ℕ) (w : W) → R w → R (libraries.recv i n w).1)
    (env : Environment W Iface) (start : IsStartClosed env R) ⦃D : Derive⦄
    ⦃K : InternetChecksum⦄ where
  run-Sound :
      (args : Args env.IpNet) (attach_fuel fuel : ℕ) (rounds : List Round)
      (o : Outcome (E1000 (Host W Mapping Iface)) (Unit {0}))
      → Always (Sound libraries R) o
      → Always
          (SoundEmulator libraries R closed read)
          (run env libraries args attach_fuel fuel rounds o)
  unfolding run
  run-Sound args attach_fuel fuel rounds (ok a e) s =
      Always-bind (SoundEmulator libraries R closed read)
        (on_device (start_up env args attach_fuel)) (λ a. poll_all libraries fuel rounds)
        (record { e1000 = e; tfd = disarmed; polling = true })
        (on_device-Kept libraries R closed read (start_up env args attach_fuel)
          (start_up-Kept libraries R env start args attach_fuel)
          (record { e1000 = e; tfd = disarmed; polling = true }) s)
        (λ a s h. poll_all-Kept libraries R closed read fuel rounds s h)
  run-Sound args attach_fuel fuel rounds (err e) s = tt
  run-Sound args attach_fuel fuel rounds panic s = tt
  run-Sound args attach_fuel fuel rounds out_of_fuel s = tt

  main-Sound :
      (args : Args env.IpNet) (attach_fuel fuel : ℕ) (rounds : List Round) (w : W)
      → R w
      → Always
          (SoundEmulator libraries R closed read)
          (main env libraries args attach_fuel fuel rounds w)
  unfolding main
  main-Sound args attach_fuel fuel rounds w r =
      run-Sound args attach_fuel fuel rounds (build env args.socket args.mac w)
        (build-Sound libraries R env start args.socket args.mac w r)

  -- In the emulator, from its start on and through any rounds of the polling loop, no access to the
  -- guest's memory misses a mapping, so that the `expect` of a mapping never ends the process; and
  -- every predicate on the world that holds at first and that the calls of the libraries keep, those
  -- of starting up too, holds as long as the process runs. This is so in every state in which the
  -- emulator stands, one in which a panic of its context has ended the process included, whatever
  -- the code of the device makes of an access that did not take place; of a panic of the device's
  -- own code nothing is said.
  pub main-IsMissFree :
      (args : Args env.IpNet) (attach_fuel fuel : ℕ) (rounds : List Round) (w : W)
      → R w
      → Always
          (λ s. IsMissFree (λ t. R) s.e1000.nic_ctx)
          (main env libraries args attach_fuel fuel rounds w)
  main-IsMissFree args attach_fuel fuel rounds w r =
      Always-weaken (main env libraries args attach_fuel fuel rounds w)
        (λ s h. planned-IsMissFree s.e1000.interrupt_mitigation s.e1000.nic_ctx h.1)
        (main-Sound args attach_fuel fuel rounds w r)
    where
      planned-IsMissFree :
          (o : Option InterruptMitigation) (h : Host W Mapping Iface)
          → IsMissFree (Plan libraries R o) h
          → IsMissFree (λ t. R) h
      planned-IsMissFree o (running c) f = f.0
      planned-IsMissFree o (panicked missing_mapping) f = f
      planned-IsMissFree o (panicked unwrapped) f = tt

-- A mitigation is scheduled, as long as the process runs.
abbrev pub IsScheduledIn :
    {W Mapping Iface : Type 0} → Option InterruptMitigation → Host W Mapping Iface → Type 0
IsScheduledIn o (running c) = IsScheduled o c.timer
IsScheduledIn o (panicked p) = Unit {0}

module _ {W Mapping Iface : Type 0} (libraries : Libraries W Mapping Iface)
    (env : Environment W Iface) ⦃D : Derive⦄ ⦃K : InternetChecksum⦄ where
  always_true : IsWorldClosed libraries (λ w. Unit {0})
  always_true = record {
    dma_map = λ address len w h. tt;
    read_into_volatile = λ mapping len offset w h. tt;
    write_volatile = λ mapping bytes offset w h. tt;
    trigger_irq = λ w h. tt;
    instant_now = λ w h. tt;
    send = λ i bytes w h. tt;
  }

  always_starts : IsStartClosed env (λ w. Unit {0})
  always_starts = record {
    build = λ c w h. tt;
    produce = λ c w h. tt;
    without_packet_info = λ name w h. tt;
    set_non_blocking = λ i w h. tt;
    spawn = λ program args w h. tt;
    wait_child = λ child w h. tt;
    new_poller = λ w h. tt;
    wait = λ w h. tt;
    add_ctx = λ key w h. tt;
    modify_ctx = λ key w h. tt;
    add_ctx_edge = λ key w h. tt;
    add_interface_edge = λ i key w h. tt;
    add_timer_edge = λ key w h. tt;
    new_timer = λ w h. tt;
    attach = λ w h. tt;
  }

  -- With a monotonic clock, from its start on and through any rounds of the polling loop, whatever
  -- the guest does, as long as the process runs, the field `timer` of the context is set whenever an
  -- interrupt is put off, and for an instant that is not before the end of its mitigation. Of the
  -- descriptor of the timer, which is armed from that field, nothing is said.
  pub main-IsScheduledIn :
      IsMonotonic libraries
      → (args : Args env.IpNet) (attach_fuel fuel : ℕ) (rounds : List Round) (w : W)
      → Always
          (λ s. IsScheduledIn s.e1000.interrupt_mitigation s.e1000.nic_ctx)
          (main env libraries args attach_fuel fuel rounds w)
  main-IsScheduledIn mono args attach_fuel fuel rounds w =
      Always-weaken (main env libraries args attach_fuel fuel rounds w)
        (λ s h. planned s.e1000.interrupt_mitigation s.e1000.nic_ctx h.1)
        (main-Sound libraries (λ w. Unit {0}) always_true (λ i n w h. tt) env always_starts args
          attach_fuel fuel rounds w tt)
    where
      planned :
          (o : Option InterruptMitigation) (h : Host W Mapping Iface)
          → IsMissFree (Plan libraries (λ w. Unit {0}) o) h
          → IsScheduledIn o h
      planned o (running c) f = f.1 mono
      planned o (panicked missing_mapping) f = tt
      planned o (panicked unwrapped) f = tt
