-- ===== src/Cli/Polling.antt =====
-- The polling loop of src/bin/nic-emu-cli/main.rs, and `Interface::receive` of net.rs.
pub mod Sound
pub mod Elapsed
pub mod Invariant
pub mod Rounds
pub mod Drain
pub mod Timers
pub mod Events
use e1000_emu.Prelude.{
  ℕ, zero, suc, ◌-◌, Bool, true, false, not, ◌&&◌, Option, none, some, List, [], ◌∷◌, ltb, leb,
  ◌==◌, if◌then◌else◌,
}
use e1000_emu.Outcome.{
  Outcome, ok, err, panic, out_of_fuel, M, pure, gets, modify, panics, or_panic, zoom, ◌>>=◌, ◌>>◌,
}
use e1000_emu.Packing.{Derive}
use e1000_emu.NicContext.{InternetChecksum}
use e1000_emu.Device.State.{E1000}
use e1000_emu.Device.Interrupts.{timer_elapsed}
use e1000_emu.Device.Receive.{receive, is_ready, should_defer}
use e1000_emu.Device.History.{reported}
use e1000_emu.Cli.{Libraries, Received, frame, would_block, io_error}
use e1000_emu.Cli.Context.{
  Interface, LibvfioUserContext, Host, running, panicked, host_context, host_clock,
}
use e1000_emu.Cli.Server.{Request, serve}

-- `TimerState` of the crate timerfd; the duration is in nanoseconds.
pub data TimerState : Type 0 where
  disarmed : TimerState
  oneshot : ℕ → TimerState

-- The device, the timer descriptor, and whether the loop goes on.
pub record Emulator (W Mapping Iface : Type 0) : Type 0 where
  pub e1000 : E1000 (Host W Mapping Iface)
  pub tfd : TimerState
  pub polling : Bool

-- The flags that `main` collects from the events.
pub record Actions : Type 0 where
  pub run : Bool
  pub receive : Bool
  pub timer_elapsed : Bool

abbrev pub event_key_run : ℕ
event_key_run = 1

abbrev pub event_key_receive : ℕ
event_key_receive = 2

abbrev pub event_key_timer : ℕ
event_key_timer = 3

abbrev pub no_actions : Actions
no_actions = record { run = false; receive = false; timer_elapsed = false }

-- `unreachable!` for every other key.
unfoldable pub note_event : ℕ → Actions → Option Actions
note_event key a =
    if key == event_key_run
    then some (record a { run = true; receive = true })
    else if key == event_key_receive
    then some (record a { receive = true })
    else if key == event_key_timer
    then some (record a { timer_elapsed = true })
    else none

unfoldable pub collect : List ℕ → Actions → Option Actions
collect [] a = some a
collect (key ∷ keys) a = elim (note_event key a) [ none ↦ none | some b ↦ collect keys b ]

-- What the poller and libvfio-user bring in one round: the keys of the events, the requests that
-- `ctx.run()` serves, and whether it succeeds.
pub record Round : Type 0 where
  pub events : List ℕ
  pub requests : List Request
  pub succeeds : Bool

-- `checked_duration_since`.
abbrev pub duration_since : ℕ → ℕ → Option ℕ
duration_since later earlier = if leb earlier later then some (later - earlier) else none

abbrev pub state_of : Option ℕ → TimerState
state_of none = disarmed
state_of (some duration) = oneshot duration

module _ {W Mapping Iface : Type 0} where
  -- `e1000.nic_ctx`. If a panic of the context has ended the process, nothing more is done: this is
  -- the error, which leaves the state as it was, with the reason in it.
  abbrev pub context : M (E1000 (Host W Mapping Iface)) (LibvfioUserContext W Mapping Iface)
  context e = elim e.nic_ctx [ running c ↦ ok c e | panicked p ↦ err e ]

  -- A change of `e1000.nic_ctx`.
  abbrev pub set_context :
      LibvfioUserContext W Mapping Iface → M (E1000 (Host W Mapping Iface)) (Unit {0})
  set_context c = modify λ e. record e { nic_ctx = running c }

  unfoldable pub set_interface : Interface Iface → M (E1000 (Host W Mapping Iface)) (Unit {0})
  set_interface interface = do c ← context; set_context (record c { interface = some interface })

  module _ (libraries : Libraries W Mapping Iface) where
    -- `Interface::receive`, and the `unwrap` of its errors.
    unfoldable pub receive_interface :
        Interface Iface
        → LibvfioUserContext W Mapping Iface
        → M (E1000 (Host W Mapping Iface)) (Option (List ℕ))
    receive_interface i c e =
        let (received, w) = libraries.recv i.interface 4096 c.world in
        let e' = record e { nic_ctx = running (record c { world = w }) } in
        elim received [
          | frame bytes ↦ ok (some bytes) e'
          | would_block ↦ ok none e'
          | io_error ↦ panic
        ]

    -- `e1000.nic_ctx.interface.as_ref().unwrap().receive(shared_buffer).unwrap()`.
    unfoldable pub next_frame : M (E1000 (Host W Mapping Iface)) (Option (List ℕ))
    next_frame = do c ← context; i ← or_panic c.interface; receive_interface i c

    unfoldable pub now : M (E1000 (Host W Mapping Iface)) ℕ
    now = do
      c ← context
      let (t, w) = libraries.instant_now c.world
      set_context (record c { world = w })
      pure t

    module _ ⦃D : Derive⦄ where
      -- A frame is dropped while the device is not ready; an error of `receive` is reported.
      unfoldable pub deliver : List ℕ → M (E1000 (Host W Mapping Iface)) (Unit {0})
      deliver bytes e =
          if not (is_ready e.receive_state)
          then ok tt e
          else reported (receive ⦃N = host_context libraries⦄ ⦃T = host_clock libraries⦄ bytes e)

      -- The body of the loop after the read of the interface.
      abbrev pub after_read :
          M (E1000 (Host W Mapping Iface)) (Unit {0})
          → Option (List ℕ)
          → M (E1000 (Host W Mapping Iface)) (Unit {0})
      after_read rest none = pure tt
      after_read rest (some bytes) = deliver bytes >> rest

      -- On fuel, as frames may arrive without end.
      unfoldable pub receive_packets : ℕ → M (E1000 (Host W Mapping Iface)) (Unit {0})
      receive_packets zero e = out_of_fuel
      receive_packets (suc n) e =
          if should_defer e.receive_state
          then ok tt e
          else (next_frame >>= after_read (receive_packets n)) e

      -- The timer is marked as done afterwards.
      unfoldable pub fire : M (E1000 (Host W Mapping Iface)) (Unit {0})
      fire = do
        timer_elapsed ⦃N = host_context libraries⦄ ⦃T = host_clock libraries⦄
        c ← context
        set_context (record c { timer = none })

      -- Nothing is done for a timer that was put off or deleted.
      abbrev pub check_timer : Option ℕ → M (E1000 (Host W Mapping Iface)) (Unit {0})
      check_timer none = pure tt
      check_timer (some instant) = do t ← now; if leb instant t then fire else pure tt

      -- The timer event.
      unfoldable pub on_timer : M (E1000 (Host W Mapping Iface)) (Unit {0})
      on_timer = do c ← context; check_timer c.timer

    -- The time that the timer still has.
    unfoldable pub remaining : Option ℕ → M (E1000 (Host W Mapping Iface)) (Option ℕ)
    remaining none = pure none
    remaining (some change) = do t ← now; pure (duration_since change t)

    -- What `tfd` is set to: the new state, if the timer has changed.
    unfoldable pub update_timer : TimerState → M (E1000 (Host W Mapping Iface)) TimerState
    update_timer tfd = do
      c ← context
      if c.timer_has_changed
          then (do
            duration ← remaining c.timer
            c' ← context
            set_context (record c' { timer_has_changed = false })
            pure (state_of duration))
          else pure tfd

  -- A call on the device.
  abbrev pub on_device :
      {A : Type 0} → M (E1000 (Host W Mapping Iface)) A → M (Emulator W Mapping Iface) A
  on_device m = zoom (λ s. s.e1000) (λ e s. record s { e1000 = e }) m

  module _ (libraries : Libraries W Mapping Iface) ⦃D : Derive⦄ where
    unfoldable pub update_tfd : M (Emulator W Mapping Iface) (Unit {0})
    update_tfd s =
        (on_device (update_timer libraries s.tfd) >>= λ tfd. modify λ s. record s { tfd = tfd }) s

    -- The reads of the interface, the timer event, and the update of the timer.
    unfoldable pub react : ℕ → Actions → M (Emulator W Mapping Iface) (Unit {0})
    react fuel actions = do
      on_device (if actions.receive then receive_packets libraries fuel else pure tt)
      on_device (if actions.timer_elapsed then on_timer libraries else pure tt)
      update_tfd

    module _ ⦃K : InternetChecksum⦄ where
      unfoldable pub serve_all : List Request → M (E1000 (Host W Mapping Iface)) (Unit {0})
      serve_all [] = pure tt
      serve_all (request ∷ requests) = serve libraries request >> serve_all requests

      -- The rest of the round after the events are collected. An error of `ctx.run()` ends the loop
      -- at once.
      unfoldable pub act : ℕ → Round → Actions → M (Emulator W Mapping Iface) (Unit {0})
      act fuel round actions = do
        on_device (if actions.run then serve_all round.requests else pure tt)
        if actions.run && not round.succeeds
            then modify (λ s. record s { polling = false })
            else react fuel actions

      -- One round of the loop; the fuel is for the frames that it reads.
      unfoldable pub poll : ℕ → Round → M (Emulator W Mapping Iface) (Unit {0})
      poll fuel round = do
        actions ← or_panic (collect round.events no_actions)
        act fuel round actions

      unfoldable pub poll_all : ℕ → List Round → M (Emulator W Mapping Iface) (Unit {0})
      poll_all fuel [] s = ok tt s
      poll_all fuel (round ∷ rounds) s =
          if s.polling then (poll fuel round >> poll_all fuel rounds) s else ok tt s
