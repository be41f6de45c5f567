-- ===== src/Cli/Polling/Rounds.antt =====
-- The polling loop of src/bin/nic-emu-cli/main.rs: what holds in every round.
use e1000_emu.Prelude.{ℕ, Bool, false, not, ◌&&◌, List, [], ◌∷◌, if◌then◌else◌}
use e1000_emu.Outcome.{ok, M, pure, modify, or_panic, ◌>>◌}
use e1000_emu.Outcome.Always.{
  Kept, Always-bind, Always-if, Always-either, Always-or_panic, Always-zoom,
}
use e1000_emu.Packing.{Derive}
use e1000_emu.NicContext.{InternetChecksum}
use e1000_emu.Device.State.{E1000}
use e1000_emu.Cli.{Libraries}
use e1000_emu.Cli.Context.{Host}
use e1000_emu.Cli.Context.Invariant.{IsWorldClosed}
use e1000_emu.Cli.Polling.{
  Emulator, Actions, Round, receive_packets, on_timer, update_timer, on_device, update_tfd,
  serve_all, act, react, poll, poll_all, collect, no_actions,
}
use e1000_emu.Cli.Polling.Sound.{Sound}
use e1000_emu.Cli.Polling.Elapsed.{on_timer-Kept}
use e1000_emu.Cli.Polling.Invariant.{update_timer-Kept, receive_packets-Kept, serve_all-Kept}

module _ {W Mapping Iface : Type 0} (libraries : Libraries W Mapping Iface) (R : W → Type 0)
    (closed : IsWorldClosed libraries R)
    (read : (i : Iface) (n : ℕ) (w : W) → R w → R (libraries.recv i n w).1) ⦃D : Derive⦄
    ⦃K : InternetChecksum⦄ where
  abbrev pub SoundEmulator : Emulator W Mapping Iface → Type 0
  SoundEmulator s = Sound libraries R s.e1000

  pub on_device-Kept :
      {A : Type 0} (m : M (E1000 (Host W Mapping Iface)) A)
      → Kept (Sound libraries R) m
      → Kept SoundEmulator (on_device m)
  on_device-Kept m kept s h =
      Always-zoom SoundEmulator (λ s. s.e1000) (λ e s. record s { e1000 = e }) m s (kept s.e1000 h)

  -- A part of the round that is done if its flag is set.
  if-Kept :
      (b : Bool) (m : M (E1000 (Host W Mapping Iface)) (Unit {0}))
      → Kept (Sound libraries R) m
      → Kept SoundEmulator (on_device (if b then m else pure tt))
  if-Kept b m kept =
      on_device-Kept _ (λ e s. Always-if (Sound libraries R) b m (pure tt) e (kept e s) s)

  update_tfd-Kept : Kept SoundEmulator (update_tfd libraries)
  unfolding update_tfd
  update_tfd-Kept s h =
      Always-bind SoundEmulator (on_device (update_timer libraries s.tfd)) _ s
        (on_device-Kept _ (update_timer-Kept libraries R closed read s.tfd) s h) (λ tfd s h. h)

  react-Kept : (fuel : ℕ) (a : Actions) → Kept SoundEmulator (react libraries fuel a)
  unfolding react
  react-Kept fuel a s h =
      let S = SoundEmulator in
      Always-bind S (on_device (if a.receive then receive_packets libraries fuel else pure tt))
        (λ x.
          on_device (if a.timer_elapsed then on_timer libraries else pure tt)
          >> update_tfd libraries)
        s (if-Kept a.receive _ (receive_packets-Kept libraries R closed read fuel) s h)
        λ x s h.
          Always-bind S (on_device (if a.timer_elapsed then on_timer libraries else pure tt))
            (λ x. update_tfd libraries) s
            (if-Kept a.timer_elapsed _ (on_timer-Kept libraries R closed) s h)
            (λ x s h. update_tfd-Kept s h)

  act-Kept :
      (fuel : ℕ) (round : Round) (a : Actions) → Kept SoundEmulator (act libraries fuel round a)
  unfolding act
  act-Kept fuel round a s h =
      let S = SoundEmulator in
      Always-bind S (on_device (if a.run then serve_all libraries round.requests else pure tt))
        (λ x.
          if a.run && not round.succeeds
          then modify (λ s. record s { polling = false })
          else react libraries fuel a)
        s (if-Kept a.run _ (serve_all-Kept libraries R closed read round.requests) s h)
        λ x s h.
          Always-if S (a.run && not round.succeeds) (modify (λ s. record s { polling = false }))
            (react libraries fuel a) s h (react-Kept fuel a s h)

  poll-Kept : (fuel : ℕ) (round : Round) → Kept SoundEmulator (poll libraries fuel round)
  unfolding poll
  poll-Kept fuel round s h =
      Always-bind SoundEmulator (or_panic (collect round.events no_actions)) _ s
        (Always-or_panic SoundEmulator (collect round.events no_actions) s h)
        (λ a s h. act-Kept fuel round a s h)

  pub poll_all-Kept :
      (fuel : ℕ) (rounds : List Round) → Kept SoundEmulator (poll_all libraries fuel rounds)
  unfolding poll_all
  poll_all-Kept fuel [] s h = h
  poll_all-Kept fuel (round ∷ rounds) s h =
      Always-either SoundEmulator s.polling _ (ok tt s)
        (Always-bind SoundEmulator (poll libraries fuel round) _ s (poll-Kept fuel round s h)
          (λ a s h. poll_all-Kept fuel rounds s h))
        h
