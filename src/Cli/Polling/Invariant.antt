-- ===== src/Cli/Polling/Invariant.antt =====
-- The calls on the device in src/bin/nic-emu-cli/main.rs, under the invariant of the device.
use e1000_emu.Prelude.{ℕ, zero, suc, not, Option, none, some, List, [], ◌∷◌}
use e1000_emu.Outcome.{Outcome, ok, err, panic, out_of_fuel, M, or_panic, ◌>>=◌}
use e1000_emu.Outcome.Always.{Always, Kept, Always-bind, Always-if, Always-either}
use e1000_emu.Packing.{Derive}
use e1000_emu.NicContext.{InternetChecksum}
use e1000_emu.Device.State.{E1000}
use e1000_emu.Device.Receive.{is_ready, should_defer}
use e1000_emu.Device.History.{Always-reported}
use e1000_emu.Device.Invariant.{IsStable}
use e1000_emu.Device.Invariant.Parts.{receive-Kept, reset_e1000-Sound}
use e1000_emu.Device.Invariant.Access.{region_access_bar0-Kept, region_access_bar1-Kept}
use e1000_emu.Cli.{Libraries, Received, frame, would_block, io_error}
use e1000_emu.Cli.Context.{Interface, LibvfioUserContext, Host, running, host_context, host_clock}
use e1000_emu.Cli.Context.Invariant.{IsWorldClosed}
use e1000_emu.Cli.Context.Planned.{Planned, Planned-IsStable}
use e1000_emu.Cli.Server
use e1000_emu.Cli.Server.{Reply, or_einval, Request, bar0, bar1, device_reset, serve, reset}
use e1000_emu.Cli.Polling.{
  TimerState, receive_interface, next_frame, now, deliver, receive_packets, after_read, remaining,
  update_timer, serve_all,
}
use e1000_emu.Cli.Polling.Sound.{Sound, Planning, with_context}

module _ {W Mapping Iface : Type 0} (libraries : Libraries W Mapping Iface) (R : W → Type 0)
    (closed : IsWorldClosed libraries R)
    (read : (i : Iface) (n : ℕ) (w : W) → R w → R (libraries.recv i n w).1) where
  stable : IsStable (host_context libraries) (host_clock libraries) (Planned libraries R)
  stable = Planned-IsStable libraries R closed

  or_einval-Sound :
      (o : Outcome (E1000 (Host W Mapping Iface)) (ℕ × List ℕ))
      → Always (Sound libraries R) o
      → Always (Sound libraries R) (or_einval o)
  or_einval-Sound (ok r e) s = s
  or_einval-Sound (err e) s = s
  or_einval-Sound panic s = tt
  or_einval-Sound out_of_fuel s = tt

  receive_interface-Sound :
      (i : Interface Iface) (c : LibvfioUserContext W Mapping Iface)
      (e : E1000 (Host W Mapping Iface))
      → Sound libraries R e
      → Planning libraries R e c
      → Always (Sound libraries R) (receive_interface libraries i c e)
  unfolding receive_interface
  receive_interface-Sound i c e s r =
      go (libraries.recv i.interface 4096 c.world) (read i.interface 4096 c.world r.0)
    where
      go :
          (p : Received × W)
          → R p.1
          → Always (Sound libraries R) (
              let e' = record e { nic_ctx = running (record c { world = p.1 }) } in
              elim p.0 [
                | frame bytes ↦ ok (some bytes) e'
                | would_block ↦ ok none e'
                | io_error ↦ panic
              ])
      go (frame bytes, w) k = (s.0, (k, r.1))
      go (would_block, w) k = (s.0, (k, r.1))
      go (io_error, w) k = tt

  next_frame-Kept : Kept (Sound libraries R) (next_frame libraries)
  unfolding next_frame
  next_frame-Kept e s = with_context libraries R _ e s λ c h r. go c r c.interface
    where
      go :
          (c : LibvfioUserContext W Mapping Iface)
          → Planning libraries R e c
          → (o : Option (Interface Iface))
          → Always (Sound libraries R) ((or_panic o >>= λ i. receive_interface libraries i c) e)
      go c r none = tt
      go c r (some i) = receive_interface-Sound i c e s r

  now-Sound : Kept (Sound libraries R) (now libraries)
  unfolding now
  now-Sound e s =
      with_context libraries R _ e s λ c h r. (s.0, (closed.instant_now c.world r.0, r.1))

  remaining-Kept : (o : Option ℕ) → Kept (Sound libraries R) (remaining libraries o)
  unfolding remaining
  remaining-Kept none e s = s
  remaining-Kept (some change) e s =
      Always-bind (Sound libraries R) (now libraries) _ e (now-Sound e s) (λ t e s. s)

  pub update_timer-Kept : (tfd : TimerState) → Kept (Sound libraries R) (update_timer libraries tfd)
  unfolding update_timer
  update_timer-Kept tfd e s = with_context libraries R _ e s λ c h r.
      Always-if (Sound libraries R) c.timer_has_changed _ _ e
        (Always-bind (Sound libraries R) (remaining libraries c.timer) _ e
          (remaining-Kept c.timer e s)
          (λ d e s. with_context libraries R _ e s (λ c h r. (s.0, r))))
        s

  module _ ⦃D : Derive⦄ where
    deliver-Kept : (bytes : List ℕ) → Kept (Sound libraries R) (deliver libraries bytes)
    unfolding deliver
    deliver-Kept bytes e s =
        Always-either (Sound libraries R) (not (is_ready e.receive_state)) (ok tt e) _ s (
          Always-reported (Sound libraries R) _ (
            receive-Kept ⦃N = host_context libraries⦄ ⦃T = host_clock libraries⦄
              (Planned libraries R) stable bytes e s))

    after_read-Kept :
        (rest : M (E1000 (Host W Mapping Iface)) (Unit {0}))
        → Kept (Sound libraries R) rest
        → (o : Option (List ℕ)) → Kept (Sound libraries R) (after_read libraries rest o)
    after_read-Kept rest kept none e s = s
    after_read-Kept rest kept (some bytes) e s =
        Always-bind (Sound libraries R) (deliver libraries bytes) _ e (deliver-Kept bytes e s)
          (λ a e s. kept e s)

    pub receive_packets-Kept :
        (fuel : ℕ) → Kept (Sound libraries R) (receive_packets libraries fuel)
    unfolding receive_packets
    receive_packets-Kept zero e s = tt
    receive_packets-Kept (suc n) e s =
        Always-either (Sound libraries R) (should_defer e.receive_state) (ok tt e) _ s (
          Always-bind (Sound libraries R) (next_frame libraries) _ e (next_frame-Kept e s)
            (after_read-Kept (receive_packets libraries n) (receive_packets-Kept n)))

    module _ ⦃K : InternetChecksum⦄ where
      serve-Kept : (request : Request) → Kept (Sound libraries R) (serve libraries request)
      unfolding serve Server.region_access_bar0 Server.region_access_bar1 reset
      serve-Kept (bar0 offset bytes write) e s =
          Always-bind (Sound libraries R) (Server.region_access_bar0 libraries offset bytes write) _
            e
            (or_einval-Sound _ (
              region_access_bar0-Kept ⦃N = host_context libraries⦄ ⦃T = host_clock libraries⦄
                (Planned libraries R) stable offset bytes write e s))
            (λ a e s. s)
      serve-Kept (bar1 offset bytes write) e s =
          Always-bind (Sound libraries R) (Server.region_access_bar1 libraries offset bytes write) _
            e
            (or_einval-Sound _ (
              region_access_bar1-Kept ⦃N = host_context libraries⦄ ⦃T = host_clock libraries⦄
                (Planned libraries R) stable offset bytes write e s))
            (λ a e s. s)
      serve-Kept device_reset e s =
          reset_e1000-Sound ⦃N = host_context libraries⦄ ⦃T = host_clock libraries⦄
            (Planned libraries R) stable e s

      pub serve_all-Kept :
          (requests : List Request) → Kept (Sound libraries R) (serve_all libraries requests)
      unfolding serve_all
      serve_all-Kept [] e s = s
      serve_all-Kept (request ∷ requests) e s =
          Always-bind (Sound libraries R) (serve libraries request) _ e (serve-Kept request e s)
            (λ a e s. serve_all-Kept requests e s)
