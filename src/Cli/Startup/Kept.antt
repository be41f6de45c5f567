-- ===== src/Cli/Startup/Kept.antt =====
-- src/bin/nic-emu-cli/main.rs up to its polling loop, under the invariant of the device.
use e1000_emu.Prelude.{
  String, zero, suc, Option, none, some, ℕ, refl, Bool, true, false, List, Option, if◌then◌else◌,
}
use e1000_emu.Outcome.{panic, M, pure, or_panic, assert, ◌>>◌, ◌>>=◌}
use e1000_emu.Outcome.Always.{
  Always, Kept, Always-bind, Always-if, Always-or_panic, Always-assert, Always-zoom,
}
use e1000_emu.Packing.{Derive}
use e1000_emu.Eeprom.{set_ethernet_address, pack_initial_eeprom}
use e1000_emu.Device.State.{E1000, InterruptMitigation}
use e1000_emu.Device.State
use e1000_emu.Device.Invariant.Sound.{Always-const}
use e1000_emu.Cli.{Libraries}
use e1000_emu.Cli.Context
use e1000_emu.Cli.Context.{
  Interface, LibvfioUserContext, Host, running, panicked, missing_mapping, unwrapped, host_context,
  host_clock,
}
use e1000_emu.Cli.Server
use e1000_emu.Cli.Server.{
  Reply, or_einval, Request, bar0, bar1, device_reset, serve, reset, produced,
}
use e1000_emu.Cli.Polling.{set_interface}
use e1000_emu.Cli.Polling.Sound.{Sound, set_interface-Kept}
use e1000_emu.Cli.Polling.Sound.{with_context}
use e1000_emu.Cli.Environment.{Environment, Args}
use e1000_emu.Cli.Startup.{
  on_world, unwrap_unit, unwrap_world, run_command, set_up_net, initialize, wait_for_client,
  add_sources, start_up, build, configured, event_key_attach,
}
use e1000_emu.Cli.Polling.{event_key_run, event_key_receive, event_key_timer}

-- A predicate on the world that the calls of starting up keep.
pub record IsStartClosed {W Iface : Type 0} (env : Environment W Iface) (R : W → Type 0)
    : Type 0 where
  pub build : (c : env.Configurator) (w : W) → R w → R (env.build c w).1
  pub produce : (c : env.Config) (w : W) → R w → R (env.produce c w).1
  pub without_packet_info : (name : String) (w : W) → R w → R (env.without_packet_info name w).1
  pub set_non_blocking : (i : Iface) (w : W) → R w → R (env.set_non_blocking i w).1
  pub spawn : (program : String) (args : List String) (w : W) → R w → R (env.spawn program args w).1
  pub wait_child : (child : env.Child) (w : W) → R w → R (env.wait_child child w).1
  pub new_poller : (w : W) → R w → R (env.new_poller w).1
  pub wait : (w : W) → R w → R (env.wait w).1
  pub add_ctx : (key : ℕ) (w : W) → R w → R (env.add_ctx key w).1
  pub modify_ctx : (key : ℕ) (w : W) → R w → R (env.modify_ctx key w).1
  pub add_ctx_edge : (key : ℕ) (w : W) → R w → R (env.add_ctx_edge key w).1
  pub add_interface_edge :
      (i : Iface) (key : ℕ) (w : W) → R w → R (env.add_interface_edge i key w).1
  pub add_timer_edge : (key : ℕ) (w : W) → R w → R (env.add_timer_edge key w).1
  pub new_timer : (w : W) → R w → R (env.new_timer w).1
  pub attach : (w : W) → R w → R (env.attach w).1

bind-Kept :
    {S A B : Type 0} (P : S → Type 0) (m : M S A) (f : A → M S B)
    → Kept P m
    → ((a : A) → Kept P (f a))
    → Kept P (m >>= f)
bind-Kept P m f kept after s h = Always-bind P m f s (kept s h) after

module _ {W Mapping Iface : Type 0} (libraries : Libraries W Mapping Iface) (R : W → Type 0) where
  on_world-Kept :
      {A : Type 0} (f : W → A × W)
      → ((w : W) → R w → R (f w).1)
      → Kept (Sound libraries R) (on_world f)
  unfolding on_world
  on_world-Kept f kept e s = with_context libraries R _ e s λ c h r. (s.0, (kept c.world r.0, r.1))

  unwrap_unit-Kept :
      (f : W → Bool × W) → ((w : W) → R w → R (f w).1) → Kept (Sound libraries R) (unwrap_unit f)
  unwrap_unit-Kept f kept =
      bind-Kept (Sound libraries R) (on_world f) assert (on_world-Kept f kept)
        (λ b e s. Always-assert (Sound libraries R) b e s)

  unwrap_world-Kept :
      {A : Type 0} (f : W → Option A × W)
      → ((w : W) → R w → R (f w).1)
      → Kept (Sound libraries R) (unwrap_world f)
  unwrap_world-Kept f kept =
      bind-Kept (Sound libraries R) (on_world f) or_panic (on_world-Kept f kept)
        (λ o e s. Always-or_panic (Sound libraries R) o e s)

  pub produced-Sound :
      ⦃D : Derive⦄ (mac : List ℕ) (w : W) → R w → Always (Sound libraries R) (produced mac w)
  unfolding produced Server.new State.new Context.new
  produced-Sound mac w r =
      let e : E1000 (Host W Mapping Iface) = Server.new w in
      let e' = record e {
        eeprom = record (e.eeprom) {
          initial_eeprom = set_ethernet_address mac e.eeprom.initial_eeprom;
        };
      } in
      Always-zoom (Sound libraries R) (λ e. e.eeprom) (λ r e. record e { eeprom = r })
        pack_initial_eeprom e'
        (Always-const (pack_initial_eeprom e'.eeprom) (refl, (r, λ mono. tt)))

  module _ (env : Environment W Iface) (start : IsStartClosed env R) where
    run_command-Kept :
        (program : String) (args : List String)
        → Kept (Sound libraries R) (run_command env program args)
    run_command-Kept program args =
        bind-Kept (Sound libraries R) (unwrap_world (env.spawn program args)) _
          (unwrap_world-Kept _ (start.spawn program args))
          (λ child. unwrap_unit-Kept _ (start.wait_child child))

    set_up_net-Kept :
        (net : Option env.IpNet) (i : Iface) → Kept (Sound libraries R) (set_up_net env net i)
    unfolding set_up_net
    set_up_net-Kept none i e s = s
    set_up_net-Kept (some ip_net) i e s =
        bind-Kept (Sound libraries R) (run_command env _ _) _ (run_command-Kept _ _)
          (λ a. run_command-Kept _ _) e s

    initialize-Kept :
        (b : Bool) (tap : String) (net : Option env.IpNet)
        → Kept (Sound libraries R) (initialize env b tap net)
    unfolding initialize
    initialize-Kept b tap net =
        bind-Kept (Sound libraries R) (unwrap_world (env.without_packet_info tap)) _
          (unwrap_world-Kept _ (start.without_packet_info tap))
          λ i.
            bind-Kept (Sound libraries R)
              (if b then unwrap_unit (env.set_non_blocking i) else pure tt) _
              (λ e s.
                Always-if (Sound libraries R) b (unwrap_unit (env.set_non_blocking i)) (pure tt) e
                  (unwrap_unit-Kept _ (start.set_non_blocking i) e s) s)
              λ a.
                bind-Kept (Sound libraries R) (set_up_net env net i) _ (set_up_net-Kept net i)
                  (λ a e s. s)

    wait_for_client-Kept : (fuel : ℕ) → Kept (Sound libraries R) (wait_for_client env fuel)
    unfolding wait_for_client
    wait_for_client-Kept zero e s = tt
    wait_for_client-Kept (suc n) e s =
        bind-Kept (Sound libraries R) (unwrap_unit env.wait >> unwrap_world env.attach) _
          (bind-Kept (Sound libraries R) (unwrap_unit env.wait) _ (unwrap_unit-Kept _ start.wait)
            (λ a. unwrap_world-Kept _ start.attach))
          (λ attached e s. Always-if (Sound libraries R) attached (pure tt) _ e s (
            bind-Kept (Sound libraries R) (unwrap_unit (env.modify_ctx event_key_attach)) _
              (unwrap_unit-Kept _ (start.modify_ctx event_key_attach)) (λ a. wait_for_client-Kept n)
              e s))
          e s

    add_sources-Kept : (i : Interface Iface) → Kept (Sound libraries R) (add_sources env i)
    unfolding add_sources
    add_sources-Kept i =
        let P = Sound libraries R in
        bind-Kept P (unwrap_unit env.new_timer) _ (unwrap_unit-Kept _ start.new_timer) λ a.
          bind-Kept P (unwrap_unit (env.add_ctx_edge event_key_run)) _
            (unwrap_unit-Kept _ (start.add_ctx_edge event_key_run))
            λ a.
              bind-Kept P (unwrap_unit (env.add_interface_edge i.interface event_key_receive)) _
                (unwrap_unit-Kept _ (start.add_interface_edge i.interface event_key_receive))
                λ a. unwrap_unit-Kept _ (start.add_timer_edge event_key_timer)

    pub start_up-Kept :
        (args : Args env.IpNet) (fuel : ℕ) → Kept (Sound libraries R) (start_up env args fuel)
    unfolding start_up
    start_up-Kept args fuel =
        let P = Sound libraries R in
        bind-Kept P (initialize env true args.tap args.net) _
          (initialize-Kept true args.tap args.net)
          λ i. bind-Kept P (set_interface i) _ (set_interface-Kept libraries R i) λ a.
            bind-Kept P (unwrap_unit env.new_poller) _ (unwrap_unit-Kept _ start.new_poller) λ a.
              bind-Kept P (unwrap_unit (env.add_ctx event_key_attach)) _
                (unwrap_unit-Kept _ (start.add_ctx event_key_attach))
                λ a.
                  bind-Kept P (wait_for_client env fuel) _ (wait_for_client-Kept fuel)
                    (λ a. add_sources-Kept i)

    pub build-Sound :
        ⦃D : Derive⦄ (path : String) (mac : List ℕ) (w : W)
        → R w
        → Always (Sound libraries R) (build env path mac w)
    unfolding build
    build-Sound path mac w r =
        go (env.build (configured env path) w) (start.build (configured env path) w r)
      where
        ended :
            (b : Bool) (w : W)
            → R w
            → Always (Sound libraries R) (if b then produced mac w else panic)
        ended true w r = produced-Sound mac w r
        ended false w r = tt

        go :
            (r : Option env.Config × W)
            → R r.1
            → Always (Sound libraries R) (elim r.0 [
              | none ↦ panic
              | some config ↦
                  let (succeeds, w) = env.produce config r.1 in
                  if succeeds then produced mac w else panic
            ])
        go (none, w) k = tt
        go (some config, w) k = ended (env.produce config w).0 _ (start.produce config w k)
