-- ===== src/Cli/Startup.antt =====
-- src/bin/nic-emu-cli/main.rs from its start to its polling loop, with `E1000Device::build` of
-- e1000.rs and `Interface::initialize` of net.rs: the server, the interface, the wait for a client.
pub mod Kept
pub mod Laws
pub mod Client
use e1000_emu.Prelude.{
  ℕ, zero, suc, negsuc, String, Bool, true, false, Option, none, some, List, [], ◌∷◌, if◌then◌else◌,
}
use e1000_emu.Outcome.{Outcome, ok, err, panic, out_of_fuel, M, pure, or_panic, assert, ◌>>=◌, ◌>>◌}
use e1000_emu.Packing.{Derive}
use e1000_emu.NicContext.{InternetChecksum}
use e1000_emu.Device.State.{E1000}
use e1000_emu.Cli.{Libraries}
use e1000_emu.Cli.Context.{Interface, LibvfioUserContext, Host}
use e1000_emu.Cli.Environment.{PciConfig, DeviceRegion, Environment, Args}
use e1000_emu.Cli.Server.{produced}
use e1000_emu.Cli.Polling.{
  Emulator, Round, disarmed, context, set_context, set_interface, on_device, poll_all,
  event_key_run, event_key_receive, event_key_timer,
}

abbrev pub event_key_attach : ℕ
event_key_attach = 0

abbrev pub e1000_pci_config : PciConfig
e1000_pci_config = record {
  vendor_id = 0x8086;
  device_id = 0x100E;
  subsystem_vendor_id = 0;
  subsystem_id = 0;
  class_code_base = 2;
  class_code_subclass = 0;
  class_code_programming_interface = 0;
  revision_id = 3;
}

module _ {W Iface : Type 0} (env : Environment W Iface) where
  abbrev pub bar0_region : DeviceRegion env.DeviceRegionKind
  bar0_region = record {
    region_type = env.bar0;
    size = 0x20000;
    file_descriptor = negsuc 0;
    offset = 0;
    read = true;
    write = true;
    memory = true;
  }

  abbrev pub bar1_region : DeviceRegion env.DeviceRegionKind
  bar1_region = record {
    region_type = env.bar1;
    size = 0x40;
    file_descriptor = negsuc 0;
    offset = 0;
    read = true;
    write = true;
    memory = false;
  }

  -- The settings that the server is built from, first to last.
  unfoldable pub configured : String → env.Configurator
  configured path =
      let c = env.socket_path path env.default in
      let c = env.pci_type env.pci (env.overwrite_socket true c) in
      let c = env.pci_config e1000_pci_config c in
      let c = env.add_device_region bar1_region (env.add_device_region bar0_region c) in
      let c = env.using_interrupt_requests env.int_x 1 c in
      let c = env.using_interrupt_requests env.msi 1 c in
      env.non_blocking true (env.setup_dma true c)

module _ {W Mapping Iface : Type 0} where
  -- A call that changes only the world.
  unfoldable pub on_world : {A : Type 0} → (W → A × W) → M (E1000 (Host W Mapping Iface)) A
  on_world f = do c ← context; let (a, w) = f c.world; set_context (record c { world = w }); pure a

  -- The same with `.unwrap()`, for a `Result` without and with a value.
  abbrev pub unwrap_unit : (W → Bool × W) → M (E1000 (Host W Mapping Iface)) (Unit {0})
  unwrap_unit f = do b ← on_world f; assert b

  abbrev pub unwrap_world : {A : Type 0} → (W → Option A × W) → M (E1000 (Host W Mapping Iface)) A
  unwrap_world f = do o ← on_world f; or_panic o

  module _ (env : Environment W Iface) where
    abbrev pub run_command : String → List String → M (E1000 (Host W Mapping Iface)) (Unit {0})
    run_command program args = do
      child ← unwrap_world (env.spawn program args)
      unwrap_unit (env.wait_child child)

    -- `--net`: the address is added to the interface, and its link set up.
    unfoldable pub set_up_net :
        Option env.IpNet → Iface → M (E1000 (Host W Mapping Iface)) (Unit {0})
    set_up_net none interface = pure tt
    set_up_net (some ip_net) interface = do
      run_command "ip" ("address" ∷ "add" ∷ env.to_string ip_net ∷ "dev" ∷ env.name interface ∷ [])
      run_command "ip" ("link" ∷ "set" ∷ "up" ∷ env.name interface ∷ [])

    -- `Interface::initialize`.
    unfoldable pub initialize :
        Bool → String → Option env.IpNet → M (E1000 (Host W Mapping Iface)) (Interface Iface)
    initialize non_blocking tap_name net = do
      interface ← unwrap_world (env.without_packet_info tap_name)
      if non_blocking then unwrap_unit (env.set_non_blocking interface) else pure tt
      set_up_net net interface
      pure (record { interface = interface })

    -- On fuel, as a client may never attach. The interest is renewed after each wait without one.
    unfoldable pub wait_for_client : ℕ → M (E1000 (Host W Mapping Iface)) (Unit {0})
    wait_for_client zero e = out_of_fuel
    wait_for_client (suc n) e =
        (unwrap_unit env.wait >> unwrap_world env.attach >>= λ attached.
        if attached
        then pure tt
        else (unwrap_unit (env.modify_ctx event_key_attach) >> wait_for_client n))
          e

    -- The timer descriptor is made, and the context, the interface and the timer are added.
    unfoldable pub add_sources : Interface Iface → M (E1000 (Host W Mapping Iface)) (Unit {0})
    add_sources i = do
      unwrap_unit env.new_timer
      unwrap_unit (env.add_ctx_edge event_key_run)
      unwrap_unit (env.add_interface_edge i.interface event_key_receive)
      unwrap_unit (env.add_timer_edge event_key_timer)

    -- `main` between the building of the device and the polling loop.
    unfoldable pub start_up : Args env.IpNet → ℕ → M (E1000 (Host W Mapping Iface)) (Unit {0})
    start_up args fuel = do
      interface ← initialize true args.tap args.net
      set_interface interface
      unwrap_unit env.new_poller
      unwrap_unit (env.add_ctx event_key_attach)
      wait_for_client fuel
      add_sources interface

    module _ ⦃D : Derive⦄ where
      -- `E1000Device::build`.
      unfoldable pub build : String → List ℕ → W → Outcome (E1000 (Host W Mapping Iface)) (Unit {0})
      build path mac w =
          let (config, w) = env.build (configured env path) w in
          elim config [
            | none ↦ panic
            | some config ↦
                let (succeeds, w) = env.produce config w in
                if succeeds then produced mac w else panic
          ]

      module _ (libraries : Libraries W Mapping Iface) ⦃K : InternetChecksum⦄ where
        -- The loop is entered with the timer disarmed.
        unfoldable pub run :
            Args env.IpNet
            → ℕ
            → ℕ
            → List Round
            → Outcome (E1000 (Host W Mapping Iface)) (Unit {0})
            → Outcome (Emulator W Mapping Iface) (Unit {0})
        run args attach_fuel fuel rounds (ok a e) =
            (on_device (start_up args attach_fuel) >> poll_all libraries fuel rounds)
              (record { e1000 = e; tfd = disarmed; polling = true })
        run args attach_fuel fuel rounds (err e) = panic
        run args attach_fuel fuel rounds panic = panic
        run args attach_fuel fuel rounds out_of_fuel = out_of_fuel

        -- `main`, with fuel for the wait for a client and for the frames of a round, through the
        -- given rounds of the polling loop.
        unfoldable pub main :
            Args env.IpNet → ℕ → ℕ → List Round → W → Outcome (Emulator W Mapping Iface) (Unit {0})
        main args attach_fuel fuel rounds w =
            run args attach_fuel fuel rounds (build args.socket args.mac w)
