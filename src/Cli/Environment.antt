-- ===== src/Cli/Environment.antt =====
-- What src/bin/nic-emu-cli/main.rs starts up with: its arguments, and what it calls of other crates
-- before its polling loop.
use e1000_emu.Prelude.{ℕ, ℤ, String, Bool, Option, none, List, [], ◌∷◌}

-- The literals of `PciConfig` and `DeviceRegion` of libvfio_user.
pub record PciConfig : Type 0 where
  pub vendor_id : ℕ
  pub device_id : ℕ
  pub subsystem_vendor_id : ℕ
  pub subsystem_id : ℕ
  pub class_code_base : ℕ
  pub class_code_subclass : ℕ
  pub class_code_programming_interface : ℕ
  pub revision_id : ℕ

pub record DeviceRegion (Kind : Type 0) : Type 0 where
  pub region_type : Kind
  pub size : ℕ
  pub file_descriptor : ℤ
  pub offset : ℕ
  pub read : Bool
  pub write : Bool
  pub memory : Bool

-- What starting up calls of libvfio_user, tun_tap, polling, timerfd and std::process, and the
-- constants and types of theirs that it names. A call that returns a `Result` gives `none` or false
-- for an error.
pub record Environment (W Iface : Type 0) : Type 1 where
  -- `DeviceConfigurator`, and the names it is used with.
  pub Configurator : Type 0
  pub Config : Type 0
  pub PciType : Type 0
  pub DeviceRegionKind : Type 0
  pub InterruptRequestKind : Type 0
  pub pci : PciType
  pub bar0 : DeviceRegionKind
  pub bar1 : DeviceRegionKind
  pub int_x : InterruptRequestKind
  pub msi : InterruptRequestKind
  pub default : Configurator
  pub socket_path : String → Configurator → Configurator
  pub overwrite_socket : Bool → Configurator → Configurator
  pub pci_type : PciType → Configurator → Configurator
  pub pci_config : PciConfig → Configurator → Configurator
  pub add_device_region : DeviceRegion DeviceRegionKind → Configurator → Configurator
  pub using_interrupt_requests : InterruptRequestKind → ℕ → Configurator → Configurator
  pub setup_dma : Bool → Configurator → Configurator
  pub non_blocking : Bool → Configurator → Configurator
  pub build : Configurator → W → Option Config × W
  -- `produce` makes the `DeviceContext` that it passes to `Device::new`.
  pub produce : Config → W → Bool × W
  -- `Iface::without_packet_info` with `Mode::Tap`, `set_non_blocking` and `name`.
  pub without_packet_info : String → W → Option Iface × W
  pub set_non_blocking : Iface → W → Bool × W
  pub name : Iface → String
  pub IpNet : Type 0
  pub to_string : IpNet → String
  -- `spawn` of a command with its arguments, and `wait` for it.
  pub Child : Type 0
  pub spawn : String → List String → W → Option Child × W
  pub wait_child : Child → W → Bool × W
  -- The poller: `new`, `wait`, `modify` of the interest in the context, and the additions in this
  -- order: the context to attach, then with `PollMode::Edge` context, interface and timer.
  pub new_poller : W → Bool × W
  pub wait : W → Bool × W
  pub add_ctx : ℕ → W → Bool × W
  pub modify_ctx : ℕ → W → Bool × W
  pub add_ctx_edge : ℕ → W → Bool × W
  pub add_interface_edge : Iface → ℕ → W → Bool × W
  pub add_timer_edge : ℕ → W → Bool × W
  -- `TimerFd::new_custom(ClockId::Monotonic, true, false)`.
  pub new_timer : W → Bool × W
  -- `DeviceContext::attach`: whether a client has attached.
  pub attach : W → Option Bool × W

-- The arguments of the command, parsed.
pub record Args (IpNet : Type 0) : Type 0 where
  pub socket : String
  pub tap : String
  pub net : Option IpNet
  pub mac : List ℕ
  pub verbose : ℕ

abbrev pub default_args : {IpNet : Type 0} → Args IpNet
default_args = record {
  socket = "/tmp/nic-emu.sock";
  tap = "tap-nic-emu%d";
  net = none;
  mac = 0x02 ∷ 0x34 ∷ 0x56 ∷ 0x78 ∷ 0x9A ∷ 0xBC ∷ [];
  verbose = 0;
}
