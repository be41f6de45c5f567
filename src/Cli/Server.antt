-- ===== src/Cli/Server.antt =====
-- src/bin/nic-emu-cli/e1000.rs: the device as libvfio-user calls it. `E1000Device` is the device in
-- the context of the emulator; the rest of
-- `build` is in Cli.Startup.
pub mod Laws
use e1000_emu.Prelude.{ℕ, Bool, true, List}
use e1000_emu.Outcome.{Outcome, ok, err, panic, out_of_fuel, M, pure, modify, zoom, ◌>>◌}
use e1000_emu.Packing.{Derive}
use e1000_emu.NicContext.{InternetChecksum}
use e1000_emu.Eeprom.{set_ethernet_address, pack_initial_eeprom}
use e1000_emu.Device.State.{E1000}
use e1000_emu.Device.State
use e1000_emu.Device.Control.{reset_e1000}
use e1000_emu.Device.Regions
use e1000_emu.Cli.{Libraries}
use e1000_emu.Cli.Context.{Host, running, host_context, host_clock}
use e1000_emu.Cli.Context

-- `Result<usize, i32>`, beside the buffer after the access.
pub data Reply : Type 0 where
  done : ℕ → List ℕ → Reply
  errno : ℕ → Reply

-- `or_else`.
abbrev pub or_einval : {S : Type 0} → Outcome S (ℕ × List ℕ) → Outcome S Reply
or_einval (ok (n, bytes) e) = ok (done n bytes) e
or_einval (err e) = ok (errno 22) e
or_einval panic = panic
or_einval out_of_fuel = out_of_fuel

-- What a client asks for.
pub data Request : Type 0 where
  bar0 : ℕ → List ℕ → Bool → Request
  bar1 : ℕ → List ℕ → Bool → Request
  device_reset : Request

module _ {W Mapping Iface : Type 0} where
  unfoldable pub new : W → E1000 (Host W Mapping Iface)
  new ctx = State.new (running (Context.new ctx)) true

  module _ (libraries : Libraries W Mapping Iface) where
    unfoldable pub reset : E1000 (Host W Mapping Iface) → E1000 (Host W Mapping Iface)
    reset = reset_e1000 ⦃N = host_context libraries⦄

    module _ ⦃D : Derive⦄ ⦃K : InternetChecksum⦄ where
      unfoldable pub region_access_bar0 : ℕ → List ℕ → Bool → M (E1000 (Host W Mapping Iface)) Reply
      region_access_bar0 offset bytes write e = or_einval (
          Regions.region_access_bar0 ⦃N = host_context libraries⦄ ⦃T = host_clock libraries⦄ offset
            bytes write e)

      unfoldable pub region_access_bar1 : ℕ → List ℕ → Bool → M (E1000 (Host W Mapping Iface)) Reply
      region_access_bar1 offset bytes write e = or_einval (
          Regions.region_access_bar1 ⦃N = host_context libraries⦄ ⦃T = host_clock libraries⦄ offset
            bytes write e)

      -- The call that libvfio-user makes for a request. The reply goes to the client.
      unfoldable pub serve : Request → M (E1000 (Host W Mapping Iface)) (Unit {0})
      serve (bar0 offset bytes write) = region_access_bar0 offset bytes write >> pure tt
      serve (bar1 offset bytes write) = region_access_bar1 offset bytes write >> pure tt
      serve device_reset = modify reset

  module _ ⦃D : Derive⦄ where
    -- What `build` makes of the device that the server has produced.
    unfoldable pub produced : List ℕ → W → Outcome (E1000 (Host W Mapping Iface)) (Unit {0})
    produced mac ctx =
        let e = new ctx in
        zoom (λ e. e.eeprom) (λ r e. record e { eeprom = r }) pack_initial_eeprom
          (record e {
            eeprom = record (e.eeprom) {
              initial_eeprom = set_ethernet_address mac e.eeprom.initial_eeprom;
            };
          })
