-- ===== src/Cli.antt =====
-- The command line emulator of src/bin/nic-emu-cli: the device in a libvfio-user server, with a tap
-- interface and a timer. What it calls of the crates libvfio_user, tun_tap and timerfd and of the
-- clock is `Libraries`.
pub mod Context
pub mod Server
pub mod Polling
pub mod Logging
pub mod Environment
pub mod Startup
use e1000_emu.Prelude.{ℕ, Bool, List, Option}

-- What a read of a tap interface gives.
pub data Received : Type 0 where
  frame : List ℕ → Received
  would_block : Received
  io_error : Received

-- `W` is the state of the world, `Mapping` is `DmaMapping`, and `Iface` a tap interface. A call that
-- returns a `Result` returns `none` or false for an error.
pub record Libraries (W Mapping Iface : Type 0) : Type 0 where
  -- `DeviceContext::dma_map` of address and length, one region to be read and written.
  pub dma_map : ℕ → ℕ → W → Option Mapping × W
  -- `DmaMapping::region_length(0)`.
  pub region_length : Mapping → ℕ
  -- `DmaMapping::read_into_volatile(0, buffer, offset)`: the bytes for a buffer of that length.
  pub read_into_volatile : Mapping → ℕ → ℕ → W → Option (List ℕ) × W
  pub write_volatile : Mapping → List ℕ → ℕ → W → Bool × W
  -- `DeviceContext::trigger_irq(0)`.
  pub trigger_irq : W → Bool × W
  -- `Instant::now()`, in nanoseconds from some start.
  pub instant_now : W → ℕ × W
  -- `Iface::send`, the number of bytes sent.
  pub send : Iface → List ℕ → W → Option ℕ × W
  -- `Iface::recv` into a buffer of that length.
  pub recv : Iface → ℕ → W → Received × W
  -- What a buffer holds that was not read, and the number of bytes of a packet that was not sent,
  -- because the process had ended: any values, which no code of the process gets to see.
  pub unread : ℕ → List ℕ
  pub unsent : List ℕ → Option ℕ
