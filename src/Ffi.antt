-- ===== src/Ffi.antt =====
-- The C interface of src/ffi.rs: the callbacks as surroundings of the device, and the exported
-- functions. A C object is the state `P` that the callbacks get by `private_ptr`; a buffer is the
-- list of its bytes.
pub mod Laws
pub mod Answers
use e1000_emu.Prelude.{
  ℕ, ◌+◌, ◌%◌, ◌^◌, Bool, true, false, Option, none, some, List, [], ◌∷◌, length, replicate, ◌==◌,
  if◌then◌else◌,
}
use e1000_emu.Outcome.{Outcome, ok, err, panic, out_of_fuel, M, pure, modify, zoom, ◌>>=◌, ◌>>◌}
use e1000_emu.Packing.{Derive}
use e1000_emu.NicContext.{NicContext, Clock, InternetChecksum}
use e1000_emu.Eeprom.{set_ethernet_address, pack_initial_eeprom}
use e1000_emu.Device.State.{E1000, new}
use e1000_emu.Device.Receive.{receive, is_ready, should_defer}
use e1000_emu.Device.Control.{reset_e1000}
use e1000_emu.Device.Regions.{region_access_bar0, region_access_bar1}

-- `FfiCallbacks`. The bytes that `dma_read_cb` puts into the buffer of the given length are its
-- result.
pub record FfiCallbacks (P : Type 0) : Type 0 where
  pub send_cb : List ℕ → P → P
  pub dma_read_cb : ℕ → ℕ → P → List ℕ × P
  pub dma_write_cb : ℕ → List ℕ → P → P
  pub issue_interrupt_cb : P → P

-- The C object, or the panic of `todo!()`, after which nothing is called any more.
pub data FfiContext (P : Type 0) : Type 0 where
  live : P → FfiContext P
  timer_todo : FfiContext P

-- The result of a region access as a Boolean, beside the buffer.
abbrev pub answered : {S : Type 0} → List ℕ → Outcome S (ℕ × List ℕ) → Outcome S (Bool × List ℕ)
answered bytes (ok (n, bytes') e) = ok (true, bytes') e
answered bytes (err e) = ok (false, bytes) e
answered bytes panic = panic
answered bytes out_of_fuel = out_of_fuel

-- The result of `receive` as a Boolean.
abbrev pub delivered : {S : Type 0} → Outcome S (Unit {0}) → Outcome S Bool
delivered (ok a e) = ok true e
delivered (err e) = ok false e
delivered panic = panic
delivered out_of_fuel = out_of_fuel

module _ {P : Type 0} (callbacks : FfiCallbacks P) where
  unfoldable pub send : List ℕ → FfiContext P → Option ℕ × FfiContext P
  send buffer (live p) = (some (length buffer), live (callbacks.send_cb buffer p))
  send buffer timer_todo = (none, timer_todo)

  unfoldable pub dma_read : ℕ → ℕ → ℕ → FfiContext P → List ℕ × FfiContext P
  dma_read address len offset (live p) =
      let (bytes, p') = callbacks.dma_read_cb ((address + offset) % 2 ^ 64) len p in
      (bytes, live p')
  dma_read address len offset timer_todo = (replicate len 0, timer_todo)

  unfoldable pub dma_write : ℕ → List ℕ → ℕ → FfiContext P → FfiContext P
  dma_write address buffer offset (live p) =
      live (callbacks.dma_write_cb ((address + offset) % 2 ^ 64) buffer p)
  dma_write address buffer offset timer_todo = timer_todo

  unfoldable pub trigger_interrupt : FfiContext P → FfiContext P
  trigger_interrupt (live p) = live (callbacks.issue_interrupt_cb p)
  trigger_interrupt timer_todo = timer_todo

  -- `todo!()`.
  unfoldable pub set_timer : ℕ → FfiContext P → FfiContext P
  set_timer duration c = timer_todo

  -- `impl NicContext for FfiCallbacks`. `dma_prepare` is the trait's own, which does nothing.
  abbrev pub ffi_context : NicContext (FfiContext P)
  ffi_context = record {
    send = send;
    dma_prepare = λ address len c. c;
    dma_read = dma_read;
    dma_write = dma_write;
    trigger_interrupt = trigger_interrupt;
    set_timer = set_timer;
    delete_timer = λ c. c;
  }

  module _ ⦃D : Derive⦄ where
    unfoldable pub new_e1000 : List ℕ → P → Outcome (E1000 (FfiContext P)) (Unit {0})
    new_e1000 mac p =
        let e = new (live p) false in
        zoom (λ e. e.eeprom) (λ r e. record e { eeprom = r }) pack_initial_eeprom
          (record e {
            eeprom = record (e.eeprom) {
              initial_eeprom = set_ethernet_address mac e.eeprom.initial_eeprom;
            };
          })

  module _ ⦃T : Clock (FfiContext P)⦄ ⦃D : Derive⦄ ⦃K : InternetChecksum⦄ where
    unfoldable pub e1000_region_access :
        ℕ → ℕ → List ℕ → Bool → M (E1000 (FfiContext P)) (Bool × List ℕ)
    e1000_region_access bar offset bytes write e =
        if bar == 0
        then answered bytes (region_access_bar0 ⦃N = ffi_context⦄ offset bytes write e)
        else if bar == 1
        then answered bytes (region_access_bar1 ⦃N = ffi_context⦄ offset bytes write e)
        else ok (false, bytes) e

    unfoldable pub e1000_receive : List ℕ → M (E1000 (FfiContext P)) Bool
    e1000_receive bytes e = delivered (receive ⦃N = ffi_context⦄ bytes e)

  unfoldable pub e1000_reset : E1000 (FfiContext P) → E1000 (FfiContext P)
  e1000_reset = reset_e1000 ⦃N = ffi_context⦄

unfoldable pub e1000_rx_is_ready : {P : Type 0} → E1000 (FfiContext P) → Bool
e1000_rx_is_ready e = is_ready e.receive_state

unfoldable pub e1000_rx_should_defer : {P : Type 0} → E1000 (FfiContext P) → Bool
e1000_rx_should_defer e = should_defer e.receive_state
