-- ===== src/Ffi/Laws.antt =====
-- The exported functions of src/ffi.rs: what a session of calls cannot reach, and what the Booleans
-- that they return say.
use e1000_emu.Prelude.{ℕ, refl, inr, Bool, false, List, [], ◌∷◌, ◌==◌}
use e1000_emu.Outcome.{Outcome, ok, err, panic, out_of_fuel, M, pure, modify, ◌>>◌}
use e1000_emu.Outcome.Always.{Always, Kept, Always-bind, Always-either, Always-zoom}
use e1000_emu.Packing.{Derive}
use e1000_emu.NicContext.{Clock, InternetChecksum}
use e1000_emu.Eeprom.{set_ethernet_address, pack_initial_eeprom}
use e1000_emu.Device.State.{E1000, new}
use e1000_emu.Device.Receive.{receive}
use e1000_emu.Device.Invariant.{IsClosed, IsStable}
use e1000_emu.Device.Invariant.Timed.{TimedBy, TimedBy-IsStable}
use e1000_emu.Device.Invariant.Sound.{IsSound, Always-const}
use e1000_emu.Device.Invariant.Parts.{receive-Kept, reset_e1000-Sound}
use e1000_emu.Device.Invariant.Access.{region_access_bar0-Kept, region_access_bar1-Kept}
use e1000_emu.Ffi.{
  FfiCallbacks, FfiContext, live, timer_todo, send, dma_read, dma_write, trigger_interrupt,
  ffi_context, new_e1000, answered, delivered, e1000_region_access, e1000_receive, e1000_reset,
}

-- The calls that a C program makes on a device.
pub data FfiCall : Type 0 where
  region_access : ℕ → ℕ → List ℕ → Bool → FfiCall
  reset : FfiCall
  receive_bytes : List ℕ → FfiCall

-- `todo!()` has not been reached.
abbrev pub IsLive : {P : Type 0} → FfiContext P → Type 0
IsLive {P} (live p) = Unit {0}
IsLive {P} timer_todo = ⊥

module _ {P : Type 0} (callbacks : FfiCallbacks P) ⦃T : Clock (FfiContext P)⦄ ⦃D : Derive⦄
    ⦃K : InternetChecksum⦄ where
  abbrev pub call : FfiCall → M (E1000 (FfiContext P)) (Unit {0})
  call (region_access bar offset bytes write) =
      e1000_region_access callbacks bar offset bytes write >> pure tt
  call reset = modify (e1000_reset callbacks)
  call (receive_bytes bytes) = e1000_receive callbacks bytes >> pure tt

  abbrev pub calls : List FfiCall → M (E1000 (FfiContext P)) (Unit {0})
  calls [] e = ok tt e
  calls (c ∷ cs) e = (call c >> calls cs) e

  abbrev pub continued :
      List FfiCall
      → Outcome (E1000 (FfiContext P)) (Unit {0})
      → Outcome (E1000 (FfiContext P)) (Unit {0})
  continued cs (ok a e) = calls cs e
  continued cs (err e) = err e
  continued cs panic = panic
  continued cs out_of_fuel = out_of_fuel

  -- A device that is created and then called.
  abbrev pub session : List ℕ → List FfiCall → P → Outcome (E1000 (FfiContext P)) (Unit {0})
  session mac cs p = continued cs (new_e1000 callbacks mac p)

  -- Reading the clock is no call of `set_timer`.
  abbrev pub IsReading : Type 0
  IsReading = (c : FfiContext P) → IsLive c → IsLive (T.now c).1

  sent-IsLive : (bytes : List ℕ) (c : FfiContext P) → IsLive c → IsLive (send callbacks bytes c).1
  unfolding send
  sent-IsLive bytes (live p) q = tt
  sent-IsLive bytes timer_todo q = q

  read-IsLive :
      (address n offset : ℕ) (c : FfiContext P)
      → IsLive c
      → IsLive (dma_read callbacks address n offset c).1
  unfolding dma_read
  read-IsLive address n offset (live p) q = tt
  read-IsLive address n offset timer_todo q = q

  written-IsLive :
      (address : ℕ) (bytes : List ℕ) (offset : ℕ) (c : FfiContext P)
      → IsLive c
      → IsLive (dma_write callbacks address bytes offset c)
  unfolding dma_write
  written-IsLive address bytes offset (live p) q = tt
  written-IsLive address bytes offset timer_todo q = q

  triggered-IsLive : (c : FfiContext P) → IsLive c → IsLive (trigger_interrupt callbacks c)
  unfolding trigger_interrupt
  triggered-IsLive (live p) q = tt
  triggered-IsLive timer_todo q = q

  IsLive-IsClosed : IsReading → IsClosed (ffi_context callbacks) T ⊥ IsLive
  IsLive-IsClosed reading = record {
    served = record {
      send = sent-IsLive;
      prepare = λ address n c q. q;
      prepared_read = λ address prepared n offset c q. read-IsLive address n offset c q;
      prepared_write = λ address prepared bytes offset c q. written-IsLive address bytes offset c q;
    };
    trigger_interrupt = triggered-IsLive;
    delete_timer = λ c q. q;
    set_timer = λ duration c t q. absurd t;
    now = reading;
  }

  stable : IsReading → IsStable (ffi_context callbacks) T (TimedBy ⊥ IsLive)
  stable reading = TimedBy-IsStable ⦃N = ffi_context callbacks⦄ IsLive (IsLive-IsClosed reading)

  answered-Sound :
      (bytes : List ℕ) (o : Outcome (E1000 (FfiContext P)) (ℕ × List ℕ))
      → Always (IsSound (TimedBy ⊥ IsLive)) o
      → Always (IsSound (TimedBy ⊥ IsLive)) (answered bytes o)
  answered-Sound bytes (ok r e) s = s
  answered-Sound bytes (err e) s = s
  answered-Sound bytes panic s = tt
  answered-Sound bytes out_of_fuel s = tt

  delivered-Sound :
      (o : Outcome (E1000 (FfiContext P)) (Unit {0}))
      → Always (IsSound (TimedBy ⊥ IsLive)) o
      → Always (IsSound (TimedBy ⊥ IsLive)) (delivered o)
  delivered-Sound (ok r e) s = s
  delivered-Sound (err e) s = s
  delivered-Sound panic s = tt
  delivered-Sound out_of_fuel s = tt

  call-Kept : IsReading → (c : FfiCall) → Kept (IsSound (TimedBy ⊥ IsLive)) (call c)
  unfolding e1000_region_access e1000_reset e1000_receive
  call-Kept reading (region_access bar offset bytes write) e s =
      let S = IsSound (TimedBy ⊥ IsLive) in
      Always-bind S (e1000_region_access callbacks bar offset bytes write) _ e
        (Always-either S (bar == 0) _ _
          (answered-Sound bytes _ (
            region_access_bar0-Kept ⦃N = ffi_context callbacks⦄ (TimedBy ⊥ IsLive) (stable reading)
              offset bytes write e s))
          (Always-either S (bar == 1) _ _
            (answered-Sound bytes _ (
              region_access_bar1-Kept ⦃N = ffi_context callbacks⦄ (TimedBy ⊥ IsLive)
                (stable reading) offset bytes write e s))
            s))
        (λ a e s. s)
  call-Kept reading reset e s =
      reset_e1000-Sound ⦃N = ffi_context callbacks⦄ (TimedBy ⊥ IsLive) (stable reading) e s
  call-Kept reading (receive_bytes bytes) e s =
      Always-bind (IsSound (TimedBy ⊥ IsLive)) (e1000_receive callbacks bytes) _ e
        (delivered-Sound (receive ⦃N = ffi_context callbacks⦄ bytes e)
          (receive-Kept ⦃N = ffi_context callbacks⦄ (TimedBy ⊥ IsLive) (stable reading) bytes e s))
        (λ a e s. s)

  calls-Kept : IsReading → (cs : List FfiCall) → Kept (IsSound (TimedBy ⊥ IsLive)) (calls cs)
  calls-Kept reading [] e s = s
  calls-Kept reading (c ∷ cs) e s =
      Always-bind (IsSound (TimedBy ⊥ IsLive)) (call c) (λ a. calls cs) e (call-Kept reading c e s)
        (λ a e s. calls-Kept reading cs e s)

  continued-Sound :
      IsReading
      → (cs : List FfiCall) (o : Outcome (E1000 (FfiContext P)) (Unit {0}))
      → Always (IsSound (TimedBy ⊥ IsLive)) o
      → Always (IsSound (TimedBy ⊥ IsLive)) (continued cs o)
  continued-Sound reading cs (ok a e) s = calls-Kept reading cs e s
  continued-Sound reading cs (err e) s = s
  continued-Sound reading cs panic s = tt
  continued-Sound reading cs out_of_fuel s = tt

  new_e1000-Sound :
      (mac : List ℕ) (p : P) → Always (IsSound (TimedBy ⊥ IsLive)) (new_e1000 callbacks mac p)
  unfolding new_e1000 new
  new_e1000-Sound mac p =
      let e = new (live p) false in
      let e' = record e {
        eeprom = record (e.eeprom) {
          initial_eeprom = set_ethernet_address mac e.eeprom.initial_eeprom;
        };
      } in
      Always-zoom (IsSound (TimedBy ⊥ IsLive)) (λ e. e.eeprom) (λ r e. record e { eeprom = r })
        pack_initial_eeprom e'
        (Always-const (pack_initial_eeprom e'.eeprom) (refl, (tt, inr (refl, refl))))

  -- A device that is created through the C interface never calls `set_timer`, which is a `todo!()`,
  -- whatever calls follow: after each session that has not panicked otherwise the C object is still
  -- called, no mitigation is active, and the receive state belongs to the ring. Reading the clock is
  -- taken not to call `set_timer`.
  pub session-IsSound :
      IsReading
      → (mac : List ℕ) (cs : List FfiCall) (p : P)
      → Always (IsSound (TimedBy ⊥ IsLive)) (session mac cs p)
  session-IsSound reading mac cs p =
      continued-Sound reading cs (new_e1000 callbacks mac p) (new_e1000-Sound mac p)
