-- ===== src/Tests/Sessions.antt =====
-- The theorems on sequences of calls and on the C interface at concrete inputs.
use e1000_emu.Prelude.{ℕ, ◌≡◌, refl, inl, true, false, List, [], ◌∷◌}
use e1000_emu.Outcome.Always.{Always}
use e1000_emu.Packing.Reference.{reference}
use e1000_emu.NicContext.Machine.{machine, machine_clock, no_checksum}
use e1000_emu.Device.State.{E1000, new}
use e1000_emu.Device.History.{
  Call, accesses_bar0, accesses_bar1, receives, elapses, resets, perform_all, perform_all-Kept,
}
use e1000_emu.Device.Invariant.{IsClosed}
use e1000_emu.Device.Invariant.Sound.{IsSound}
use e1000_emu.Device.Invariant.Timed.{TimedBy, TimedBy-IsStable}
use e1000_emu.Ffi.{FfiContext, live, e1000_region_access}
use e1000_emu.Ffi.Laws.{
  FfiCall, region_access, reset, receive_bytes, IsLive, session, session-IsSound,
}
use e1000_emu.Ffi.Answers.{Answers, is_valid_access, e1000_region_access-Answers}
use e1000_emu.Tests.Worlds.{callbacks, still}
use e1000_emu.Tests.Data.{fresh}

-- The driver enables the receiver with a ring of eight descriptors, a frame comes, the timer runs
-- out, and the device is reset.
abbrev some_calls : List Call
some_calls =
    accesses_bar0 0x2800 (0 ∷ 0x10 ∷ 0 ∷ 0 ∷ []) true
    ∷ accesses_bar0 0x2808 (0x80 ∷ 0 ∷ 0 ∷ 0 ∷ []) true
    ∷ accesses_bar0 0x2818 (6 ∷ 0 ∷ 0 ∷ 0 ∷ []) true
    ∷ accesses_bar0 0x100 (2 ∷ 0 ∷ 0 ∷ 0 ∷ []) true
    ∷ receives (1 ∷ 2 ∷ 3 ∷ [])
    ∷ elapses
    ∷ accesses_bar1 0 (0 ∷ 0 ∷ 0 ∷ 0 ∷ []) true
    ∷ resets
    ∷ []

-- The clock stands still, and no call of the surroundings moves it.
at_five : IsClosed machine machine_clock (Unit {0}) (λ c. c.time ≡ 5)
at_five = record {
  served = record {
    send = λ bytes c q. q;
    prepare = λ address n c q. q;
    prepared_read = λ address prepared n offset c q. q;
    prepared_write = λ address prepared bytes offset c q. q;
  };
  trigger_interrupt = λ c q. q;
  delete_timer = λ c q. q;
  set_timer = λ duration c t q. q;
  now = λ c q. q;
}

perform_all-Kept_example :
    Always (IsSound (TimedBy (Unit {0}) (λ c. c.time ≡ 5))) (perform_all some_calls fresh)
unfolding new
perform_all-Kept_example =
    perform_all-Kept (TimedBy (Unit {0}) (λ c. c.time ≡ 5))
      (TimedBy-IsStable (λ c. c.time ≡ 5) at_five) some_calls fresh (refl, (refl, inl tt))

abbrev mac : List ℕ
mac = 0x02 ∷ 0x34 ∷ 0x56 ∷ 0x78 ∷ 0x9A ∷ 0xBC ∷ []

-- A C program sets the receiver up, passes a frame and resets the device.
abbrev some_session : List FfiCall
some_session =
    region_access 0 0x2808 (0x80 ∷ 0 ∷ 0 ∷ 0 ∷ []) true
    ∷ region_access 0 0x2818 (6 ∷ 0 ∷ 0 ∷ 0 ∷ []) true
    ∷ region_access 0 0x100 (2 ∷ 0 ∷ 0 ∷ 0 ∷ []) true
    ∷ receive_bytes (1 ∷ 2 ∷ 3 ∷ [])
    ∷ region_access 2 0 [] false
    ∷ reset
    ∷ []

reading-IsLive : (c : FfiContext ℕ) → IsLive c → IsLive (still.now c).1
reading-IsLive c h = h

session-IsSound_example : Always (IsSound (TimedBy ⊥ IsLive)) (session callbacks mac some_session 0)
session-IsSound_example = session-IsSound callbacks reading-IsLive mac some_session 0

abbrev created : E1000 (FfiContext ℕ)
created = new (live 0) false

e1000_region_access-Answers_example :
    Answers
      (1 ∷ 2 ∷ 3 ∷ [])
      created
      (is_valid_access 0 8 (1 ∷ 2 ∷ 3 ∷ []) created.io_addr)
      (e1000_region_access callbacks 0 8 (1 ∷ 2 ∷ 3 ∷ []) false created)
e1000_region_access-Answers_example =
    e1000_region_access-Answers callbacks 0 8 (1 ∷ 2 ∷ 3 ∷ []) false created
