-- ===== src/Tests/Hosts.antt =====
-- The theorems on the emulator at concrete inputs.
use e1000_emu.Prelude.{
  ℕ, ◌-◌, ◌≤◌, ◌≡◌, ◌||◌, refl, ap, true, false, Option, some, none, List, [], ◌∷◌, arith, leb,
  if◌then◌else◌,
}
use e1000_emu.Outcome.{ok, ◌>>◌}
use e1000_emu.Outcome.Always.{Always}
use e1000_emu.Outcome.Post.{Post}
use e1000_emu.Packing.Reference.{reference}
use e1000_emu.NicContext.Machine.{no_checksum}
use e1000_emu.Device.State.{E1000, InterruptMitigation}
use e1000_emu.Device.State
use e1000_emu.Device.Interrupts.{interrupt}
use e1000_emu.Cli.Context.{
  LibvfioUserContext, Host, running, dma_prepare, host_context, host_clock, counted,
}
use e1000_emu.Cli.Context.Laws.{Prepares, dma_prepare-Prepares}
use e1000_emu.Cli.Context.Invariant.{IsMissFree}
use e1000_emu.Cli.Context.Planned.{IsMonotonic}
use e1000_emu.Cli.Server.{bar0, device_reset}
use e1000_emu.Cli.Polling.{Round, oneshot, disarmed, receive_packets, update_timer, on_timer}
use e1000_emu.Cli.Environment.{Args, default_args}
use e1000_emu.Cli.Startup.{main, wait_for_client}
use e1000_emu.Cli.Startup.Client.{IsAttached, wait_for_client-IsAttached}
use e1000_emu.Cli.Startup.Laws.{main-IsMissFree, IsScheduledIn, main-IsScheduledIn}
use e1000_emu.Cli.Polling.Drain.{IsDrained, IsPanicked, receive_packets-IsDrained}
use e1000_emu.Cli.Polling.Timers.{interrupt-update_timer, on_timer-HasRaised}
use e1000_emu.Cli.Server.{region_access_bar0, region_access_bar1}
use e1000_emu.Cli.Server.Laws.{Replies, region_access-Replies}
use e1000_emu.Ffi.Answers.{is_valid_access}
use e1000_emu.Cli.Polling.{collect, no_actions}
use e1000_emu.Cli.Polling.Events.{collect_lem, all_known, has}
use e1000_emu.Tests.Worlds.{
  World, libraries, started, tap, count_frames, same_frames, read_leaves, frames_left, environment,
  same_frames_before, on_its_way,
}
use e1000_emu.Tests.Data.{link_changed}

abbrev host : LibvfioUserContext World ℕ (Unit {0})
host = record {
  world = started;
  dma_mappings = (0x1000, 16) ∷ [];
  timer = none;
  timer_has_changed = false;
  interface = some tap;
  interrupt_count = 0;
  dma_read_count = 0;
  dma_read_bytes = 0;
  dma_write_count = 0;
  dma_write_bytes = 0;
}

abbrev size : Option ℕ → ℕ
size none = 0
size (some n) = n

maps_all :
    (address len : ℕ) (w w' : World) (mapping : ℕ)
    → libraries.dma_map address len w ≡ (some mapping, w')
    → len ≤ libraries.region_length mapping
maps_all address len w w' mapping h = omega (arith, ap (λ r. size r.0) h)

-- The mapping that is there is too short.
dma_prepare-Prepares_example :
    Prepares libraries 0x1000 64 host (dma_prepare libraries 0x1000 64 (running host))
dma_prepare-Prepares_example = dma_prepare-Prepares libraries maps_all 0x1000 64 host

-- The client sets the receiver up, frames are read, the timer runs out, and the client resets the
-- device and goes.
abbrev some_rounds : List Round
some_rounds =
    record {
      events = 1 ∷ [];
      requests =
          bar0 0x2808 (0x80 ∷ 0 ∷ 0 ∷ 0 ∷ []) true
          ∷ bar0 0x2818 (6 ∷ 0 ∷ 0 ∷ 0 ∷ []) true
          ∷ bar0 0x100 (2 ∷ 0 ∷ 0 ∷ 0 ∷ []) true
          ∷ [];
      succeeds = true;
    }
    ∷ record { events = 2 ∷ 3 ∷ []; requests = []; succeeds = true }
    ∷ record { events = 1 ∷ []; requests = device_reset ∷ []; succeeds = false }
    ∷ []

abbrev args : Args (Unit {0})
args = record default_args { net = some tt }

main-IsMissFree_example :
    Always
      (λ s. IsMissFree (λ t w. count_frames w ≤ 2) s.e1000.nic_ctx)
      (main environment libraries args 3 5 some_rounds started)
main-IsMissFree_example =
    main-IsMissFree libraries (λ w. count_frames w ≤ 2) (same_frames 2) (read_leaves 2) environment
      (same_frames_before 2) args 3 5 some_rounds started (omega arith)

-- Mitigation is enabled and the cause unmasked: the first frame interrupts, the second is put off,
-- the timer is set, and an event of the timer that comes too early changes nothing.
abbrev mitigated_rounds : List Round
mitigated_rounds =
    record {
      events = 1 ∷ [];
      requests =
          bar0 0xC4 (0xFF ∷ 0 ∷ 0 ∷ 0 ∷ []) true
          ∷ bar0 0xD0 (0x80 ∷ 0 ∷ 0 ∷ 0 ∷ []) true
          ∷ bar0 0x2808 (0x80 ∷ 0 ∷ 0 ∷ 0 ∷ []) true
          ∷ bar0 0x2818 (6 ∷ 0 ∷ 0 ∷ 0 ∷ []) true
          ∷ bar0 0x100 (2 ∷ 0 ∷ 0 ∷ 0 ∷ []) true
          ∷ [];
      succeeds = true;
    }
    ∷ record { events = 3 ∷ []; requests = []; succeeds = true }
    ∷ []

runs_on : IsMonotonic libraries
runs_on w = omega arith

main-IsScheduledIn_example :
    Always
      (λ s. IsScheduledIn s.e1000.interrupt_mitigation s.e1000.nic_ctx)
      (main environment libraries args 3 5 mitigated_rounds started)
main-IsScheduledIn_example =
    main-IsScheduledIn libraries environment runs_on args 3 5 mitigated_rounds started

abbrev attached : E1000 (Host World ℕ (Unit {0}))
attached = State.new (running host) true

-- The second attempt finds a client.
wait_for_client-IsAttached_example :
    Post
      (λ a e. IsAttached environment attached host e)
      (λ e. ⊥)
      (wait_for_client environment 2 attached)
unfolding State.new
wait_for_client-IsAttached_example =
    wait_for_client-IsAttached environment attached host on_its_way 1 refl (omega arith)

-- The device is offline, and drops both frames.
receive_packets-IsDrained_example :
    Post (λ a e. IsDrained libraries e) IsPanicked (receive_packets libraries 3 attached)
unfolding State.new
receive_packets-IsDrained_example =
    receive_packets-IsDrained libraries frames_left 2 attached refl (omega arith)

abbrev signalling : E1000 (Host World ℕ (Unit {0}))
signalling = record attached {
  regs = record (attached.regs) { interrupt_cause = link_changed; interrupt_mask = link_changed };
}

abbrev later : ℕ → World
later t = record started { time = t }

abbrev mitigation : InterruptMitigation
mitigation = record { expiration = 100; interrupt_after = false }

abbrev mitigated : E1000 (Host World ℕ (Unit {0}))
mitigated = record signalling { interrupt_mitigation = some mitigation }

-- The timer is armed in time.
interrupt-update_timer_example :
    (interrupt ⦃N = host_context libraries⦄ ⦃T = host_clock libraries⦄
        >> update_timer libraries disarmed)
      mitigated
    ≡ ok (if leb 7 101 then oneshot (101 - 7) else disarmed) (record mitigated {
      nic_ctx =
          running (record host { world = later 8; timer = some 101; timer_has_changed = false });
      interrupt_mitigation = some (record mitigation { interrupt_after = true });
    })
unfolding State.new
interrupt-update_timer_example =
    interrupt-update_timer libraries mitigated host mitigation disarmed 5 6 7 (later 6) (later 7)
      (later 8) refl refl refl refl refl (omega arith) refl refl

-- The deadline of the timer has come.
abbrev due : LibvfioUserContext World ℕ (Unit {0})
due = record host { world = later 101; timer = some 101 }

abbrev deferred : E1000 (Host World ℕ (Unit {0}))
deferred = record mitigated {
  nic_ctx = running due;
  interrupt_mitigation = some (record mitigation { interrupt_after = true });
}

on_timer-HasRaised_example :
    (e' : E1000 (Host World ℕ (Unit {0}))) × (c' : LibvfioUserContext World ℕ (Unit {0}))
    × (on_timer libraries deferred ≡ ok tt e')
    × (e'.nic_ctx ≡ running c')
    × (c'.interrupt_count ≡ counted due.interrupt_count 1)
    × (c'.timer ≡ none)
unfolding State.new
on_timer-HasRaised_example =
    on_timer-HasRaised libraries deferred due (record mitigation { interrupt_after = true }) 101 101
      102 (later 102) (later 103) (record (later 103) { interrupts = 1 }) refl refl refl refl refl
      refl (omega arith) refl (omega arith) refl

-- In bar 1 an offset of 8 is refused.
region_access-Replies_example :
    Replies attached
      (is_valid_access 0 8 (1 ∷ 2 ∷ 3 ∷ 4 ∷ []) attached.io_addr)
      (region_access_bar0 libraries 8 (1 ∷ 2 ∷ 3 ∷ 4 ∷ []) false attached)
    × Replies attached
        (is_valid_access 1 8 (1 ∷ 2 ∷ 3 ∷ 4 ∷ []) attached.io_addr)
        (region_access_bar1 libraries 8 (1 ∷ 2 ∷ 3 ∷ 4 ∷ []) false attached)
region_access-Replies_example =
    region_access-Replies libraries 8 (1 ∷ 2 ∷ 3 ∷ 4 ∷ []) false attached

collect_lem_example : collect (3 ∷ 2 ∷ 3 ∷ []) no_actions ≡ (
    if all_known (3 ∷ 2 ∷ 3 ∷ [])
    then some (record {
      run = has 1 (3 ∷ 2 ∷ 3 ∷ []);
      receive = has 1 (3 ∷ 2 ∷ 3 ∷ []) || has 2 (3 ∷ 2 ∷ 3 ∷ []);
      timer_elapsed = has 3 (3 ∷ 2 ∷ 3 ∷ []);
    })
    else none)
collect_lem_example = collect_lem (3 ∷ 2 ∷ 3 ∷ [])
