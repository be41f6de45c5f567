-- ===== src/Tests/Worlds.antt =====
-- Worlds for the emulator and for the C interface: a clock that runs on, frames that wait in the
-- interface, and a count of interrupts.
use e1000_emu.Prelude.{
  ℕ, zero, suc, ◌+◌, ◌-◌, ◌≤◌, ◌<◌, ◌≡◌, ◌≢◌, ap, Bool, true, false, leb, Option, none, some, List,
  [], ◌∷◌, length, replicate, arith,
}
use e1000_emu.Cli.{Libraries, Received, frame, would_block}
use e1000_emu.Cli.Context.Invariant.{IsWorldClosed}
use e1000_emu.Cli.Context.{Interface}
use e1000_emu.Cli.Polling.Drain.{Backlog}
use e1000_emu.Cli.Environment.{Environment}
use e1000_emu.Cli.Startup.Kept.{IsStartClosed}
use e1000_emu.Cli.Startup.Client.{Arrival}
use e1000_emu.Ffi.{FfiCallbacks, FfiContext}
use e1000_emu.NicContext.{Clock}

pub record World : Type 0 where
  pub time : ℕ
  pub frames : List (List ℕ)
  pub interrupts : ℕ

abbrev pub first_frame : List (List ℕ) → Received
first_frame [] = would_block
first_frame (bytes ∷ rest) = frame bytes

abbrev pub other_frames : List (List ℕ) → List (List ℕ)
other_frames [] = []
other_frames (bytes ∷ rest) = rest

-- Memory in which every descriptor has a buffer at 0x2000.
abbrev pub buffers : ℕ → List ℕ
buffers zero = []
buffers (suc zero) = 0 ∷ []
buffers (suc (suc n)) = 0 ∷ 0x20 ∷ replicate n 0

-- A mapping is its length.
abbrev pub libraries : Libraries World ℕ (Unit {0})
libraries = record {
  dma_map = λ address len w. (some len, w);
  region_length = λ mapping. mapping;
  read_into_volatile = λ mapping len offset w. (some (buffers len), w);
  write_volatile = λ mapping bytes offset w. (true, w);
  trigger_irq = λ w. (true, record w { interrupts = w.interrupts + 1 });
  instant_now = λ w. (w.time, record w { time = w.time + 1 });
  send = λ i bytes w. (some (length bytes), w);
  recv = λ i n w. (first_frame w.frames, record w { frames = other_frames w.frames });
  unread = λ n. replicate n 0;
  unsent = λ bytes. none;
}

abbrev pub started : World
started = record { time = 5; frames = (1 ∷ 2 ∷ 3 ∷ []) ∷ (4 ∷ 5 ∷ []) ∷ []; interrupts = 0 }

abbrev pub tap : Interface (Unit {0})
tap = record { interface = tt }

abbrev pub waiting : List (List ℕ) → ℕ
waiting [] = 0
waiting (bytes ∷ rest) = waiting rest + 1

abbrev pub count_frames : World → ℕ
count_frames w = waiting w.frames

blocks : (bytes : List ℕ) → would_block ≢ frame bytes
blocks bytes = cc

pub fewer_frames :
    (i : Unit {0}) (n : ℕ) (w w' : World) (bytes : List ℕ)
    → libraries.recv i n w ≡ (frame bytes, w')
    → count_frames w' < count_frames w
fewer_frames i n w w' bytes h = go w.frames h
  where
    go :
        (fs : List (List ℕ))
        → ◌≡◌ {A = Received × World}
            (first_frame fs, record w { frames = other_frames fs })
            (frame bytes, w')
        → count_frames w' < waiting fs
    go [] h = absurd (blocks bytes (ap (λ r. r.0) h))
    go (b ∷ rest) h = omega (arith, ap (λ r. count_frames r.1) h)

pub same_frames : (n : ℕ) → IsWorldClosed libraries (λ w. count_frames w ≤ n)
same_frames n = record {
  dma_map = λ address len w h. h;
  read_into_volatile = λ mapping len offset w h. h;
  write_volatile = λ mapping bytes offset w h. h;
  trigger_irq = λ w h. h;
  instant_now = λ w h. h;
  send = λ i bytes w h. h;
}

pub read_leaves :
    (n : ℕ) (i : Unit {0}) (len : ℕ) (w : World)
    → count_frames w ≤ n
    → count_frames (libraries.recv i len w).1 ≤ n
read_leaves n i len w h = go w.frames h
  where
    go : (fs : List (List ℕ)) → waiting fs ≤ n → waiting (other_frames fs) ≤ n
    go [] k = k
    go (b ∷ rest) k = omega (arith, k)

abbrev pub frames_left : Backlog libraries
frames_left = record { backlog = count_frames; fewer = fewer_frames; kept = same_frames }

-- A client that attaches at the time 6, while each attempt takes one unit of time.
abbrev pub environment : Environment World (Unit {0})
environment = record {
  Configurator = List ℕ;
  Config = Unit {0};
  PciType = Unit {0};
  DeviceRegionKind = ℕ;
  InterruptRequestKind = ℕ;
  pci = tt;
  bar0 = 0;
  bar1 = 1;
  int_x = 0;
  msi = 1;
  default = [];
  socket_path = λ path c. c;
  overwrite_socket = λ b c. c;
  pci_type = λ kind c. c;
  pci_config = λ p c. p.device_id ∷ c;
  add_device_region = λ r c. r.size ∷ c;
  using_interrupt_requests = λ kind count c. count ∷ c;
  setup_dma = λ b c. c;
  non_blocking = λ b c. c;
  build = λ c w. (some tt, w);
  produce = λ c w. (true, w);
  without_packet_info = λ name w. (some tt, w);
  set_non_blocking = λ i w. (true, w);
  name = λ i. "tap0";
  IpNet = Unit {0};
  to_string = λ net. "10.1.0.1/24";
  Child = Unit {0};
  spawn = λ program args w. (some tt, w);
  wait_child = λ child w. (true, w);
  new_poller = λ w. (true, w);
  wait = λ w. (true, w);
  add_ctx = λ key w. (true, w);
  modify_ctx = λ key w. (true, w);
  add_ctx_edge = λ key w. (true, w);
  add_interface_edge = λ i key w. (true, w);
  add_timer_edge = λ key w. (true, w);
  new_timer = λ w. (true, w);
  attach = λ w. (some (leb 6 w.time), record w { time = w.time + 1 });
}

pub same_frames_before : (n : ℕ) → IsStartClosed environment (λ w. count_frames w ≤ n)
same_frames_before n = record {
  build = λ c w h. h;
  produce = λ c w h. h;
  without_packet_info = λ name w h. h;
  set_non_blocking = λ i w h. h;
  spawn = λ program args w h. h;
  wait_child = λ child w h. h;
  new_poller = λ w h. h;
  wait = λ w h. h;
  add_ctx = λ key w h. h;
  modify_ctx = λ key w h. h;
  add_ctx_edge = λ key w h. h;
  add_interface_edge = λ i key w h. h;
  add_timer_edge = λ key w h. h;
  new_timer = λ w h. h;
  attach = λ w h. h;
}

attached_early : Option Bool → Bool
attached_early none = true
attached_early (some b) = b

pub fewer_attempts :
    (w w' : World) → environment.attach w ≡ (some false, w') → 6 - w'.time < 6 - w.time
unfolding attached_early
fewer_attempts w w' h =
    let early : leb 6 w.time ≡ false = ap (λ r. attached_early r.0) h in
    let next : w.time + 1 ≡ w'.time = ap (λ r. r.1.time) h in ground (arith, early, next)

abbrev pub on_its_way : Arrival environment
on_its_way = record {
  missing = λ w. 6 - w.time;
  fewer = fewer_attempts;
  waits = λ w. omega arith;
  modifies = λ key w. omega arith;
}

-- A C object that counts interrupts.
abbrev pub callbacks : FfiCallbacks ℕ
callbacks = record {
  send_cb = λ bytes p. p;
  dma_read_cb = λ address len p. (buffers len, p);
  dma_write_cb = λ address bytes p. p;
  issue_interrupt_cb = λ p. p + 1;
}

instance abbrev pub still : Clock (FfiContext ℕ)
still = record { now = λ c. (0, c) }
