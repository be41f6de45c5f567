-- ===== src/Cli/Context.antt =====
-- src/bin/nic-emu-cli/ctx.rs: the surroundings of the device in the emulator, and `Interface::send`
-- of net.rs.
pub mod Laws
pub mod Invariant
pub mod Planned
use e1000_emu.Prelude.{
  ℕ, ◌+◌, ◌%◌, ◌^◌, Bool, true, false, Option, none, some, List, [], ◌∷◌, length, replicate, ltb,
  ◌==◌, if◌then◌else◌,
}
use e1000_emu.NicContext.{NicContext, Clock}
use e1000_emu.Cli.{Libraries}

-- `Interface` of net.rs.
pub record Interface (Iface : Type 0) : Type 0 where
  pub interface : Iface

-- `world` is what is behind `device_context`, the interface and the clock.
pub record LibvfioUserContext (W Mapping Iface : Type 0) : Type 0 where
  pub world : W
  pub dma_mappings : List (ℕ × Mapping)
  pub timer : Option ℕ
  pub timer_has_changed : Bool
  pub interface : Option (Interface Iface)
  pub interrupt_count : ℕ
  pub dma_read_count : ℕ
  pub dma_read_bytes : ℕ
  pub dma_write_count : ℕ
  pub dma_write_bytes : ℕ

-- Why the process has ended: `expect("Missing dma mapping, ..")`, or `unwrap` of an error of a
-- library or of the interface that is not set.
pub data Panic : Type 0 where
  missing_mapping unwrapped : Panic

-- The context of the running process, or its panic, after which nothing is done any more.
pub data Host (W Mapping Iface : Type 0) : Type 0 where
  running : LibvfioUserContext W Mapping Iface → Host W Mapping Iface
  panicked : Panic → Host W Mapping Iface

-- The map of mappings, an association list: the last entry of an address is the first in it.
abbrev pub lookup : {A : Type 0} → ℕ → List (ℕ × A) → Option A
lookup key [] = none
lookup key ((k, a) ∷ rest) = if k == key then some a else lookup key rest

abbrev pub counted : ℕ → ℕ → ℕ
counted n k = (n + k) % 2 ^ 64

module _ {W Mapping Iface : Type 0} where
  unfoldable pub new : W → LibvfioUserContext W Mapping Iface
  new world = record {
    world = world;
    dma_mappings = [];
    timer = none;
    timer_has_changed = false;
    interface = none;
    interrupt_count = 0;
    dma_read_count = 0;
    dma_read_bytes = 0;
    dma_write_count = 0;
    dma_write_bytes = 0;
  }

  module _ (libraries : Libraries W Mapping Iface) where
    unfoldable pub send : List ℕ → Host W Mapping Iface → Option ℕ × Host W Mapping Iface
    send buffer (panicked p) = (libraries.unsent buffer, panicked p)
    send buffer (running c) = elim c.interface [
      | none ↦ (libraries.unsent buffer, panicked unwrapped)
      | some i ↦
          let (sent, w) = libraries.send i.interface buffer c.world in
          (sent, running (record c { world = w }))
    ]

    -- `new_mapping`, put into the map.
    unfoldable pub insert_mapping :
        ℕ → ℕ → LibvfioUserContext W Mapping Iface → Host W Mapping Iface
    insert_mapping address length c =
        let (mapped, w) = libraries.dma_map address length c.world in
        elim mapped [
          | none ↦ panicked unwrapped
          | some mapping ↦
              running (record c { world = w; dma_mappings = (address, mapping) ∷ c.dma_mappings })
        ]

    unfoldable pub dma_prepare : ℕ → ℕ → Host W Mapping Iface → Host W Mapping Iface
    dma_prepare address length (panicked p) = panicked p
    dma_prepare address length (running c) = elim (lookup address c.dma_mappings) [
      | some mapping ↦
          if ltb (libraries.region_length mapping) length
          then insert_mapping address length c
          else running c
      | none ↦ insert_mapping address length c
    ]

    -- The read of a mapping, and the statistics.
    unfoldable pub read_mapping :
        Mapping → ℕ → ℕ → LibvfioUserContext W Mapping Iface → List ℕ × Host W Mapping Iface
    read_mapping mapping len offset c =
        let (read, w) = libraries.read_into_volatile mapping len offset c.world in
        elim read [
          | none ↦ (libraries.unread len, panicked unwrapped)
          | some bytes ↦ (
            bytes,
            running (record c {
              world = w;
              dma_read_count = counted c.dma_read_count 1;
              dma_read_bytes = counted c.dma_read_bytes len;
            }),
          )
        ]

    unfoldable pub dma_read : ℕ → ℕ → ℕ → Host W Mapping Iface → List ℕ × Host W Mapping Iface
    dma_read address len offset (panicked p) = (libraries.unread len, panicked p)
    dma_read address len offset (running c) = elim (lookup address c.dma_mappings) [
      | none ↦ (libraries.unread len, panicked missing_mapping)
      | some mapping ↦ read_mapping mapping len offset c
    ]

    unfoldable pub write_mapping :
        Mapping → List ℕ → ℕ → LibvfioUserContext W Mapping Iface → Host W Mapping Iface
    write_mapping mapping buffer offset c =
        let (written, w) = libraries.write_volatile mapping buffer offset c.world in
        if written
        then running (record c {
          world = w;
          dma_write_count = counted c.dma_write_count 1;
          dma_write_bytes = counted c.dma_write_bytes (length buffer);
        })
        else panicked unwrapped

    unfoldable pub dma_write : ℕ → List ℕ → ℕ → Host W Mapping Iface → Host W Mapping Iface
    dma_write address buffer offset (panicked p) = panicked p
    dma_write address buffer offset (running c) = elim (lookup address c.dma_mappings) [
      | none ↦ panicked missing_mapping
      | some mapping ↦ write_mapping mapping buffer offset c
    ]

    unfoldable pub trigger_interrupt : Host W Mapping Iface → Host W Mapping Iface
    trigger_interrupt (panicked p) = panicked p
    trigger_interrupt (running c) =
        let (triggered, w) = libraries.trigger_irq c.world in
        if triggered
        then running (record c { world = w; interrupt_count = counted c.interrupt_count 1 })
        else panicked unwrapped

    unfoldable pub set_timer : ℕ → Host W Mapping Iface → Host W Mapping Iface
    set_timer duration (panicked p) = panicked p
    set_timer duration (running c) =
        let (now, w) = libraries.instant_now c.world in
        running (record c { world = w; timer = some (now + duration); timer_has_changed = true })

    -- `Instant::now()`.
    unfoldable pub instant_now : Host W Mapping Iface → ℕ × Host W Mapping Iface
    instant_now (panicked p) = (0, panicked p)
    instant_now (running c) =
        let (now, w) = libraries.instant_now c.world in (now, running (record c { world = w }))

  unfoldable pub delete_timer : Host W Mapping Iface → Host W Mapping Iface
  delete_timer (panicked p) = panicked p
  delete_timer (running c) = running (record c { timer = none; timer_has_changed = true })

  module _ (libraries : Libraries W Mapping Iface) where
    -- `impl NicContext for LibvfioUserContext`.
    abbrev pub host_context : NicContext (Host W Mapping Iface)
    host_context = record {
      send = send libraries;
      dma_prepare = dma_prepare libraries;
      dma_read = dma_read libraries;
      dma_write = dma_write libraries;
      trigger_interrupt = trigger_interrupt libraries;
      set_timer = set_timer libraries;
      delete_timer = delete_timer;
    }

    abbrev pub host_clock : Clock (Host W Mapping Iface)
    host_clock = record { now = instant_now libraries }
