-- ===== src/Lib.antt =====
-- nic-emu: a behavioural model of the Intel e1000 network card, as a Rust library.
--
-- The device (`struct E1000`, src/e1000.rs) is one record of state that the host drives through
-- four entrances: accesses to its two memory regions, frames that arrive (`receive`), a timer that
-- runs out (`timer_elapsed`), and a reset. Region 1 is a proxy to region 0, region 0 is the register
-- file, and writes to registers act on the parts: the descriptor rings, the receive state, the
-- transmission, the EEPROM, the PHY and the interrupts. What the device asks of the host (sending,
-- memory, interrupts, one timer) is the trait `NicContext` of src/lib.rs.
--
-- Files, with the code they model:
--   Prelude            shared names; lists, bits and bytes of native numbers
--   Outcome            results of calls: ok, error, panic, out of fuel; state passing with do blocks;
--                      Outcome.Post has postconditions
--   Packing            the crate packed_struct: the trait and its derive macro, by layout
--   NicContext         src/lib.rs; NicContext.Machine is a concrete host for tests
--   Registers          src/e1000/registers.rs: General and Rings have the structs and their bits,
--                      File has `Registers` and the trait `Register`, Addresses the ring addresses
--   Descriptors        src/e1000/descriptors.rs: Ring is `DescriptorRing`, Formats the descriptors
--   Eeprom             src/e1000/eeprom.rs: `process_wires`, `pack_initial_eeprom`
--   Phy                src/e1000/phy.rs: the PHY's registers
--   Transmit           src/e1000/transmit.rs: Sequence is `add_descriptor`, Segments is `finalize`
--                      and `update_prototype_headers`, Buffer the writes into byte slices
--   Device.State       `struct E1000`, `new`, `setup_rx_ring`, `setup_tx_ring`
--   Device.Interrupts  src/e1000/interrupts.rs, and `InterruptCauses::modify`
--   Device.Receive     src/e1000/receive.rs
--   Device.Transmit    `process_tx_ring`
--   Device.Management  `mdic_write`, `eecd_write`
--   Device.Mdi         the MDI as a driver uses it; Device.Eecd is the same for the EEPROM
--   Device.Control     `reset_e1000` and the handlers of control writes of src/e1000.rs
--   Device.Access      `access_register`, with the macro of src/util.rs
--   Device.Regions     `region_access_bar0`, `region_access_bar1`
--   Device.Invariant   what holds of the device through every call, part by part; Invariant.Timed is
--                      for predicates on the surroundings alone; Device.History has the calls one
--                      after the other
--   Ffi                src/ffi.rs: the callbacks and the exported functions
--   Cli                what src/bin/nic-emu-cli calls of libvfio_user, tun_tap and the clock
--   Cli.Context        ctx.rs of it: the surroundings of the device, with its cache of mappings;
--                      Cli.Context.Planned relates its timer to the mitigation
--   Cli.Server         e1000.rs of it: the device as libvfio-user calls it
--   Cli.Polling        main.rs of it, and `receive` of net.rs: the polling loop, round by round
--   Cli.Startup        main.rs of it as a whole, `build` of e1000.rs and `initialize` of net.rs: what
--                      comes before the polling loop; Cli.Environment has what it calls
--   Cli.Logging        the log levels of main.rs, e1000.rs and src/ffi.rs
--   Tests              a device in its surroundings, and the theorems at concrete inputs
--
-- A call is a function from the state to an outcome. `?` and `bail!` are the outcome err with the
-- state as it was left; `unwrap`, `assert!`, `todo!`, failed indices and remainders by zero are
-- panic. Calls that borrow the context alone run on its state and are lifted to the device.
-- Integers are native numbers with the wrap-around of their width written out, as in a release
-- build; `usize` has 64 bits and the host is little endian. A Vec or a slice is the list of its
-- elements. The trait NicContext, the clock, the crate internet-checksum and the code that
-- packed_struct derives lie outside the repository and are parameters, and so are the crates
-- libvfio_user, tun_tap, polling and timerfd, processes, and the callbacks of a C program; of the
-- derived code it is asked that it packs and unpacks as the layout in the attributes says.
--
-- The emulator is the device in the context of ctx.rs, a record beside the state of the world that
-- the libraries act on. A panic inside a method of the context, which cannot return one, is a state
-- in which nothing more happens and which the error of the polling loop leaves as it is, with the
-- reason in it, as soon as main.rs looks at the context; what an access after it gives to the
-- device's code is any value. A panic of the device's own code is an outcome without a state. A
-- round of the polling loop takes as input what the poller and `ctx.run()` bring: the keys of the
-- events and the requests of the client. The timer descriptor is what it was last set to. A C
-- program is a sequence of calls of the exported functions.
--
-- Three loops are not structural. `while !tx_ring.is_empty()` of `process_tx_ring` runs on fuel, one
-- more than the ring's length: a ring whose head and tail lie in it owns fewer descriptors than
-- that. The loop of `receive_packets` runs on fuel, one more than the frames that wait, and the wait
-- for a client on one more than the attempts that find none. The rounds of the polling loop are the
-- list of what they take as input. `chunks` runs on the length of its list, since each chunk takes
-- at least one byte.
--
-- Not modelled: log lines but for their levels, and clock readings that only a log line uses; in
-- src/ffi.rs `drop_e1000`, which only frees; in src/bin/nic-emu-cli the parsing of the arguments and
-- the printed statistics, which are input and output; build.rs.
pub mod Prelude
pub mod Outcome
pub mod Packing
pub mod NicContext
pub mod Registers
pub mod Descriptors
pub mod Eeprom
pub mod Phy
pub mod Transmit
pub mod Device
pub mod Ffi
pub mod Cli
mod Tests
