-- ===== src/Cli/Logging.antt =====
-- The levels of log lines: the ones libvfio-user gives in src/bin/nic-emu-cli/e1000.rs, and the
-- filters that main.rs and src/ffi.rs choose.
use e1000_emu.Prelude.{ℕ, ℤ, pos, negsuc, Option, none, some, leb, ◌==◌, if◌then◌else◌}

-- `Level` and `LevelFilter` of the crate log, as far as they are named.
pub data Level : Type 0 where
  error warn info trace : Level

pub data LevelFilter : Type 0 where
  off_filter error_filter warn_filter info_filter debug_filter trace_filter : LevelFilter

-- The level for a syslog level. At 0 libvfio-user panics, and below it is `unreachable!`.
unfoldable pub syslog_level : ℤ → Option Level
syslog_level (negsuc n) = none
syslog_level (pos n) =
    if n == 0
    then none
    else if leb n 4
    then some error
    else if n == 5
    then some warn
    else if n == 6
    then some info
    else some trace

-- The filter for the count of `--verbose`.
unfoldable pub verbosity : ℕ → LevelFilter
verbosity verbose =
    if verbose == 0 then info_filter else if verbose == 1 then debug_filter else trace_filter

-- The filter of `initialize_rust_logging`.
unfoldable pub max_level_filter : ℕ → LevelFilter
max_level_filter max_level =
    if max_level == 0
    then off_filter
    else if max_level == 1
    then error_filter
    else if max_level == 2
    then warn_filter
    else if max_level == 3
    then info_filter
    else if max_level == 4
    then debug_filter
    else trace_filter
