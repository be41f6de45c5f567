-- ===== src/Tests/Starts.antt =====
-- Starting up, and log levels, at concrete inputs.
use e1000_emu.Prelude.{◌≡◌, refl, pos, negsuc, some, none, [], ◌∷◌}
use e1000_emu.Cli.Logging.{
  syslog_level, error, trace, verbosity, info_filter, trace_filter, max_level_filter, off_filter,
}
use e1000_emu.Cli.Startup.{configured}
use e1000_emu.Tests.Worlds.{environment}

-- Both interrupts, the regions, and the device.
configuration : configured environment "/tmp/nic-emu.sock" ≡ 1 ∷ 1 ∷ 0x40 ∷ 0x20000 ∷ 0x100E ∷ []
unfolding configured
configuration = refl

error_level : syslog_level (pos 4) ≡ some error
unfolding syslog_level
error_level = refl

debug_level : syslog_level (pos 7) ≡ some trace
unfolding syslog_level
debug_level = refl

panic_level : syslog_level (pos 0) ≡ none
unfolding syslog_level
panic_level = refl

invalid_level : syslog_level (negsuc 2) ≡ none
unfolding syslog_level
invalid_level = refl

not_verbose : verbosity 0 ≡ info_filter
unfolding verbosity
not_verbose = refl

very_verbose : verbosity 3 ≡ trace_filter
unfolding verbosity
very_verbose = refl

no_logging : max_level_filter 0 ≡ off_filter
unfolding max_level_filter
no_logging = refl
