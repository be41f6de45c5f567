-- ===== src/Transmit/Sequence.antt =====
-- `TransmitDescriptorSequence` of src/e1000/transmit.rs and the descriptors added to it.
use e1000_emu.Prelude.{ℕ, Bool, true, false, not, List, [], ◌++◌, ◌==◌, if◌then◌else◌}
use e1000_emu.Outcome.{M, ok, pure, ensure, assert, panics, modify, ◌>>=◌, ◌>>◌}
use e1000_emu.NicContext.{NicContext}
use e1000_emu.Descriptors.Formats.{
  TransmitDescriptor, TransmitDescriptorVariant, TransmitDescriptorTcpData, legacy, tcp_context,
  tcp_data,
}

-- `bytes` is the field `data`.
pub record TransmitDescriptorSequence : Type 0 where
  pub bytes : List ℕ
  pub done : Bool
  pub tcp : Bool
  pub insert_ip_checksum : Bool
  pub insert_tcp_checksum : Bool

-- `Default::default()`.
abbrev pub new_sequence : TransmitDescriptorSequence
new_sequence = record {
  bytes = [];
  done = false;
  tcp = false;
  insert_ip_checksum = false;
  insert_tcp_checksum = false;
}

-- `Vec::is_empty`.
abbrev pub no_bytes : List ℕ → Bool
no_bytes [] = true
no_bytes _ = false

-- The sequence as the first data descriptor of a TCP sequence leaves it.
unfoldable pub begin_tcp :
    TransmitDescriptorSequence → TransmitDescriptorTcpData → TransmitDescriptorSequence
begin_tcp s d = if s.tcp then s else record s {
  insert_ip_checksum = d.popts_ixsm;
  insert_tcp_checksum = d.popts_txsm;
  tcp = true;
}

module _ {C : Type 0} ⦃N : NicContext C⦄ where
  unfoldable pub read_to_buffer :
      TransmitDescriptorSequence → ℕ → ℕ → M C TransmitDescriptorSequence
  read_to_buffer s address length = if address == 0 then pure s else do
    modify (N.dma_prepare address length)
    λ c. let (bs, c') = N.dma_read address length 0 c in ok (record s { bytes = s.bytes ++ bs }) c'

  unfoldable pub add_variant :
      TransmitDescriptorSequence → TransmitDescriptorVariant → M C TransmitDescriptorSequence
  add_variant s (legacy d) = do
    ensure (not s.tcp)
    if d.cmd_ic then panics else pure tt
    s' ← read_to_buffer s d.buffer d.length
    pure (record s' { done = d.cmd_eop })
  add_variant s (tcp_context d) = do ensure (no_bytes s.bytes); pure s
  add_variant s (tcp_data d) = do
    if s.tcp then pure tt else ensure (no_bytes s.bytes)
    s' ← read_to_buffer (begin_tcp s d) d.buffer d.length
    pure (record s' { done = d.dcmd_eop })

  -- The sequence after the descriptor. One that is refused leaves it as it was.
  unfoldable pub add_descriptor :
      TransmitDescriptorSequence → TransmitDescriptor → M C TransmitDescriptorSequence
  add_descriptor s d = do assert (not s.done); add_variant s d.variant
