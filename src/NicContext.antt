-- ===== src/NicContext.antt =====
-- `trait NicContext` of src/lib.rs, what the device asks of its surroundings, and the two things
-- besides that it takes from outside: the time and Internet checksums.
-- `C` is the state of the surroundings. A buffer is the list of its bytes.
pub mod Machine
use e1000_emu.Prelude.{ℕ, List, Option}

pub record NicContext (C : Type 0) : Type 0 where
  -- The number of bytes sent, or an error.
  pub send : List ℕ → C → Option ℕ × C
  pub dma_prepare : ℕ → ℕ → C → C
  -- Address, length of the buffer and offset; the bytes that are put into the buffer.
  pub dma_read : ℕ → ℕ → ℕ → C → List ℕ × C
  pub dma_write : ℕ → List ℕ → ℕ → C → C
  pub trigger_interrupt : C → C
  pub set_timer : ℕ → C → C
  pub delete_timer : C → C

-- `Instant::now()`, in nanoseconds from some start.
pub record Clock (C : Type 0) : Type 0 where
  pub now : C → ℕ × C

-- The crate `internet-checksum`: the two bytes of `Checksum::checksum` after `add_bytes` of a
-- buffer, and `update`, which replaces bytes that a checksum covers by others.
pub record InternetChecksum : Type 0 where
  pub checksum : List ℕ → List ℕ
  pub update : List ℕ → List ℕ → List ℕ → List ℕ
