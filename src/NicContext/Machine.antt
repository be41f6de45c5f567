-- ===== src/NicContext/Machine.antt =====
-- Surroundings to run the device in: guest memory as a function from addresses to bytes, the
-- packets sent, the interrupts raised, the timer and a clock that stands still.
use e1000_emu.Prelude.{
  ℕ, zero, suc, ◌+◌, ◌-◌, Option, none, some, List, [], ◌∷◌, ◌++◌, length, get_or, ltb, leb, ◌&&◌,
  if◌then◌else◌,
}
use e1000_emu.NicContext.{NicContext, Clock, InternetChecksum}

pub record Machine : Type 0 where
  pub memory : ℕ → ℕ
  pub sent : List (List ℕ)
  pub interrupts : ℕ
  pub timer : Option ℕ
  pub time : ℕ

abbrev pub powered_on : Machine
powered_on = record { memory = λ a. 0; sent = []; interrupts = 0; timer = none; time = 0 }

abbrev pub read_memory : (ℕ → ℕ) → ℕ → ℕ → List ℕ
read_memory m a zero = []
read_memory m a (suc n) = m a ∷ read_memory m (a + 1) n

abbrev pub write_memory : (ℕ → ℕ) → ℕ → List ℕ → ℕ → ℕ
write_memory m a bs i = if leb a i && ltb i (a + length bs) then get_or bs (i - a) 0 else m i

instance abbrev pub machine : NicContext Machine
machine = record {
  send = λ bs c. (some (length bs), record c { sent = c.sent ++ (bs ∷ []) });
  dma_prepare = λ a n c. c;
  dma_read = λ a n o c. (read_memory c.memory (a + o) n, c);
  dma_write = λ a bs o c. record c { memory = write_memory c.memory (a + o) bs };
  trigger_interrupt = λ c. record c { interrupts = c.interrupts + 1 };
  set_timer = λ d c. record c { timer = some (c.time + d) };
  delete_timer = λ c. record c { timer = none };
}

instance abbrev pub machine_clock : Clock Machine
machine_clock = record { now = λ c. (c.time, c) }

-- Two zero bytes, whatever is summed.
instance abbrev pub no_checksum : InternetChecksum
no_checksum = record { checksum = λ bs. 0 ∷ 0 ∷ []; update = λ old from to. old }
