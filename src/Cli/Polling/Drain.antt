-- ===== src/Cli/Polling/Drain.antt =====
-- `receive_packets` of src/bin/nic-emu-cli/main.rs: when its loop ends.
use e1000_emu.Prelude.{
  ℕ, zero, suc, ◌≤◌, ◌<◌, ◌≡◌, refl, subst, ◌⊎◌, inl, inr, Bool, true, false, not, Option, none,
  some, List, arith, Bool-cases, if◌then◌else◌,
}
use e1000_emu.Outcome.{Outcome, ok, err, panic, out_of_fuel, M, or_panic, ◌>>=◌}
use e1000_emu.Outcome.Always.{Always}
use e1000_emu.Outcome.Post.{Post, Post-bind, Post-or_panic, Ends}
use e1000_emu.Packing.{Derive}
use e1000_emu.Device.State.{E1000}
use e1000_emu.Device.Receive.{receive, is_ready, should_defer}
use e1000_emu.Device.Receive.Ends.{receive-Ends}
use e1000_emu.Device.Receive.Laws.{IsSettled}
use e1000_emu.Device.History.{reported}
use e1000_emu.Device.Invariant.Sound.{IsSound}
use e1000_emu.Device.Invariant.Timed.{TimedBy, TimedBy-IsStable}
use e1000_emu.Device.Invariant.Parts.{receive-Kept}
use e1000_emu.Cli.{Libraries, Received, frame, would_block, io_error}
use e1000_emu.Cli.Context.{
  Interface, Panic, LibvfioUserContext, Host, running, panicked, host_context, host_clock,
}
use e1000_emu.Cli.Context.Invariant.{IsMissFree, IsWorldClosed, IsMissFree-IsClosed}
use e1000_emu.Cli.Polling.{receive_interface, next_frame, deliver, after_read, receive_packets}

-- Frames that wait in the interface: reading one leaves fewer, and no other call of the libraries
-- brings one.
pub record Backlog {W Mapping Iface : Type 0} (libraries : Libraries W Mapping Iface) : Type 0 where
  pub backlog : W → ℕ
  pub fewer :
      (i : Iface) (n : ℕ) (w w' : W) (bytes : List ℕ)
      → libraries.recv i n w ≡ (frame bytes, w')
      → backlog w' < backlog w
  pub kept : (n : ℕ) → IsWorldClosed libraries (λ w. backlog w ≤ n)

-- The loop has ended for one of its two reasons: packets are deferred, or the last read of the
-- interface would have blocked.
abbrev pub IsDrained :
    {W Mapping Iface : Type 0} → Libraries W Mapping Iface → E1000 (Host W Mapping Iface) → Type 0
IsDrained {W} {Mapping} {Iface} libraries e =
    (should_defer e.receive_state ≡ true)
    ⊎ ((c : LibvfioUserContext W Mapping Iface) × (e.nic_ctx ≡ running c)
        × ((i : Iface) × (w : W) × (libraries.recv i 4096 w ≡ (would_block, c.world))))

Post-both :
    {S : Type 0} (P : S → Type 0) (o : Outcome S (Unit {0}))
    → Always P o
    → Ends o
    → Post (λ a s. P s) P o
Post-both P (ok a s) h k = h
Post-both P (err s) h k = h
Post-both P panic h k = tt
Post-both P out_of_fuel h k = k

Post-reported :
    {S : Type 0} (P : S → Type 0) (E : S → Type 0) (o : Outcome S (Unit {0}))
    → Post (λ a s. P s) P o
    → Post (λ a s. P s) E (reported o)
Post-reported P E (ok a s) h = h
Post-reported P E (err s) h = h
Post-reported P E panic h = tt
Post-reported P E out_of_fuel h = h

one_less : (n k j : ℕ) → k < j → j ≤ n → (m : ℕ) × (n ≡ suc m) × (k ≤ m)
one_less zero k j p q = absurd (omega (arith, p, q))
one_less (suc m) k j p q = (m, refl, omega (arith, p, q))

-- A panic of the context has ended the process.
abbrev pub IsPanicked : {W Mapping Iface : Type 0} → E1000 (Host W Mapping Iface) → Type 0
IsPanicked e = (p : Panic) × (e.nic_ctx ≡ panicked p)

module _ {W Mapping Iface : Type 0} (libraries : Libraries W Mapping Iface) (b : Backlog libraries)
    ⦃D : Derive⦄ where
  -- At most so many frames wait, in a sound device.
  abbrev Waiting : ℕ → E1000 (Host W Mapping Iface) → Type 0
  Waiting n = IsSound (TimedBy (Unit {0}) (IsMissFree (λ t w. b.backlog w ≤ n)))

  -- What the read of the interface leaves: a frame less, or nothing to read.
  abbrev AfterRead : ℕ → Option (List ℕ) → E1000 (Host W Mapping Iface) → Type 0
  AfterRead n none e = IsDrained libraries e
  AfterRead n (some bytes) e = (m : ℕ) × (n ≡ suc m) × Waiting m e

  receive_interface-Post :
      (n : ℕ) (i : Interface Iface) (c : LibvfioUserContext W Mapping Iface)
      (e : E1000 (Host W Mapping Iface))
      → Waiting n e
      → b.backlog c.world ≤ n
      → Post (AfterRead n) IsPanicked (receive_interface libraries i c e)
  unfolding receive_interface
  receive_interface-Post n i c e s r = go (libraries.recv i.interface 4096 c.world) refl
    where
      go :
          (r : Received × W)
          → libraries.recv i.interface 4096 c.world ≡ r
          → Post (AfterRead n) IsPanicked (
              let e' = record e { nic_ctx = running (record c { world = r.1 }) } in
              elim r.0 [
                | frame bytes ↦ ok (some bytes) e'
                | would_block ↦ ok none e'
                | io_error ↦ panic
              ])
      go (frame bytes, w) h =
          let (m, x, k) =
            one_less n (b.backlog w) (b.backlog c.world)
              (b.fewer i.interface 4096 c.world w bytes h) r in
          (m, x, (s.0, (k, inl tt)))
      go (would_block, w) h = inr (record c { world = w }, refl, (i.interface, c.world, h))
      go (io_error, w) h = tt

  next_frame-Post :
      (n : ℕ) (e : E1000 (Host W Mapping Iface))
      → Waiting n e
      → Post (AfterRead n) IsPanicked (next_frame libraries e)
  unfolding next_frame
  next_frame-Post n e s = go e.nic_ctx refl s.1.0
    where
      go :
          (h : Host W Mapping Iface)
          → e.nic_ctx ≡ h
          → IsMissFree (λ t w. b.backlog w ≤ n) h
          → Post (AfterRead n) IsPanicked (
              ((λ e. elim h [ running c ↦ ok c e | panicked p ↦ err e ]) >>= λ c.
              or_panic c.interface >>= λ i. receive_interface libraries i c)
                e)
      go (panicked p) x r = (p, x)
      go (running c) x r =
          Post-bind (λ i e'. e' ≡ e) (AfterRead n) IsPanicked (or_panic c.interface)
            (λ i. receive_interface libraries i c) e
            (Post-or_panic (λ i e'. e' ≡ e) IsPanicked c.interface e (λ i h. refl))
            (λ i e' same. rw same (receive_interface-Post n i c e s r))

  deliver-Post :
      (n : ℕ) (bytes : List ℕ) (e : E1000 (Host W Mapping Iface))
      → Waiting n e
      → Post (λ a e'. Waiting n e') IsPanicked (deliver libraries bytes e)
  unfolding deliver
  deliver-Post n bytes e s = go (is_ready e.receive_state)
    where
      received : Outcome (E1000 (Host W Mapping Iface)) (Unit {0})
      received = receive ⦃N = host_context libraries⦄ ⦃T = host_clock libraries⦄ bytes e

      go :
          (ready : Bool)
          → Post
              (λ a e'. Waiting n e')
              IsPanicked
              (if not ready then ok tt e else reported received)
      go false = s
      go true = Post-reported (Waiting n) IsPanicked received (
          Post-both (Waiting n) received
            (receive-Kept ⦃N = host_context libraries⦄ ⦃T = host_clock libraries⦄
              (TimedBy (Unit {0}) (IsMissFree (λ t w. b.backlog w ≤ n)))
              (TimedBy-IsStable ⦃N = host_context libraries⦄ ⦃T = host_clock libraries⦄ _
                (IsMissFree-IsClosed libraries _ (b.kept n)))
              bytes e s)
            (receive-Ends ⦃N = host_context libraries⦄ ⦃T = host_clock libraries⦄ bytes e))

  after_read-Post :
      (n : ℕ) (rest : M (E1000 (Host W Mapping Iface)) (Unit {0}))
      → ((m : ℕ) (e : E1000 (Host W Mapping Iface))
          → n ≡ suc m
          → Waiting m e
          → Post (λ a e. IsDrained libraries e) IsPanicked (rest e))
      → (o : Option (List ℕ)) (e : E1000 (Host W Mapping Iface)) → AfterRead n o e
      → Post (λ a e. IsDrained libraries e) IsPanicked (after_read libraries rest o e)
  after_read-Post n rest ends none e d = d
  after_read-Post n rest ends (some bytes) e (m, x, s) =
      Post-bind (λ a e. Waiting m e) (λ a e. IsDrained libraries e) IsPanicked
        (deliver libraries bytes) (λ a. rest) e (deliver-Post m bytes e s) (λ a e s. ends m e x s)

  drained :
      (fuel n : ℕ) (e : E1000 (Host W Mapping Iface))
      → fuel ≡ suc n
      → Waiting n e
      → Post (λ a e'. IsDrained libraries e') IsPanicked (receive_packets libraries fuel e)
  unfolding receive_packets
  drained zero n e x s = absurd (omega (arith, x))
  drained (suc fuel) n e x s = elim (Bool-cases (should_defer e.receive_state)) [
    | inl p ↦ rw p (inl p)
    | inr p ↦
        let same : n ≡ fuel = omega (arith, x) in
        rw p (
          Post-bind (AfterRead fuel) (λ a e'. IsDrained libraries e') IsPanicked
            (next_frame libraries) (after_read libraries (receive_packets libraries fuel)) e
            (next_frame-Post fuel e (subst (λ k. Waiting k e) same s))
            (after_read-Post fuel (receive_packets libraries fuel) (drained fuel)))
  ]

  -- The read of the packets ends, whatever they are: in a device whose receive state belongs to its
  -- ring and in which no access has missed a mapping so far, with at most `n` frames waiting in the
  -- interface while none arrives, `n + 1` turns of the loop are enough, and it ends only when
  -- packets are deferred or the interface has none left, unless the process panics: the error is
  -- that a panic of the context has ended it.
  pub receive_packets-IsDrained :
      (n : ℕ) (e : E1000 (Host W Mapping Iface))
      → IsSettled e
      → IsMissFree (λ t w. b.backlog w ≤ n) e.nic_ctx
      → Post (λ a e'. IsDrained libraries e') IsPanicked (receive_packets libraries (suc n) e)
  receive_packets-IsDrained n e settled free = drained (suc n) n e refl (settled, (free, inl tt))
