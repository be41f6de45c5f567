-- ===== src/Cli/Context/Invariant.antt =====
-- src/bin/nic-emu-cli/ctx.rs under the device: no access misses a mapping, and what the libraries
-- keep stays.
use e1000_emu.Prelude.{
  ℕ, ◌≡◌, refl, Bool, true, false, Option, none, some, List, ◌∷◌, ltb, if◌then◌else◌,
}
use e1000_emu.Device.Invariant.{IsClosed, IsServed}
use e1000_emu.Cli.{Libraries}
use e1000_emu.Cli.Context.{
  LibvfioUserContext, missing_mapping, unwrapped, Host, running, panicked, lookup, counted,
  Interface, send, insert_mapping, dma_prepare, read_mapping, dma_read, write_mapping, dma_write,
  trigger_interrupt, set_timer, instant_now, delete_timer, host_context, host_clock,
}
use e1000_emu.Cli.Context.Laws.{lookup-same}

-- No access has missed a mapping so far, and `R` holds of the requested timer and the world as long
-- as the process runs.
abbrev pub IsMissFree :
    {W Mapping Iface : Type 0} → (Option ℕ → W → Type 0) → Host W Mapping Iface → Type 0
IsMissFree R (running c) = R c.timer c.world
IsMissFree R (panicked missing_mapping) = ⊥
IsMissFree R (panicked unwrapped) = Unit {0}

-- A predicate on the world that the calls of the libraries keep.
pub record IsWorldClosed {W Mapping Iface : Type 0} (libraries : Libraries W Mapping Iface)
    (R : W → Type 0) : Type 0 where
  pub dma_map : (address len : ℕ) (w : W) → R w → R (libraries.dma_map address len w).1
  pub read_into_volatile :
      (mapping : Mapping) (len offset : ℕ) (w : W)
      → R w
      → R (libraries.read_into_volatile mapping len offset w).1
  pub write_volatile :
      (mapping : Mapping) (bytes : List ℕ) (offset : ℕ) (w : W)
      → R w
      → R (libraries.write_volatile mapping bytes offset w).1
  pub trigger_irq : (w : W) → R w → R (libraries.trigger_irq w).1
  pub instant_now : (w : W) → R w → R (libraries.instant_now w).1
  pub send :
      (interface : Iface) (bytes : List ℕ) (w : W) → R w → R (libraries.send interface bytes w).1

module _ {W Mapping Iface : Type 0} (libraries : Libraries W Mapping Iface)
    (R : Option ℕ → W → Type 0) (closed : (t : Option ℕ) → IsWorldClosed libraries (R t)) where
  sent-IsMissFree :
      (bytes : List ℕ) (h : Host W Mapping Iface)
      → IsMissFree R h
      → IsMissFree R (send libraries bytes h).1
  unfolding send
  sent-IsMissFree bytes (panicked p) f = f
  sent-IsMissFree bytes (running c) f = go c.interface
    where
      go :
          (o : Option (Interface Iface))
          → IsMissFree R
              (elim o as (λ x. Option ℕ × Host W Mapping Iface) [
                | none ↦ (libraries.unsent bytes, panicked unwrapped)
                | some i ↦
                    let (sent, w) = libraries.send i.interface bytes c.world in
                    (sent, running (record c { world = w }))
              ]).1
      go none = tt
      go (some i) = (closed c.timer).send i.interface bytes c.world f

  IsMissFree-if :
      (b : Bool) (h k : Host W Mapping Iface)
      → IsMissFree R h
      → IsMissFree R k
      → IsMissFree R (if b then h else k)
  IsMissFree-if true h k f g = f
  IsMissFree-if false h k f g = g

  -- Where an access that finds its mapping leaves the process.
  abbrev Found : ℕ → Host W Mapping Iface → Type 0
  Found address (running c) =
      R c.timer c.world × (mapping : Mapping) × (lookup address c.dma_mappings ≡ some mapping)
  Found address (panicked p) = IsMissFree {W = W} {Mapping = Mapping} {Iface = Iface} R (panicked p)

  inserted-Found :
      (address len : ℕ) (c : LibvfioUserContext W Mapping Iface)
      → R c.timer c.world
      → Found address (insert_mapping libraries address len c)
  unfolding insert_mapping
  inserted-Found address len c f =
      go (libraries.dma_map address len c.world) ((closed c.timer).dma_map address len c.world f)
    where
      go :
          (r : Option Mapping × W)
          → R c.timer r.1
          → Found address (elim r.0 [
            | none ↦ panicked unwrapped
            | some mapping ↦
                running
                  (record c { world = r.1; dma_mappings = (address, mapping) ∷ c.dma_mappings })
          ])
      go (none, w) k = tt
      go (some mapping, w) k = (k, mapping, lookup-same libraries address mapping c.dma_mappings)

  prepared-Found :
      (address len : ℕ) (h : Host W Mapping Iface)
      → IsMissFree R h
      → Found address (dma_prepare libraries address len h)
  unfolding dma_prepare
  prepared-Found address len (panicked p) f = f
  prepared-Found address len (running c) f = go (lookup address c.dma_mappings) refl
    where
      go :
          (o : Option Mapping)
          → lookup address c.dma_mappings ≡ o
          → Found address (elim o [
            | some mapping ↦
                if ltb (libraries.region_length mapping) len
                then insert_mapping libraries address len c
                else running c
            | none ↦ insert_mapping libraries address len c
          ])
      go none h = inserted-Found address len c f
      go (some mapping) h = either (ltb (libraries.region_length mapping) len)
        where
          either :
              (b : Bool)
              → Found address (if b then insert_mapping libraries address len c else running c)
          either true = inserted-Found address len c f
          either false = (f, mapping, h)

  Found-IsMissFree : (address : ℕ) (h : Host W Mapping Iface) → Found address h → IsMissFree R h
  Found-IsMissFree address (running c) f = f.0
  Found-IsMissFree address (panicked p) f = f

  read_mapping-IsMissFree :
      (mapping : Mapping) (len offset : ℕ) (c : LibvfioUserContext W Mapping Iface)
      → R c.timer c.world
      → IsMissFree R (read_mapping libraries mapping len offset c).1
  unfolding read_mapping
  read_mapping-IsMissFree mapping len offset c f =
      go (libraries.read_into_volatile mapping len offset c.world)
        ((closed c.timer).read_into_volatile mapping len offset c.world f)
    where
      go :
          (r : Option (List ℕ) × W)
          → R c.timer r.1
          → IsMissFree R
              (elim r.0 as (λ x. List ℕ × Host W Mapping Iface) [
                | none ↦ (libraries.unread len, panicked unwrapped)
                | some bytes ↦ (
                  bytes,
                  running (record c {
                    world = r.1;
                    dma_read_count = counted c.dma_read_count 1;
                    dma_read_bytes = counted c.dma_read_bytes len;
                  }),
                )
              ]).1
      go (none, w) k = tt
      go (some bytes, w) k = k

  read-IsMissFree :
      (address len offset : ℕ) (h : Host W Mapping Iface)
      → Found address h
      → IsMissFree R (dma_read libraries address len offset h).1
  unfolding dma_read
  read-IsMissFree address len offset (panicked p) f = f
  read-IsMissFree address len offset (running c) (f, mapping, found) =
      rw (dma_read, found) (read_mapping-IsMissFree mapping len offset c f)

  written-IsMissFree :
      (address : ℕ) (bytes : List ℕ) (offset : ℕ) (h : Host W Mapping Iface)
      → Found address h
      → IsMissFree R (dma_write libraries address bytes offset h)
  unfolding dma_write write_mapping
  written-IsMissFree address bytes offset (panicked p) f = f
  written-IsMissFree address bytes offset (running c) (f, mapping, found) =
      rw (dma_write, found)
        (IsMissFree-if (libraries.write_volatile mapping bytes offset c.world).0 _ _
          ((closed c.timer).write_volatile mapping bytes offset c.world f) tt)

  pub triggered-IsMissFree :
      (h : Host W Mapping Iface) → IsMissFree R h → IsMissFree R (trigger_interrupt libraries h)
  unfolding trigger_interrupt
  triggered-IsMissFree (panicked p) f = f
  triggered-IsMissFree (running c) f =
      IsMissFree-if (libraries.trigger_irq c.world).0 _ _ ((closed c.timer).trigger_irq c.world f)
        tt

  pub now-IsMissFree :
      (h : Host W Mapping Iface) → IsMissFree R h → IsMissFree R (instant_now libraries h).1
  unfolding instant_now
  now-IsMissFree (panicked p) f = f
  now-IsMissFree (running c) f = (closed c.timer).instant_now c.world f

  pub IsMissFree-IsServed : IsServed (host_context libraries) (IsMissFree R)
  IsMissFree-IsServed = record {
    send = sent-IsMissFree;
    prepare = λ address len h f. Found-IsMissFree address _ (prepared-Found address len h f);
    prepared_read = λ address prepared len offset h f.
        read-IsMissFree address len offset _ (prepared-Found address prepared h f);
    prepared_write = λ address prepared bytes offset h f.
        written-IsMissFree address bytes offset _ (prepared-Found address prepared h f);
  }

-- A predicate on the world alone does not look at the timer.
module _ {W Mapping Iface : Type 0} (libraries : Libraries W Mapping Iface) (R : W → Type 0)
    (closed : IsWorldClosed libraries R) where
  deleted-IsMissFree :
      (h : Host W Mapping Iface) → IsMissFree (λ t. R) h → IsMissFree (λ t. R) (delete_timer h)
  unfolding delete_timer
  deleted-IsMissFree (panicked p) f = f
  deleted-IsMissFree (running c) f = f

  timed-IsMissFree :
      (duration : ℕ) (h : Host W Mapping Iface)
      → IsMissFree (λ t. R) h
      → IsMissFree (λ t. R) (set_timer libraries duration h)
  unfolding set_timer
  timed-IsMissFree duration (panicked p) f = f
  timed-IsMissFree duration (running c) f = closed.instant_now c.world f

  pub IsMissFree-IsClosed :
      IsClosed (host_context libraries) (host_clock libraries) (Unit {0}) (IsMissFree (λ t. R))
  IsMissFree-IsClosed = record {
    served = IsMissFree-IsServed libraries (λ t. R) (λ t. closed);
    trigger_interrupt = triggered-IsMissFree libraries (λ t. R) (λ t. closed);
    delete_timer = deleted-IsMissFree;
    set_timer = λ duration h t f. timed-IsMissFree duration h f;
    now = now-IsMissFree libraries (λ t. R) (λ t. closed);
  }
