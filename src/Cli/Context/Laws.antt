-- ===== src/Cli/Context/Laws.antt =====
-- The mappings of src/bin/nic-emu-cli/ctx.rs: what `dma_prepare` leaves.
use e1000_emu.Prelude.{
  ℕ, ◌≤◌, ◌≡◌, refl, ◌⊎◌, inl, inr, false, Option, none, some, List, ◌∷◌, arith, ltb, ◌==◌,
  if◌then◌else◌, Bool-cases,
}
use e1000_emu.Cli.{Libraries}
use e1000_emu.Cli.Context.{
  LibvfioUserContext, unwrapped, Host, running, panicked, lookup, insert_mapping, dma_prepare,
}

-- The address has a mapping for that length, and every other address the one it had.
pub record IsPrepared {W Mapping Iface : Type 0} (libraries : Libraries W Mapping Iface)
    (address len : ℕ) (before after : LibvfioUserContext W Mapping Iface) : Type 0 where
  pub mapping : Mapping
  pub found : lookup address after.dma_mappings ≡ some mapping
  pub long_enough : len ≤ libraries.region_length mapping
  pub others :
      (a : ℕ) → (a ≡ address) ⊎ (lookup a after.dma_mappings ≡ lookup a before.dma_mappings)

module _ {W Mapping Iface : Type 0} (libraries : Libraries W Mapping Iface) where
  -- `DeviceContext::dma_map` maps what it was asked for.
  abbrev pub IsMapping : Type 0
  IsMapping =
      (address len : ℕ) (w w' : W) (mapping : Mapping)
      → libraries.dma_map address len w ≡ (some mapping, w')
      → len ≤ libraries.region_length mapping

  -- Either the address is prepared, or a library reported an error.
  abbrev pub Prepares : ℕ → ℕ → LibvfioUserContext W Mapping Iface → Host W Mapping Iface → Type 0
  Prepares address len before (running after) = IsPrepared libraries address len before after
  Prepares address len before (panicked p) = p ≡ unwrapped

  pub lookup-same :
      {A : Type 0} (a : ℕ) (m : A) (ms : List (ℕ × A)) → lookup a ((a, m) ∷ ms) ≡ some m
  lookup-same a m ms = ground arith

  lookup-other :
      {A : Type 0} (a b : ℕ) (m : A) (ms : List (ℕ × A))
      → (a ≡ b) ⊎ (lookup a ((b, m) ∷ ms) ≡ lookup a ms)
  lookup-other a b m ms = elim (Bool-cases (b == a)) [
    | inl p ↦ inl (ground (arith, p))
    | inr p ↦ inr (rw p refl)
  ]

  insert_mapping-Prepares :
      IsMapping
      → (address len : ℕ) (c : LibvfioUserContext W Mapping Iface)
      → Prepares address len c (insert_mapping libraries address len c)
  unfolding insert_mapping
  insert_mapping-Prepares maps address len c = go (libraries.dma_map address len c.world) refl
    where
      go :
          (r : Option Mapping × W)
          → libraries.dma_map address len c.world ≡ r
          → Prepares address len c (elim r.0 [
            | none ↦ panicked unwrapped
            | some mapping ↦
                running
                  (record c { world = r.1; dma_mappings = (address, mapping) ∷ c.dma_mappings })
          ])
      go (none, w) h = refl
      go (some mapping, w) h = record {
        mapping = mapping;
        found = lookup-same address mapping c.dma_mappings;
        long_enough = maps address len c.world w mapping h;
        others = λ a. lookup-other a address mapping c.dma_mappings;
      }

  -- If the library maps as much as it is asked for, `dma_prepare` leaves a mapping of at least the
  -- length asked for at the address, and at every other address the mapping that was there; or the
  -- library or the interface reported an error.
  pub dma_prepare-Prepares :
      IsMapping
      → (address len : ℕ) (c : LibvfioUserContext W Mapping Iface)
      → Prepares address len c (dma_prepare libraries address len (running c))
  unfolding dma_prepare
  dma_prepare-Prepares maps address len c = go (lookup address c.dma_mappings) refl
    where
      go :
          (o : Option Mapping)
          → lookup address c.dma_mappings ≡ o
          → Prepares address len c (elim o [
            | some mapping ↦
                if ltb (libraries.region_length mapping) len
                then insert_mapping libraries address len c
                else running c
            | none ↦ insert_mapping libraries address len c
          ])
      go none h = insert_mapping-Prepares maps address len c
      go (some mapping) h = elim (Bool-cases (ltb (libraries.region_length mapping) len)) [
        | inl p ↦ rw p (insert_mapping-Prepares maps address len c)
        | inr p ↦ rw p (record {
          mapping = mapping;
          found = h;
          long_enough = ground (arith, p);
          others = λ a. inr refl;
        })
      ]

  prepared-kept :
      (address len : ℕ) (c : LibvfioUserContext W Mapping Iface) (h : Host W Mapping Iface)
      → Prepares address len c h
      → dma_prepare libraries address len h ≡ h
  unfolding dma_prepare
  prepared-kept address len c (panicked p) d = refl
  prepared-kept address len c (running c') d =
      let enough : ltb (libraries.region_length d.mapping) len ≡ false =
        ground (arith, d.long_enough) in
      rw (dma_prepare, d.found) (rw enough refl)

  -- If the library maps as much as it is asked for, the mappings are cached: `dma_prepare` of a
  -- running context, when it is called a second time, changes nothing.
  dma_prepare-dma_prepare :
      IsMapping
      → (address len : ℕ) (c : LibvfioUserContext W Mapping Iface)
      → dma_prepare libraries address len (dma_prepare libraries address len (running c))
        ≡ dma_prepare libraries address len (running c)
  dma_prepare-dma_prepare maps address len c =
      prepared-kept address len c (dma_prepare libraries address len (running c))
        (dma_prepare-Prepares maps address len c)
