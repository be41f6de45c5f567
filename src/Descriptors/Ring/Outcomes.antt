-- ===== src/Descriptors/Ring/Outcomes.antt =====
-- What reading and writing back at the head of a ring come to.
use e1000_emu.Prelude.{◌≡◌, some}
use e1000_emu.Outcome.{pure, fail, or_fail, or_panic, ◌>>◌}
use e1000_emu.Outcome.Post.{Post, Ends, Post-bind, Post-or_panic, Ends-bind, Ends-or_fail, Ends-if}
use e1000_emu.Packing.{PackedStruct}
use e1000_emu.NicContext.{NicContext}
use e1000_emu.Descriptors.Ring.{
  DescriptorRing, is_empty, advance_head, read_head, write_and_advance_head, read_descriptor,
  write_descriptor, head_check,
}

module _ {C : Type 0} ⦃N : NicContext C⦄ where
  pub read_head-Ends :
      {A : Type 0} (P : PackedStruct A) (r : DescriptorRing) (c : C) → Ends (read_head P r c)
  unfolding read_head read_descriptor head_check
  read_head-Ends P r c =
      Ends-bind (head_check r) _ c (Ends-if (is_empty r) fail (pure tt) c tt tt)
        (λ a t. Ends-or_fail (P.unpack _) _)

  -- Writing back at the head either fails or advances the head.
  pub write_and_advance_head-Post :
      {A : Type 0} (P : PackedStruct A) (r : DescriptorRing) (d : A) (c : C)
      → Post (λ r' c'. advance_head r ≡ some r') (λ c'. Unit) (write_and_advance_head P r d c)
  unfolding write_and_advance_head write_descriptor head_check
  write_and_advance_head-Post P r d c =
      Post-bind (λ a t. Unit) (λ r' t. advance_head r ≡ some r') (λ t. Unit) (head_check r)
        (λ a. write_descriptor P r d r.head >> or_panic (advance_head r)) c
        (Ends-if (is_empty r) fail (pure tt) c tt tt)
        λ a t p.
          Post-bind (λ a t. Unit) (λ r' t. advance_head r ≡ some r') (λ t. Unit)
            (write_descriptor P r d r.head) (λ b. or_panic (advance_head r)) t
            (Ends-bind (or_fail (P.pack d)) _ _ (Ends-or_fail (P.pack d) _) (λ b u. tt))
            λ b u q. Post-or_panic _ _ (advance_head r) u (λ r' e. e)
