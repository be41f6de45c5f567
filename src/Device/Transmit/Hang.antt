-- ===== src/Device/Transmit/Hang.antt =====
-- The loop of `process_tx_ring` of src/e1000/transmit.rs with a tail outside the ring.
use e1000_emu.Prelude.{ℕ, zero, suc, ◌≤◌, ◌<◌, ◌≡◌, false, some, arith}
use e1000_emu.Outcome.{Outcome, ok, err, panic, out_of_fuel, M, ◌>>=◌}
use e1000_emu.Outcome.Post.{Post}
use e1000_emu.Packing.{Derive}
use e1000_emu.NicContext.{NicContext, InternetChecksum}
use e1000_emu.Descriptors.Ring.{DescriptorRing, is_empty, advance_head}
use e1000_emu.Device.Transmit.{TxLoop, tx_step, tx_loop}
use e1000_emu.Device.Transmit.Loop.{tx_step-Post}

-- It neither returns nor fails: it panics or is still running.
abbrev pub Runs : {S A : Type 0} → Outcome S A → Type 0
Runs (ok a s) = ⊥
Runs (err s) = ⊥
Runs panic = Unit {0}
Runs out_of_fuel = Unit {0}

module _ {S A B : Type 0} where
  Runs-bind :
      (Q : A → S → Type 0) (m : M S A) (f : A → M S B) (s : S)
      → Post Q (λ t. ⊥) (m s)
      → ((a : A) (t : S) → Q a t → Runs (f a t))
      → Runs ((m >>= f) s)
  Runs-bind Q m f s h k = go (m s) h
    where
      go :
          (o : Outcome S A)
          → Post Q (λ t. ⊥) o
          → Runs (elim o [
            | ok a t ↦ f a t
            | err t ↦ err t
            | panic ↦ panic
            | out_of_fuel ↦ out_of_fuel
          ])
      go (ok a t) h = k a t h
      go (err t) h = h
      go panic h = tt
      go out_of_fuel h = tt

-- The tail lies outside the ring.
pub record IsAstray (r : DescriptorRing) : Type 0 where
  pub head_in : r.head < r.length
  pub tail_out : r.length ≤ r.tail

IsAstray-advance : (r r' : DescriptorRing) → IsAstray r → advance_head r ≡ some r' → IsAstray r'
unfolding advance_head
IsAstray-advance r r' v h = record {
  head_in = ground (arith, h, v.head_in);
  tail_out = ground (arith, h, v.tail_out);
}

IsAstray-is_empty : (r : DescriptorRing) → IsAstray r → is_empty r ≡ false
unfolding is_empty
IsAstray-is_empty r v = ground (arith, v.head_in, v.tail_out)

module _ {C : Type 0} ⦃N : NicContext C⦄ ⦃D : Derive⦄ ⦃K : InternetChecksum⦄ where
  -- If the head of the ring lies in it and the tail does not, the loop is still running after any
  -- number of rounds, unless it has panicked: it never ends with a result or an error.
  pub tx_loop-Runs : (fuel : ℕ) (l : TxLoop) (c : C) → IsAstray l.ring → Runs (tx_loop fuel l c)
  unfolding tx_loop
  tx_loop-Runs zero l c v = rw (IsAstray-is_empty l.ring v) tt
  tx_loop-Runs (suc fuel) l c v = rw (IsAstray-is_empty l.ring v) (
      Runs-bind (λ l' t. advance_head l.ring ≡ some l'.ring) (tx_step l) _ c (tx_step-Post l c)
        (λ l' t e. tx_loop-Runs fuel l' t (IsAstray-advance l.ring l'.ring v e)))
