-- ===== src/Descriptors/Ring/Laws.antt =====
-- The part of a descriptor ring that the hardware owns, as a queue of slots.
use e1000_emu.Prelude.{
  ℕ, zero, suc, ◌+◌, ◌-◌, ◌%◌, ◌^◌, ◌<◌, ◌≡◌, refl, sym, ap, subst, ◌∙◌, false, some, List, [], ◌∷◌,
  ◌++◌, arith, ltb, ◌==◌, if◌then◌else◌,
}
use native.Mathlib.Nat.{mod-eq_of_lt, mod-eq-sub-mod, mod-add-mod}
use Prim.Native.Nat.add
use mathlib.Core.Option.{some-injective}
use native.Mathlib.Decide.{dec_lt}
use e1000_emu.Descriptors.Ring.{DescriptorRing, hardware_owned_descriptors, is_empty, advance_head}

-- Head and tail lie in the ring. The code checks neither.
pub record IsRing (r : DescriptorRing) : Type 0 where
  pub head_in : r.head < r.length
  pub tail_in : r.tail < r.length
  pub small : r.length < 2 ^ 32

-- A remainder of less than two rounds.
pub mod_round : (x n : ℕ) → x < n + n → x % n ≡ (if ltb x n then x else x - n)
mod_round x n h = elim (dec_lt x n) [
  | yes p ↦ ground (arith, mod-eq_of_lt p)
  | no p ↦ ground (
    arith,
    mod-eq-sub-mod {n = x} {m = n} (omega arith),
    mod-eq_of_lt {n = x - n} {m = n} (omega arith),
  )
]

-- The slots from `head` on, `n` of them, going round at the end.
abbrev pub slots : ℕ → ℕ → ℕ → List ℕ
slots len head zero = []
slots len head (suc n) = head ∷ slots len ((head + 1) % len) n

abbrev pub owned_slots : DescriptorRing → List ℕ
owned_slots r = slots r.length r.head (hardware_owned_descriptors r)

-- In a ring of fewer than 2^32 descriptors with head and tail among them, the count of owned
-- descriptors is below the length, leads round the ring from head to tail, and is 0 exactly if
-- the ring is empty.
pub owned_lem :
    (r : DescriptorRing)
    → IsRing r
    → (hardware_owned_descriptors r < r.length)
      × ((r.head + hardware_owned_descriptors r) % r.length ≡ r.tail)
      × (is_empty r ≡ (hardware_owned_descriptors r == 0))
unfolding is_empty hardware_owned_descriptors
owned_lem r v = ground (arith, mod_round (r.head + hardware_owned_descriptors r) r.length)

-- The head moves to the next slot, and one descriptor less is owned.
pub advance_head_lem :
    (r : DescriptorRing)
    → IsRing r
    → is_empty r ≡ false
    → (r' : DescriptorRing) × (advance_head r ≡ some r')
      × IsRing r'
      × (r' ≡ record r { head = (r.head + 1) % r.length })
      × (hardware_owned_descriptors r ≡ suc (hardware_owned_descriptors r'))
unfolding advance_head is_empty hardware_owned_descriptors
advance_head_lem r v h = (
  record r { head = (r.head + 1) % r.length },
  ground arith,
  record { head_in = omega (arith, v); tail_in = v.tail_in; small = v.small },
  refl,
  ground (arith, mod_round (r.head + 1) r.length),
)

-- The fields that advancing keeps.
pub advanced_fields :
    (r r' : DescriptorRing)
    → advance_head r ≡ some r'
    → (r'.ring_address ≡ r.ring_address)
      × (r'.length ≡ r.length)
      × (r'.tail ≡ r.tail)
      × (r'.head ≡ (r.head + 1) % r.length)
      × (0 < r.length)
unfolding advance_head
advanced_fields r r' h = ground (arith, h)

-- The ring that advancing gives.
pub advanced-IsRing :
    (r r' : DescriptorRing)
    → IsRing r
    → is_empty r ≡ false
    → advance_head r ≡ some r'
    → IsRing r' × (hardware_owned_descriptors r ≡ suc (hardware_owned_descriptors r'))
advanced-IsRing r r' v h e =
    let (s, e', v', f, k) = advance_head_lem r v h in
    let same : s ≡ r' = some-injective s r' (sym e' ∙ e) in
    subst (λ x. IsRing x × (hardware_owned_descriptors r ≡ suc (hardware_owned_descriptors x))) same
      (v', k)

-- In a ring of fewer than 2^32 descriptors with head and tail among them that is not empty,
-- advancing the head takes the first of the owned slots away and keeps head and tail in the ring.
pub owned_slots-advance_head :
    (r : DescriptorRing)
    → IsRing r
    → is_empty r ≡ false
    → (r' : DescriptorRing) × (advance_head r ≡ some r')
      × IsRing r'
      × (owned_slots r ≡ r.head ∷ owned_slots r')
owned_slots-advance_head r v h =
    let (r', e, v', f, k) = advance_head_lem r v h in (r', e, v', rw (k, f) refl)

slots-add :
    (len head n m : ℕ)
    → head < len
    → slots len head (n + m) ≡ slots len head n ++ slots len ((head + n) % len) m
slots-add len head zero m h = ground (arith, mod-eq_of_lt h)
slots-add len head (suc n) m h = rw (add.suc n m) (
    ap (◌∷◌ head) (
      slots-add len ((head + 1) % len) n m (omega arith)
      ∙ ap (λ x. slots len ((head + 1) % len) n ++ slots len x m) round))
  where
    round : ((head + 1) % len + n) % len ≡ (head + suc n) % len
    round = rw mod-add-mod (ap (λ x. x % len) (omega arith))

-- The ring after the software moved the tail on by `k` slots.
abbrev pub hand_over : DescriptorRing → ℕ → DescriptorRing
hand_over r k = record r { tail = (r.tail + k) % r.length }

owned-hand_over :
    (r : DescriptorRing) (k : ℕ)
    → IsRing r
    → hardware_owned_descriptors r + k < r.length
    → hardware_owned_descriptors (hand_over r k) ≡ hardware_owned_descriptors r + k
unfolding hardware_owned_descriptors
owned-hand_over r k v h = ground (arith, mod_round (r.tail + k) r.length)

-- In a ring of fewer than 2^32 descriptors with head and tail among them, where the software
-- moves the tail on by `k` slots and keeps one free, head and tail stay in the ring and the
-- hardware owns these slots after those that it had.
pub owned_slots-hand_over :
    (r : DescriptorRing) (k : ℕ)
    → IsRing r
    → hardware_owned_descriptors r + k < r.length
    → IsRing (hand_over r k)
      × (owned_slots (hand_over r k) ≡ owned_slots r ++ slots r.length r.tail k)
owned_slots-hand_over r k v h = (
  record { head_in = v.head_in; tail_in = omega (arith, v); small = v.small },
  rw (owned-hand_over r k v h) (
      slots-add r.length r.head (hardware_owned_descriptors r) k v.head_in
      ∙ ap (λ x. owned_slots r ++ slots r.length x k) (owned_lem r v).1),
)
