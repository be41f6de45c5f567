-- ===== src/Cli/Startup/Client.antt =====
-- The wait for a client in src/bin/nic-emu-cli/main.rs: when it ends.
use e1000_emu.Prelude.{
  ℕ, zero, suc, ◌≤◌, ◌<◌, ◌≡◌, refl, sym, subst, arith, Bool, true, false, Option, none, some,
  if◌then◌else◌,
}
use e1000_emu.Outcome.{M, pure, assert, or_panic, ◌>>◌}
use e1000_emu.Outcome.Post.{Post, Post-bind, Post-weaken}
use e1000_emu.Device.State.{E1000}
use e1000_emu.Cli.Context.{LibvfioUserContext, Host, running}
use e1000_emu.Cli.Environment.{Environment}
use e1000_emu.Cli.Startup.{on_world, unwrap_unit, unwrap_world, wait_for_client, event_key_attach}

-- A client that is on its way: each attempt that finds none has fewer before it, and waiting for
-- the socket brings no more.
pub record Arrival {W Iface : Type 0} (env : Environment W Iface) : Type 0 where
  pub missing : W → ℕ
  pub fewer : (w w' : W) → env.attach w ≡ (some false, w') → missing w' < missing w
  pub waits : (w : W) → missing (env.wait w).1 ≤ missing w
  pub modifies : (key : ℕ) (w : W) → missing (env.modify_ctx key w).1 ≤ missing w

module _ {W Mapping Iface : Type 0} (env : Environment W Iface) (e : E1000 (Host W Mapping Iface))
    (c : LibvfioUserContext W Mapping Iface) where
  -- The device with another world behind it.
  abbrev pub moved : W → E1000 (Host W Mapping Iface)
  moved w = record e { nic_ctx = running (record c { world = w }) }

  -- Nothing but the world has changed, and the last attempt has found a client.
  abbrev pub IsAttached : E1000 (Host W Mapping Iface) → Type 0
  IsAttached e' = (w w' : W) × (env.attach w ≡ (some true, w')) × (e' ≡ moved w')

  unwrap_unit-Post :
      (f : W → Bool × W) (w : W)
      → Post (λ a e'. e' ≡ moved (f w).1) (λ e'. ⊥) (unwrap_unit f (moved w))
  unfolding on_world
  unwrap_unit-Post f w = go (f w)
    where
      go : (r : Bool × W) → Post (λ a e'. e' ≡ moved r.1) (λ e'. ⊥) (assert r.0 (moved r.1))
      go (true, w') = refl
      go (false, w') = tt

  unwrap_world-Post :
      {A : Type 0} (f : W → Option A × W) (w : W)
      → Post
          (λ a e'. (w' : W) × (f w ≡ (some a, w')) × (e' ≡ moved w'))
          (λ e'. ⊥)
          (unwrap_world f (moved w))
  unfolding on_world
  unwrap_world-Post {A} f w = go (f w) refl
    where
      go :
          (r : Option A × W)
          → f w ≡ r
          → Post
              (λ a e'. (w' : W) × (f w ≡ (some a, w')) × (e' ≡ moved w'))
              (λ e'. ⊥)
              (or_panic r.0 (moved r.1))
      go (none, w') h = tt
      go (some a, w') h = (w', h, refl)

  module _ (client : Arrival env) where
    -- What one attempt leaves.
    abbrev Tried : ℕ → Bool → E1000 (Host W Mapping Iface) → Type 0
    Tried n attached e' =
        (w w' : W) × (client.missing w < n) × (env.attach w ≡ (some attached, w')) × (e' ≡ moved w')

    attempt-Post :
        (n : ℕ) (w : W)
        → client.missing w < n
        → Post (Tried n) (λ e'. ⊥) ((unwrap_unit env.wait >> unwrap_world env.attach) (moved w))
    attempt-Post n w h =
        Post-bind (λ a e'. e' ≡ moved (env.wait w).1) (Tried n) (λ e'. ⊥) (unwrap_unit env.wait)
          (λ a. unwrap_world env.attach) (moved w) (unwrap_unit-Post env.wait w)
          λ a e' same. rw same (
            Post-weaken
              (λ b e'. (w' : W) × (env.attach (env.wait w).1 ≡ (some b, w')) × (e' ≡ moved w'))
              (Tried n) (λ e'. ⊥) _ (unwrap_world-Post env.attach (env.wait w).1)
              (λ b e' (w', x, y). ((env.wait w).1, w', omega (arith, h, client.waits w), x, y)))

    -- The turn goes on with `rest`, for which fewer attempts are left.
    again-Post :
        (n : ℕ) (rest : M (E1000 (Host W Mapping Iface)) (Unit {0}))
        → ((w : W) → client.missing w < n → Post (λ a e'. IsAttached e') (λ e'. ⊥) (rest (moved w)))
        → (attached : Bool) (e' : E1000 (Host W Mapping Iface)) → Tried (suc n) attached e'
        → Post
            (λ a e'. IsAttached e')
            (λ e'. ⊥)
            ((if attached then pure tt else (unwrap_unit (env.modify_ctx event_key_attach) >> rest))
              e')
    again-Post n rest ends true e' (w1, w2, k, a, same) = (w1, w2, a, same)
    again-Post n rest ends false e' (w1, w2, k, a, same) = rw same (
        Post-bind (λ a e'. e' ≡ moved (env.modify_ctx event_key_attach w2).1)
          (λ a e'. IsAttached e') (λ e'. ⊥) (unwrap_unit (env.modify_ctx event_key_attach))
          (λ a. rest) (moved w2) (unwrap_unit-Post _ w2)
          (λ u e' same.
            rw same (
              ends _
                (omega (arith, client.modifies event_key_attach w2, client.fewer w1 w2 a, k)))))

    wait_for_client-Post :
        (fuel : ℕ) (w : W)
        → client.missing w < fuel
        → Post (λ a e'. IsAttached e') (λ e'. ⊥) (wait_for_client env fuel (moved w))
    unfolding wait_for_client
    wait_for_client-Post zero w h = absurd (omega (arith, h))
    wait_for_client-Post (suc n) w h =
        Post-bind (Tried (suc n)) (λ a e'. IsAttached e') (λ e'. ⊥)
          (unwrap_unit env.wait >> unwrap_world env.attach) _ (moved w) (attempt-Post (suc n) w h)
          (again-Post n (wait_for_client env n) (wait_for_client-Post n))

  -- The wait for a client ends once one comes: if at most `n` attempts to attach find none, `n + 1`
  -- turns of the loop are enough, after the last of them a client is attached, and of the device
  -- and its context nothing has changed but the world, unless a call of a library fails.
  pub wait_for_client-IsAttached :
      (client : Arrival env) (n : ℕ)
      → e.nic_ctx ≡ running c
      → client.missing c.world ≤ n
      → Post (λ a e'. IsAttached e') (λ e'. ⊥) (wait_for_client env (suc n) e)
  wait_for_client-IsAttached client n h k =
      subst
        (λ x.
          Post (λ a e'. IsAttached e') (λ e'. ⊥)
            (wait_for_client env (suc n) (record e { nic_ctx = x })))
        (sym h) (wait_for_client-Post client (suc n) c.world (omega (arith, k)))
