-- ===== src/Device/Receive/Ends.antt =====
-- `receive` of src/e1000/receive.rs has no loop to hang in.
use e1000_emu.Prelude.{ℕ, ◌≡◌, some, ltb, List, length}
use e1000_emu.Outcome.{assert, or_fail}
use e1000_emu.Outcome.Post.{Post-zoom_err, Ends, Ends-bind, Ends-assert, Ends-or_fail, Post-Ends}
use e1000_emu.Packing.{Derive}
use e1000_emu.NicContext.{NicContext, Clock}
use e1000_emu.Descriptors.Ring.{DescriptorRing, advance_head}
use e1000_emu.Device.State.{E1000, on_ctx}
use e1000_emu.Device.Receive.{fill_head, receive, is_ready}
use e1000_emu.Device.Receive.Laws.{fill_head-Post, finish, finish_lem}

module _ {C : Type 0} ⦃D : Derive⦄ ⦃N : NicContext C⦄ ⦃T : Clock C⦄ where
  fill_ring-Ends :
      (r : DescriptorRing) (frame : List ℕ) (e : E1000 C) → Ends (on_ctx (fill_head e r frame) e)
  fill_ring-Ends r frame e = Post-Ends _ _ (on_ctx (fill_head e r frame) e) (
      Post-zoom_err (λ r' c. advance_head r ≡ some r') (λ x. x.nic_ctx)
        (λ c x. record x { nic_ctx = c }) (fill_head e r frame) e
        (fill_head-Post e r frame e.nic_ctx))

  pub receive-Ends : (frame : List ℕ) (e : E1000 C) → Ends (receive frame e)
  unfolding receive
  receive-Ends frame e =
      Ends-bind (assert (ltb 0 (length frame))) _ e (Ends-assert (ltb 0 (length frame)) e) λ a t.
        Ends-bind (assert (is_ready t.receive_state)) _ t (Ends-assert (is_ready t.receive_state) t)
          λ b u. Ends-bind (or_fail u.rx_ring) _ u (Ends-or_fail u.rx_ring u) λ r v.
            Ends-bind (λ e. on_ctx (fill_head e r frame) e) finish v (fill_ring-Ends r frame v)
              (λ r' w. rw (finish_lem r' w) tt)
