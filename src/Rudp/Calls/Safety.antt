-- ===== src/Rudp/Calls/Safety.antt =====
-- Sequences of calls on a RUDP: panics and packet sizes.
use mathlib.Core.Path.{subst}
use rudp_go.Common.{ℕ, sym, refl, ◌∙◌, List, [], ◌∷◌, All, Returns, Returns-bind, Returns-mono}
use rudp_go.Rudp.{Rudp, World, new_rudp}
use rudp_go.Rudp.Sized.{SizedAt, new_rudp-Sized}
use rudp_go.Rudp.Send.{send}
use rudp_go.Rudp.Send.Safety.{send-Sized}
use rudp_go.Rudp.Delivery.Sizes.{receive-Sized}
use rudp_go.Rudp.Flush.{flush}
use rudp_go.Rudp.Flush.Packet.Bounds.{Within}
use rudp_go.Rudp.Flush.Safety.{Flushed, flush-Flushed}
use rudp_go.Rudp.Input.{input}
use rudp_go.Rudp.Input.Loop.Bounds.{Safe}
use rudp_go.Rudp.Input.Safety.{input-Safe}
use rudp_go.Rudp.Config.Bounds.{wnd_size-Sized, no_delay-Sized, release_tx-Sized}
use rudp_go.Rudp.Calls.{
  Call, send_bytes, receive_into, input_packet, flush_now, set_windows, set_timing, release,
  perform, perform_all, IsPossible,
}

module _ (clock : ℕ → ℕ) (mtu : ℕ) where
  abbrev SafeState : Rudp × World → Type 0
  SafeState s = Safe mtu s.0 s.1

  perform-Safe :
      (c : Call) (r : Rudp) (w : World)
      → IsPossible c
      → Safe mtu r w
      → Returns (perform clock c r w) SafeState
  unfolding perform
  perform-Safe (send_bytes buffer) r w p s =
      Returns-bind (send r buffer) _ (λ x. SizedAt r.mtu x.1) _ (send-Sized r buffer s.0.0)
        λ x v. ((v.0, v.1 ∙ s.0.1), s.1)
  perform-Safe (receive_into room) r w p s = (receive-Sized mtu room r s.0, s.1)
  perform-Safe (input_packet packet regular ack_no_delay) r w p s =
      Returns-bind (input clock packet regular ack_no_delay r w) _ (λ x. Safe r.mtu x.1 x.2) _
        (input-Safe clock packet regular ack_no_delay r w p s.0.0
          (subst (λ m. Within m w) (sym s.0.1) s.1))
        λ x v. subst (λ m. Safe m x.1 x.2) s.0.1 v
  perform-Safe (flush_now ack_only) r w p s =
      Returns-bind (flush clock ack_only r w) _ (Flushed r.mtu) _
        (flush-Flushed clock ack_only r w s.0.0 (subst (λ m. Within m w) (sym s.0.1) s.1))
        λ x f. ((f.0, f.1 ∙ s.0.1), subst (λ m. Within m x.2) s.0.1 f.2)
  perform-Safe (set_windows sndwnd rcvwnd) r w p s = (wnd_size-Sized mtu r s.0 sndwnd rcvwnd, s.1)
  perform-Safe (set_timing nodelay interval resend nc) r w p s =
      (no_delay-Sized mtu r s.0 nodelay interval resend nc, s.1)
  perform-Safe release r w p s = (release_tx-Sized mtu r s.0, s.1)

  pub perform_all-Safe :
      (calls : List Call) (r : Rudp) (w : World)
      → All IsPossible calls
      → Safe mtu r w
      → Returns (perform_all clock calls r w) SafeState
  unfolding perform_all
  perform_all-Safe [] r w p s = s
  perform_all-Safe (c ∷ calls) r w p s =
      Returns-bind (perform clock c r w) _ SafeState _ (perform-Safe c r w p.0 s)
        λ x s'. perform_all-Safe calls x.0 x.1 p.1 s'

-- Whatever calls are made on a new RUDP, in whatever order, with whatever bytes come in packets of
-- at most 1500 bytes: every call returns, none panics, and no packet handed to the output callback
-- is longer than 1400 bytes, the default MTU. Condition: no packet in the world before was either.
pub calls_return :
    (clock : ℕ → ℕ) (conv : ℕ) (calls : List Call) (w : World)
    → All IsPossible calls
    → Within 1400 w
    → Returns (perform_all clock calls (new_rudp conv) w) (λ s. Within 1400 s.1)
unfolding new_rudp
calls_return clock conv calls w p h =
    Returns-mono (perform_all clock calls (new_rudp conv) w) (SafeState clock 1400) _
      (perform_all-Safe clock 1400 calls (new_rudp conv) w p ((new_rudp-Sized conv, refl), h))
      λ s v. v.1
