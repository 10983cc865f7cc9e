-- ===== src/Rudp/Receiving.antt =====
-- The receiving side of a RUDP as it was.
use rudp_go.Common.{◌≡◌, refl, ◌∙◌}
use rudp_go.Rudp.{Rudp}

pub record Untouched (r r' : Rudp) : Type 0 where
  pub nxt : r'.rcv_nxt ≡ r.rcv_nxt
  pub wnd : r'.rcv_wnd ≡ r.rcv_wnd
  pub queue : r'.rcv_queue ≡ r.rcv_queue
  pub buf : r'.rcv_buf ≡ r.rcv_buf

pub same : (r : Rudp) → Untouched r r
same r = record { nxt = refl; wnd = refl; queue = refl; buf = refl }

pub Untouched-trans : (a b c : Rudp) → Untouched a b → Untouched b c → Untouched a c
Untouched-trans a b c e f = record {
  nxt = f.nxt ∙ e.nxt;
  wnd = f.wnd ∙ e.wnd;
  queue = f.queue ∙ e.queue;
  buf = f.buf ∙ e.buf;
}
