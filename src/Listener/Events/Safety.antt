-- ===== src/Listener/Events/Safety.antt =====
-- Sequences of events on a listener: panics, loops, the sizes, the map and the queue.
use rudp_go.Common.{ℕ, ◌≡◌, refl, List, [], ◌∷◌, Bool, some, All, Returns, Returns-bind, arith}
use rudp_go.Rudp.{World}
use rudp_go.Session.Sound.{AllShort}
use rudp_go.Session.Events.{handle}
use rudp_go.Session.Events.Safety.{handle-Sound}
use rudp_go.Session.Living.{handle-life}
use rudp_go.Listener.{
  lookup, serve_conn, on_session, listener_input, listener_read_error, close_listener, accept_rudp,
}
use rudp_go.Listener.Closing.{shared, shared-Sound, Called, on_session-Called}
use rudp_go.Listener.Adding.{Handled}
use rudp_go.Listener.Dispatch.{listener_input_lem}
use rudp_go.Listener.Errors.{Alike, listener_read_error-Alike}
use rudp_go.Listener.Events.{
  ListenerEvent, packet_read, session_used, session_closed, close_ended, accept_called, read_failed,
  listener_closed, Course, is_in, at_start, if_made, after_accept, handle_event, handle_events,
  CanHappen,
}
use rudp_go.Listener.Events.Onward.{
  none_given, same_counts, if_made-Called, accept_rudp-Onward, close_listener-Onward,
}
use rudp_go.Listener.Events.Courses.{
  Served, move_on-Served, stay_on-Served, stayed, begin_close-Served, end_close_if-Served,
  IsClosing, IsStruck,
}

handle_event-Served :
    (clock : ℕ → ℕ) (e : ListenerEvent) (c : Course)
    → CanHappen e
    → Served c
    → Returns (handle_event clock e c) Served
unfolding handle_event
handle_event-Served clock (packet_read packet from) c p v =
    stayed c (listener_input clock packet from c.listener)
      (Handled (IsClosing c) (IsStruck c) from c.listener) v
      (listener_input_lem clock packet from c.listener p v.steady)
      (λ l h. none_given (IsClosing c) (IsStruck c) c.listener l v.steady h.steady h.passed)
handle_event-Served clock (session_used id e) c p v =
    stayed c (if_made id (on_session id (handle clock e) c.listener) c.listener c.listener)
      (Called (IsClosing c) (IsStruck c) id c.listener) v
      (if_made-Called (IsClosing c) (IsStruck c) id (on_session id (handle clock e) c.listener)
        c.listener v.steady
        (λ inside.
          on_session-Called id (handle clock e) c.listener inside v.steady
            (handle-Sound clock 1400 e (shared c.listener id) p.0
              (shared-Sound c.listener id inside v.steady))
            (handle-life clock e (shared c.listener id) p.1)))
      (λ l k.
        same_counts (IsClosing c) (IsStruck c) c.listener l v.steady k.steady k.size k.accepts)
handle_event-Served clock (session_closed id) c p v = begin_close-Served clock id c v
handle_event-Served clock (close_ended address) c p v =
    end_close_if-Served (is_in address c.closing) address c v
handle_event-Served clock (accept_called choice) c p v =
    move_on-Served c (after_accept (accept_rudp choice c.listener) c.listener) v
      (accept_rudp-Onward (IsClosing c) (IsStruck c) choice c.listener v.steady)
handle_event-Served clock (read_failed err) c p v =
    stayed c (listener_read_error err c.listener) (Alike (IsClosing c) (IsStruck c) c.listener) v
      (listener_read_error-Alike err c.listener v.steady)
      (λ l a.
        same_counts (IsClosing c) (IsStruck c) c.listener l v.steady a.steady a.size a.accepts)
handle_event-Served clock listener_closed c p v =
    stay_on-Served c (close_listener c.listener).1 v
      (close_listener-Onward (IsClosing c) (IsStruck c) c.listener v.steady)

handle_events-Served :
    (clock : ℕ → ℕ) (events : List ListenerEvent) (c : Course)
    → All CanHappen events
    → Served c
    → Returns (handle_events clock events c) Served
unfolding handle_events
handle_events-Served clock [] c p v = v
handle_events-Served clock (e ∷ events) c p v =
    Returns-bind (handle_event clock e c) _ Served Served (handle_event-Served clock e c p.0 v)
      λ c' v'. handle_events-Served clock events c' p.1 v'

none_listed : (from id : ℕ) → lookup from [] ≡ some id → ⊥
unfolding lookup
none_listed from id e = cc

pub serve_conn-Served :
    (ciphered own_conn : Bool) (world : World)
    → AllShort 1400 world.packets
    → Served (at_start (serve_conn ciphered own_conn world))
unfolding serve_conn
serve_conn-Served ciphered own_conn world short = record {
  steady = record {
    sound = tt;
    short = short;
    room = omega arith;
    exact = record {
      inside = tt;
      listed = λ from id e. absurd (none_listed from id e);
      living = λ id e alive. absurd (omega arith);
    };
    enough = omega arith;
    queue = refl;
  };
  accepted_ids = refl;
}

-- Whatever happens to a new listener, in whatever order (packets of at most 1500 bytes with any
-- content from any addresses, any use of its sessions that handle_all allows, calls of their Close,
-- whose closeSession may come later, calls of AcceptRUDP, an error of the socket, its Close): every
-- handler returns, none panics or loops for ever. Afterwards the sizes of all its sessions are
-- sound, with the MTU 1400; at most 128 sessions wait to be accepted; the map has nothing but
-- sessions made, each under its peer's address and not closed, unless a Close has still to call
-- closeSession for that address; every session that is not closed is in the map under its address,
-- unless the closeSession of a Close took it out; and the sessions accepted so far are those made
-- first, in their order, each once, and the queue has the others. Condition: no packet has been
-- given to the callback that is longer than the MTU.
pub handle_events_lem :
    (clock : ℕ → ℕ) (ciphered own_conn : Bool) (world : World) (events : List ListenerEvent)
    → AllShort 1400 world.packets
    → All CanHappen events
    → Returns (handle_events clock events (at_start (serve_conn ciphered own_conn world))) Served
handle_events_lem clock ciphered own_conn world events short p =
    handle_events-Served clock events (at_start (serve_conn ciphered own_conn world)) p
      (serve_conn-Served ciphered own_conn world short)
