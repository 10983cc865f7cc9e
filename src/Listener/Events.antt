-- ===== src/Listener/Events.antt =====
-- listener.go: what happens to a listener and its sessions, in any order. A packet is read from the
-- socket, a caller uses a session, begins to close it or comes to the end of its Close, or calls
-- AcceptRUDP, the socket fails, the listener is closed. Close of a session lets others run between
-- its unlock of `mu` and closeSession, so it is two events; packetInput is one event, since one
-- goroutine reads the socket and nobody else adds to the map.
pub mod Onward
pub mod Courses
pub mod Safety
use rudp_go.Common.{
  ℕ, List, [], ◌∷◌, ◌++◌, length, Bool, true, false, ◌||◌, ◌==◌, ltb, if◌then◌else◌, Outcome, done,
  ◌>>=◌, Option, none, some, ◌≤◌,
}
use rudp_go.Rudp.{mtu_limit}
use rudp_go.Session.Events.{Event, handle, IsPossible}
use rudp_go.Session.Living.{IsUse}
use rudp_go.Listener.{
  Listener, lookup, on_session, close_begun, close_session, listener_input, listener_read_error,
  close_listener, Choice, Accepted, accepted, accept_rudp,
}

pub data ListenerEvent : Type 0 where
  packet_read : (packet : List ℕ) (from : ℕ) → ListenerEvent
  session_used : (id : ℕ) → Event → ListenerEvent
  session_closed : (id : ℕ) → ListenerEvent
  -- a Close of a session with this address comes to closeSession
  close_ended : (address : ℕ) → ListenerEvent
  accept_called : Choice → ListenerEvent
  read_failed : (err : ℕ) → ListenerEvent
  listener_closed : ListenerEvent

abbrev pub accepted_id : Accepted → List ℕ
accepted_id (accepted id) = id ∷ []
accepted_id _ = []

-- AcceptRUDP waits on where the case cannot be taken.
pub after_accept : Option (Accepted × Listener) → Listener → List ℕ × Listener
after_accept none l = ([], l)
after_accept (some x) l = (accepted_id x.0, x.1)

-- A call on a session that has been made; nobody has any other.
pub if_made : {A : Type 0} → ℕ → Outcome A → A → Listener → Outcome A
if_made id call otherwise l = if ltb id (length l.made) then call else done otherwise

-- `given` is what AcceptRUDP has given, oldest first; `closing` has the addresses for which a Close
-- is still to call closeSession, and `struck` the sessions that such a call took out of the map.
pub record Course : Type 0 where
  pub given : List ℕ
  pub closing : List ℕ
  pub struck : List ℕ
  pub listener : Listener

abbrev pub is_in : ℕ → List ℕ → Bool
is_in a [] = false
is_in a (b ∷ bs) = a == b || is_in a bs

abbrev pub take_out : ℕ → List ℕ → List ℕ
take_out a [] = []
take_out a (b ∷ bs) = let rest = take_out a bs in if a == b then bs else b ∷ rest

abbrev pub add_some : Option ℕ → List ℕ → List ℕ
add_some none bs = bs
add_some (some a) bs = a ∷ bs

abbrev pub begin_close : Course → Option ℕ × Listener → Course
begin_close c x = record c { closing = add_some x.0 c.closing; listener = x.1 }

pub end_close : ℕ → Course → Course
end_close address c = record c {
  closing = take_out address c.closing;
  struck = add_some (lookup address c.listener.sessions) c.struck;
  listener = (close_session address c.listener).1;
}

abbrev pub move_on : Course → List ℕ × Listener → Course
move_on c x = record c { given = c.given ++ x.0; listener = x.1 }

abbrev pub stay_on : Course → Listener → Course
stay_on c l = record c { listener = l }

pub handle_event : (ℕ → ℕ) → ListenerEvent → Course → Outcome Course
unfolding end_close
handle_event clock (packet_read packet from) c = do
  l ← listener_input clock packet from c.listener
  done (stay_on c l)
handle_event clock (session_used id e) c = do
  l ← if_made id (on_session id (handle clock e) c.listener) c.listener c.listener
  done (stay_on c l)
handle_event clock (session_closed id) c = do
  x ← if_made id (close_begun clock id c.listener) (none, c.listener) c.listener
  done (begin_close c x)
handle_event clock (close_ended address) c =
    done (if is_in address c.closing then end_close address c else c)
handle_event clock (accept_called choice) c =
    done (move_on c (after_accept (accept_rudp choice c.listener) c.listener))
handle_event clock (read_failed err) c = do
  l ← listener_read_error err c.listener
  done (stay_on c l)
handle_event clock listener_closed c = done (stay_on c (close_listener c.listener).1)

pub handle_events : (ℕ → ℕ) → List ListenerEvent → Course → Outcome Course
handle_events clock [] c = done c
handle_events clock (e ∷ events) c = do c ← handle_event clock e c; handle_events clock events c

-- Nothing has happened yet.
abbrev pub at_start : Listener → Course
at_start l = record { given = []; closing = []; struck = []; listener = l }

-- A socket's read buffer bounds a packet; Close of a session is an event of its own.
abbrev pub CanHappen : ListenerEvent → Type 0
CanHappen (packet_read packet from) = length packet ≤ mtu_limit
CanHappen (session_used id e) = IsPossible e × IsUse e
CanHappen _ = Unit {0}
