-- ===== src/Listener.antt =====
-- listener.go: the sessions by their peers' addresses, the packets that come in, the queue for
-- AcceptRUDP, and Close. A session is known by its place in `made`, which stands for the memory
-- that the map, the queue and the callers share. An address is known by a number, in place of the
-- string that `String` gives.
pub mod Slots
pub mod Steady
pub mod Closing
pub mod Adding
pub mod Dispatch
pub mod Errors
pub mod Events
pub mod Monitor
mod Runs
use rudp_go.Common.{
  ℕ, suc, ◌+◌, ◌≡◌, ◌≢◌, ◌≤◌, List, [], ◌∷◌, ◌++◌, Bool, true, false, ◌&&◌, not, length, take, drop,
  ltb, leb, ◌==◌, if◌then◌else◌, Outcome, done, ◌>>=◌, Option, none, some, index, set,
}
use rudp_go.Wire.{overhead, decode_uint32}
use rudp_go.Rudp.{World}
use rudp_go.Session.{Session, rudp_input, close, notify_read_error}
use rudp_go.Session.Opening.{new_udp_session}

-- A session made by the listener, and the address of its peer.
pub record Made : Type 0 where
  pub session : Session
  pub remote : ℕ

pub record Slot : Type 0 where
  pub address : ℕ
  pub id : ℕ

-- `world` is what the sessions share: the clock's readings and the counters.
pub record Listener : Type 0 where
  pub ciphered : Bool
  pub own_conn : Bool
  pub sessions : List Slot
  pub accepts : List ℕ
  pub died : Bool
  pub conn_closed : Bool
  pub read_error : Option ℕ
  pub read_ddl : Option ℕ
  pub made : List Made
  pub world : World

abbrev pub accept_backlog : ℕ
accept_backlog = 128

abbrev pub sn_offset : ℕ
sn_offset = 12

unfoldable pub lookup : ℕ → List Slot → Option ℕ
lookup address [] = none
lookup address (s ∷ slots) = if s.address == address then some s.id else lookup address slots

unfoldable pub remove : ℕ → List Slot → List Slot
remove address [] = []
remove address (s ∷ slots) =
    let rest = remove address slots in if s.address == address then rest else s ∷ rest

-- serveConn
pub serve_conn : Bool → Bool → World → Listener
serve_conn ciphered own_conn world = record {
  ciphered = ciphered;
  own_conn = own_conn;
  sessions = [];
  accepts = [];
  died = false;
  conn_closed = false;
  read_error = none;
  read_ddl = none;
  made = [];
  world = world;
}

-- A call on the session `id`, with what the sessions share.
pub on_session : ℕ → (Session → Outcome Session) → Listener → Outcome Listener
on_session id call l = do
  m ← index l.made id
  s ← call (record m.session { world = l.world })
  done (record l { made = set l.made id (record m { session = s }); world = s.world })

pub close_session : ℕ → Listener → Bool × Listener
close_session address l = elim (lookup address l.sessions) [
  | none ↦ (false, l)
  | some id ↦ (true, record l { sessions = remove address l.sessions })
]

-- Close of a session that the listener made, up to the unlock of `mu`. The result is the address
-- for closeSession, the first time.
pub close_begun : (ℕ → ℕ) → ℕ → Listener → Outcome (Option ℕ × Listener)
close_begun clock id l = do
  m ← index l.made id
  closed ← close clock (record m.session { world = l.world })
  done (
    (if closed.0 then some m.remote else none),
    record l { made = set l.made id (record m { session = closed.1 }); world = closed.1.world },
  )

-- The rest of Close.
pub close_rest : Option ℕ × Listener → Listener
close_rest (none, l) = l
close_rest (some address, l) = (close_session address l).1

-- A whole Close, as packetInput calls it.
pub close_made : (ℕ → ℕ) → ℕ → Listener → Outcome Listener
unfolding close_begun close_rest
close_made clock id l = do x ← close_begun clock id l; done (close_rest x)

-- A new session, which handles the packet and then waits to be accepted.
pub add_session : (ℕ → ℕ) → ℕ → List ℕ → ℕ → Listener → Outcome Listener
add_session clock conv packet from l = do
  s ← rudp_input clock packet (new_udp_session conv l.ciphered true l.world)
  done (record l {
    made = l.made ++ record { session = s; remote = from } ∷ [];
    world = s.world;
    sessions = record { address = from; id = length l.made } ∷ remove from l.sessions;
    accepts = l.accepts ++ length l.made ∷ [];
  })

pub if_room : (ℕ → ℕ) → ℕ → List ℕ → ℕ → Listener → Outcome Listener
if_room clock conv packet from l =
    let added = add_session clock conv packet from l in
    if ltb (length l.accepts) accept_backlog then added else done l

-- A packet from the address of the session `id`.
pub known_input : (ℕ → ℕ) → (id conv sn : ℕ) → List ℕ → ℕ → Listener → Outcome Listener
known_input clock id conv sn packet from l = do
  m ← index l.made id
  let replaced = close_made clock id l >>= if_room clock conv packet from
  let other = if sn == 0 then replaced else done l
  let handled = on_session id (rudp_input clock packet) l
  if conv == m.session.rudp.conv then handled else other

pub dispatch_packet : (ℕ → ℕ) → List ℕ → ℕ → Listener → Outcome Listener
dispatch_packet clock packet from l = do
  conv ← decode_uint32 (take 4 packet)
  sn ← decode_uint32 (drop sn_offset packet)
  elim (lookup from l.sessions) [
    | none ↦ if_room clock conv.0 packet from l
    | some id ↦ known_input clock id conv.0 sn.0 packet from l
  ]

-- Decryption is still to be written in the source: with a cipher every packet is dropped.
pub listener_input : (ℕ → ℕ) → List ℕ → ℕ → Listener → Outcome Listener
listener_input clock packet from l =
    let dispatched = dispatch_packet clock packet from l in
    if not l.ciphered && leb overhead (length packet) then dispatched else done l

pub notify_sessions : ℕ → List Slot → List Made → Outcome (List Made)
notify_sessions err [] made = done made
notify_sessions err (slot ∷ slots) made = do
  m ← index made slot.id
  notify_sessions err slots
      (set made slot.id (record m { session = notify_read_error err m.session }))

-- notifyReadError: the first error goes to every session.
pub listener_read_error : ℕ → Listener → Outcome Listener
listener_read_error err l = elim l.read_error [
  | some e ↦ done l
  | none ↦ notify_sessions err l.sessions l.made >>= λ made.
      done (record l { read_error = some err; made = made })
]

-- Close: the second call fails. The sessions stay as they are.
pub close_listener : Listener → Bool × Listener
close_listener l = if l.died then (false, l) else (
  true,
  record l { died = true; conn_closed = (if l.own_conn then true else l.conn_closed) },
)

-- The cases of the select statement of AcceptRUDP.
pub data Choice : Type 0 where
  timer_ended : Choice
  session_came : Choice
  socket_failed : Choice
  listener_died : Choice

pub data Accepted : Type 0 where
  accepted : ℕ → Accepted
  accept_timed_out : Accepted
  accept_failed : ℕ → Accepted
  accept_closed : Accepted

-- `none` is a case that cannot be taken now.
pub accept_rudp : Choice → Listener → Option (Accepted × Listener)
accept_rudp timer_ended l = elim l.read_ddl [ none ↦ none | some t ↦ some (accept_timed_out, l) ]
accept_rudp session_came l = elim l.accepts [
  | [] ↦ none
  | id ∷ rest ↦ some (accepted id, record l { accepts = rest })
]
accept_rudp socket_failed l = elim l.read_error [ none ↦ none | some e ↦ some (accept_failed e, l) ]
accept_rudp listener_died l = if l.died then some (accept_closed, l) else none
