-- ===== src/Session/Opening.antt =====
-- newUDPSession of sess.go: the state of a new session, and the counters.
pub mod Sound
use rudp_go.Common.{ℕ, [], Bool, true, false, if◌then◌else◌, ltb, pos, none, add64}
use rudp_go.Snmp.{Snmp}
use rudp_go.Rudp.{World, new_rudp}
use rudp_go.Rudp.Config.{reserve_bytes}
use rudp_go.Session.{Session, crypt_header_size}

-- A session of a listener was opened by its peer, any other by this process.
pub count_opening : Bool → Snmp → Snmp
count_opening listens c =
    let opened : Snmp =
      if listens
      then record c { passive_opens = add64 c.passive_opens 1 }
      else record c { active_opens = add64 c.active_opens 1 } in
    let curr = add64 c.curr_estab 1 in
    record opened {
      curr_estab = curr;
      max_conn = (if ltb c.max_conn curr then curr else c.max_conn);
    }

-- `ciphered` says that `block` is not nil, `listens` that `listener` is not.
unfoldable pub new_udp_session : ℕ → Bool → Bool → World → Session
new_udp_session conv ciphered listens world =
    let header_size = if ciphered then crypt_header_size else 0 in
    record {
      rudp = (reserve_bytes (pos header_size) (new_rudp conv)).1;
      world = record world { snmp = count_opening listens world.snmp };
      buf_ptr = [];
      read_ddl = none;
      write_ddl = none;
      header_size = header_size;
      ack_no_delay = false;
      write_delay = false;
      has_died = false;
      read_event = false;
      write_event = false;
      txqueue = [];
      handed = [];
      socket_read_error = none;
      socket_write_error = none;
    }
