-- ===== src/Rudp/Delivery/Messages.antt =====
-- Receive: whole messages, in order.
use rudp_go.Common.{
  ℕ, suc, ◌+◌, ◌%◌, ◌≤◌, ◌<◌, ◌≡◌, ◌≢◌, refl, sym, ap, ◌∙◌, List, [], ◌∷◌, ◌++◌, append-nil, length,
  drop, length-append, drop-append, arith, eq→==, lt→not_==, ne→not_==, lt→ltb, le→not_ltb, ℤ, pos,
  negsuc,
}
use mathlib.Core.Path.{subst}
use rudp_go.Wire.{Segment}
use rudp_go.Rudp.{Rudp}
use rudp_go.Rudp.Numbers.{Consecutive-drop}
use rudp_go.Rudp.Send.Fragments.{bytes_of, CountsDown}
use rudp_go.Rudp.Delivery.{
  move_ready, message_size, peek_from, peek_queue, peek_size, merge, take_message, receive_sized,
  receive,
}
use rudp_go.Rudp.Delivery.Order.{InOrder, NoWrap, IsSettled, Moved, move_ready-Moved}

-- Segments that make up one message: the last alone has the fragment number 0.
abbrev pub IsMessage : List Segment → Type 0
IsMessage [] = ⊥
IsMessage (s ∷ []) = s.frg ≡ 0
IsMessage (s ∷ t ∷ msg) = (s.frg ≢ 0) × IsMessage (t ∷ msg)

pub merge-message :
    (msg rest : List Segment) → IsMessage msg → merge (msg ++ rest) ≡ (bytes_of msg, length msg)
unfolding merge
merge-message [] rest h = absurd h
merge-message (s ∷ []) rest h = rw (eq→== s.frg 0 h, append-nil)
merge-message (s ∷ t ∷ msg) rest h =
    rw (ne→not_== s.frg 0 h.0, merge-message (t ∷ msg) rest h.1) refl

message_size-message :
    (msg rest : List Segment) → IsMessage msg → message_size (msg ++ rest) ≡ length (bytes_of msg)
unfolding message_size
message_size-message [] rest h = absurd h
message_size-message (s ∷ []) rest h = rw (eq→== s.frg 0 h, append-nil) (omega arith)
message_size-message (s ∷ t ∷ msg) rest h =
    rw (ne→not_== s.frg 0 h.0, message_size-message (t ∷ msg) rest h.1)
      (sym (length-append s.payload (bytes_of (t ∷ msg))))

-- The fragment number of the first segment.
abbrev pub first_frg : List Segment → ℕ
first_frg [] = 0
first_frg (s ∷ msg) = s.frg

-- peekSize of a complete message at the front of the queue.
pub peek_queue-message :
    (msg rest : List Segment)
    → IsMessage msg
    → first_frg msg < 255
    → first_frg msg < length (msg ++ rest)
    → peek_queue (msg ++ rest) ≡ pos (length (bytes_of msg))
unfolding peek_queue peek_from
peek_queue-message [] rest h small enough = absurd h
peek_queue-message (s ∷ []) rest h small enough = rw (eq→== s.frg 0 h, append-nil)
peek_queue-message (s ∷ t ∷ msg) rest h small enough =
    rw
      (
        ne→not_== s.frg 0 h.0,
        le→not_ltb (suc (length (t ∷ msg ++ rest))) ((s.frg + 1) % 256) (omega arith),
      )
      (ap pos (message_size-message (s ∷ t ∷ msg) rest h))

pub peek_size-message :
    (msg rest : List Segment) (r : Rudp)
    → IsMessage msg
    → r.rcv_queue ≡ msg ++ rest
    → first_frg msg < 255
    → first_frg msg < length (msg ++ rest)
    → peek_size r ≡ pos (length (bytes_of msg))
unfolding peek_size
peek_size-message msg rest r h e small enough =
    ap peek_queue e ∙ peek_queue-message msg rest h small enough

-- peekSize of the first part of a message.
peek_queue-part :
    (got more : List Segment)
    → CountsDown (got ++ more)
    → 0 < length more
    → length (got ++ more) ≤ 255
    → peek_queue got ≡ negsuc 0
unfolding peek_queue peek_from
peek_queue-part [] more down any few = refl
peek_queue-part (s ∷ got) more down any few = rw (
  lt→not_== s.frg 0 (omega (arith, down.0, length-append got more)),
  lt→ltb (suc (length got)) ((s.frg + 1) % 256) (omega (arith, down.0, length-append got more)),
)

-- What Receive must do with a message at the front of the queue, `rest` behind it.
pub record Received (base : ℕ) (msg rest : List Segment) (r : Rudp) (x : (ℤ × List ℕ) × Rudp)
    : Type 0 where
  pub bytes : x.0.1 ≡ bytes_of msg
  pub code : x.0.0 ≡ pos (length (bytes_of msg))
  pub in_order : InOrder (base + length msg) x.1
  pub contents : x.1.rcv_queue ++ x.1.rcv_buf ≡ rest ++ r.rcv_buf
  pub settled : IsSettled x.1

take_message-Received :
    (base : ℕ) (msg rest : List Segment) (r : Rudp)
    → InOrder base r
    → NoWrap r
    → IsMessage msg
    → r.rcv_queue ≡ msg ++ rest
    → let (bytes, r') = take_message r in Received base msg rest r ((pos (length bytes), bytes), r')
unfolding take_message
take_message-Received base msg rest r v wrap h e = record {
  bytes = ap (λ (m : List ℕ × ℕ). m.0) merged;
  code = ap (λ (m : List ℕ × ℕ). pos (length m.0)) merged;
  in_order = record {
    buffered = moved.in_order.buffered;
    queued = moved.in_order.queued;
    next = moved.in_order.next;
  };
  contents = moved.contents ∙ ap (λ q. q ++ r.rcv_buf) left;
  settled = moved.settled;
}
  where
    merged : merge r.rcv_queue ≡ (bytes_of msg, length msg)
    merged = ap merge e ∙ merge-message msg rest h

    left : drop (merge r.rcv_queue).1 r.rcv_queue ≡ rest
    left = rw (e, merge-message msg rest h) (drop-append msg rest)

    popped : Rudp
    popped = record r { rcv_queue = drop (merge r.rcv_queue).1 r.rcv_queue }

    popped-InOrder : InOrder (base + length msg) popped
    popped-InOrder = record {
      buffered = v.buffered;
      queued =
          Consecutive-drop base (merge r.rcv_queue).1 (base + length msg) r.rcv_queue
            (ap (λ (m : List ℕ × ℕ). base + m.1) (sym merged)) v.queued;
      next = omega (
        arith,
        ap (length {A = Segment}) left,
        v.next,
        ap (length {A = Segment}) e,
        length-append msg rest,
      );
    }

    moved : Moved (base + length msg) popped (move_ready popped)
    moved = move_ready-Moved (base + length msg) popped popped-InOrder wrap

pub receive_sized-pos :
    (size room : ℕ) (r : Rudp)
    → size ≤ room
    → receive_sized (pos size) room r
      ≡ ((pos (length (take_message r).0), (take_message r).0), (take_message r).1)
unfolding receive_sized
receive_sized-pos size room r h = rw (le→not_ltb room size h)

-- Receive with a complete message at the front of the queue and room for it in the caller's buffer:
-- it delivers exactly the message's bytes and returns their number; the queue goes on behind the
-- message, still in order, and what was waiting in the buffer has moved up as far as it is due and
-- the window has room, with nothing lost. Conditions: the receiving side is in order, the window's
-- end does not wrap, and the message's first fragment number, which counts the fragments behind
-- it, is below 255 and no larger than what is queued behind it.
pub receive_lem :
    (base room : ℕ) (msg rest : List Segment) (r : Rudp)
    → InOrder base r
    → NoWrap r
    → IsMessage msg
    → r.rcv_queue ≡ msg ++ rest
    → first_frg msg < 255
    → first_frg msg < length (msg ++ rest)
    → length (bytes_of msg) ≤ room
    → Received base msg rest r (receive room r)
unfolding receive peek_size
receive_lem base room msg rest r v wrap h e small enough fits =
    subst (Received base msg rest r)
      (sym (
        ap (λ q. receive_sized (peek_queue q) room r) e
        ∙ ap (λ size. receive_sized size room r) (peek_queue-message msg rest h small enough)
        ∙ receive_sized-pos (length (bytes_of msg)) room r fits))
      (take_message-Received base msg rest r v wrap h e)

-- A message of which a part is still to come, also all of it, is not delivered: Receive gives -1
-- and changes nothing. Condition: the fragment numbers count down to 0, as Send numbers them, and
-- the message has 255 fragments at most.
pub receive_waits :
    (room : ℕ) (got more : List Segment) (r : Rudp)
    → CountsDown (got ++ more)
    → 0 < length more
    → length (got ++ more) ≤ 255
    → r.rcv_queue ≡ got
    → receive room r ≡ ((negsuc 0, []), r)
unfolding receive peek_size receive_sized
receive_waits room got more r down any few e =
    ap (λ q. receive_sized (peek_queue q) room r) e
    ∙ ap (λ size. receive_sized size room r) (peek_queue-part got more down any few)

-- With a complete message at the front of the queue, of at most 255 fragments, and a caller's
-- buffer too small for it, Receive gives -2 and changes nothing.
pub receive_small :
    (room : ℕ) (msg rest : List Segment) (r : Rudp)
    → IsMessage msg
    → r.rcv_queue ≡ msg ++ rest
    → first_frg msg < 255
    → first_frg msg < length (msg ++ rest)
    → room < length (bytes_of msg)
    → receive room r ≡ ((negsuc 1, []), r)
unfolding receive peek_size receive_sized
receive_small room msg rest r h e small enough short =
    ap (λ q. receive_sized (peek_queue q) room r) e
    ∙ ap (λ size. receive_sized size room r) (peek_queue-message msg rest h small enough)
    ∙ rw (lt→ltb _ _ short)
