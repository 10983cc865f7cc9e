-- ===== src/Rudp/Delivery/RoundTrip.antt =====
-- From Send to Receive: a message on its way through segments.
use mathlib.Core.Path.{ap₂, subst}
use mathlib.Core.List.{map}
use rudp_go.Common.{
  ℕ, sym, take, drop, drop-append, take-append-drop, append_assoc, suc, ◌*◌, ◌≤◌, ◌<◌, ◌≡◌, refl,
  ap, ◌∙◌, List, [], ◌∷◌, ◌++◌, length, length-append, ℤ, pos, arith, Returns, Returns-mono,
}
use rudp_go.Wire.{Segment}
use rudp_go.Rudp.{Rudp}
use rudp_go.Rudp.Sized.{Sized}
use rudp_go.Rudp.Send.{send}
use rudp_go.Rudp.Send.Fragments.{bytes_of, CountsDown, Queued, send-Queued}
use rudp_go.Rudp.Delivery.{receive, receive_sized, take_message, move_ready, ready_count, peek_size}
use rudp_go.Rudp.Delivery.Messages.{
  IsMessage, first_frg, merge-message, peek_queue-message, receive_sized-pos,
}

-- What carries segments from one end to the other keeps fragment number and data.
abbrev pub KeepsMessage : (Segment → Segment) → Type 0
KeepsMessage carry = (s : Segment) → ((carry s).frg ≡ s.frg) × ((carry s).payload ≡ s.payload)

module _ (carry : Segment → Segment) (keeps : KeepsMessage carry) where
  length-carried : (xs : List Segment) → length (map carry xs) ≡ length xs
  length-carried [] = refl
  length-carried (x ∷ xs) = ap suc (length-carried xs)

  bytes_of-carried : (xs : List Segment) → bytes_of (map carry xs) ≡ bytes_of xs
  bytes_of-carried [] = refl
  bytes_of-carried (x ∷ xs) = ap₂ (◌++◌) (keeps x).1 (bytes_of-carried xs)

  CountsDown-carried : (xs : List Segment) → CountsDown xs → CountsDown (map carry xs)
  CountsDown-carried [] d = tt
  CountsDown-carried (x ∷ xs) d =
      ((keeps x).0 ∙ d.0 ∙ sym (length-carried xs), CountsDown-carried xs d.1)

CountsDown-IsMessage : (msg : List Segment) → 0 < length msg → CountsDown msg → IsMessage msg
CountsDown-IsMessage [] h d = absurd (omega arith)
CountsDown-IsMessage (s ∷ []) h d = d.0
CountsDown-IsMessage (s ∷ t ∷ msg) h d =
    (omega arith, CountsDown-IsMessage (t ∷ msg) (omega arith) d.1)

CountsDown-first :
    (msg : List Segment) → 0 < length msg → CountsDown msg → suc (first_frg msg) ≡ length msg
CountsDown-first [] h d = absurd (omega arith)
CountsDown-first (s ∷ msg) h d = ap suc d.0

some_segments : (segs : List Segment) → 0 < length (bytes_of segs) → 0 < length segs
some_segments [] h = h
some_segments (s ∷ segs) h = omega arith

-- Receive with a complete message at the front of the queue, whatever the numbers of its segments:
-- the message, and then what was behind it.
abbrev pub Delivered : Rudp → List Segment → List Segment → (ℤ × List ℕ) × Rudp → Type 0
Delivered b msg rest x =
    (x.0 ≡ (pos (length (bytes_of msg)), bytes_of msg))
    × (x.1.rcv_queue ++ x.1.rcv_buf ≡ rest ++ b.rcv_buf)

take_message-Delivered :
    (msg rest : List Segment) (b : Rudp)
    → IsMessage msg
    → let b' = record b { rcv_queue = msg ++ rest } in
      let (bytes, b'') = take_message b' in Delivered b msg rest ((pos (length bytes), bytes), b'')
unfolding take_message move_ready
take_message-Delivered msg rest b h =
    rw (merge-message msg rest h, drop-append msg rest)
      (
        refl,
        append_assoc rest (take count b.rcv_buf) (drop count b.rcv_buf)
            ∙ ap (◌++◌ rest) (take-append-drop count b.rcv_buf),
      )
  where
    count : ℕ
    count = ready_count b.rcv_wnd b.rcv_nxt (length rest) b.rcv_buf

receive-Delivered :
    (room : ℕ) (msg rest : List Segment) (b : Rudp)
    → IsMessage msg
    → first_frg msg < 255
    → first_frg msg < length (msg ++ rest)
    → length (bytes_of msg) ≤ room
    → Delivered b msg rest (receive room (record b { rcv_queue = msg ++ rest }))
unfolding receive peek_size
receive-Delivered room msg rest b h small enough fits =
    subst (Delivered b msg rest)
      (sym (
        ap (λ size. receive_sized size room b') (peek_queue-message msg rest h small enough)
        ∙ receive_sized-pos (length (bytes_of msg)) room b' fits))
      (take_message-Delivered msg rest b h)
  where
    b' : Rudp
    b' = record b { rcv_queue = msg ++ rest }

pub receive-message :
    (room : ℕ) (msg rest : List Segment) (r : Rudp)
    → IsMessage msg
    → r.rcv_queue ≡ msg ++ rest
    → first_frg msg < 255
    → first_frg msg < length (msg ++ rest)
    → length (bytes_of msg) ≤ room
    → Delivered r msg rest (receive room r)
receive-message room msg rest r h e small enough fits =
    subst (λ q. Delivered r msg rest (receive room (record r { rcv_queue = q }))) (sym e)
      (receive-Delivered room msg rest r h small enough fits)

-- A message of 1 to 255 * mss bytes that goes through `Send` in message mode comes out of `Receive`
-- as it went in: if the segments that Send has put into the queue arrive with their fragment
-- numbers and data, at the front of any receive queue, the reply is the message's length and its
-- bytes, and the queue goes on with what was behind them. Conditions: sound sizes at the sender,
-- and a caller's buffer that holds the message.
pub receive-send :
    (r b : Rudp) (buffer : List ℕ) (rest : List Segment) (room : ℕ) (carry : Segment → Segment)
    → Sized r
    → r.stream ≡ 0
    → 0 < length buffer
    → length buffer ≤ 255 * r.mss
    → length buffer ≤ room
    → KeepsMessage carry
    → Returns (send r buffer) λ x.
      let sent = drop (length r.snd_queue) x.1.snd_queue in
      let (reply, b') = receive room (record b { rcv_queue = map carry sent ++ rest }) in
      (reply ≡ (pos (length buffer), buffer)) × (b'.rcv_queue ++ b'.rcv_buf ≡ rest ++ b.rcv_buf)
receive-send r b buffer rest room carry v e any h fits keeps =
    Returns-mono (send r buffer) (Queued r buffer) _ (send-Queued r buffer v e any h)
      λ x (code, segs, state, few, s).
        rw (state, drop-append r.snd_queue segs) (arrives segs s.whole (s.numbered e) few)
  where
    arrives :
        (segs : List Segment)
        → bytes_of segs ≡ buffer
        → CountsDown segs
        → length segs ≤ 255
        → let (reply, b') = receive room (record b { rcv_queue = map carry segs ++ rest }) in
          (reply ≡ (pos (length buffer), buffer)) × (b'.rcv_queue ++ b'.rcv_buf ≡ rest ++ b.rcv_buf)
    arrives segs whole down few =
        let same : bytes_of (map carry segs) ≡ buffer = bytes_of-carried carry keeps segs ∙ whole in
        let down' : CountsDown (map carry segs) = CountsDown-carried carry keeps segs down in
        let some : 0 < length (map carry segs) =
          some_segments (map carry segs) (omega (arith, ap length same)) in
        let first : suc (first_frg (map carry segs)) ≡ length (map carry segs) =
          CountsDown-first (map carry segs) some down' in
        let delivered : Delivered b (map carry segs) rest
            (receive room (record b { rcv_queue = map carry segs ++ rest })) =
          receive-Delivered room (map carry segs) rest b
            (CountsDown-IsMessage (map carry segs) some down')
            (omega (arith, first, length-carried carry keeps segs))
            (omega (arith, first, length-append (map carry segs) rest))
            (omega (arith, ap length same)) in
        (
          delivered.0 ∙ ap {B = ℤ × List ℕ} (λ (bytes : List ℕ). (pos (length bytes), bytes)) same,
          delivered.1,
        )
