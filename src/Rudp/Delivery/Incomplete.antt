-- ===== src/Rudp/Delivery/Incomplete.antt =====
-- peekSize and Receive at the fragment number 255.
use rudp_go.Common.{
  ℕ, suc, ◌+◌, ◌%◌, ◌≤◌, ◌<◌, ◌≡◌, refl, List, [], ◌∷◌, length, length-append, All, arith, pos,
  le→not_ltb, lt→not_==,
}
use rudp_go.Wire.{Segment}
use rudp_go.Rudp.{Rudp}
use rudp_go.Rudp.Send.Fragments.{bytes_of}
use rudp_go.Rudp.Delivery.{
  message_size, peek_from, peek_queue, peek_size, merge, take_message, receive_sized, receive,
}

-- No segment is the last of its message.
abbrev pub HasNoEnd : List Segment → Type 0
HasNoEnd = All (λ s. 0 < s.frg)

message_size-whole : (q : List Segment) → HasNoEnd q → message_size q ≡ length (bytes_of q)
unfolding message_size
message_size-whole [] h = refl
message_size-whole (s ∷ q) h =
    rw (lt→not_== s.frg 0 h.0, length-append, message_size-whole q h.1) refl

merge-whole : (q : List Segment) → HasNoEnd q → (merge q).0 ≡ bytes_of q
unfolding merge
merge-whole [] h = refl
merge-whole (s ∷ q) h = rw (lt→not_== s.frg 0 h.0, merge-whole q h.1) refl

peek_queue-last :
    (s : Segment) (q : List Segment)
    → s.frg ≡ 255
    → HasNoEnd (s ∷ q)
    → peek_queue (s ∷ q) ≡ pos (length (bytes_of (s ∷ q)))
unfolding peek_queue peek_from
peek_queue-last s q last none = rw (
  lt→not_== s.frg 0 none.0,
  le→not_ltb (suc (length q)) ((s.frg + 1) % 256) (omega arith),
  message_size-whole (s ∷ q) none,
)

-- A queue that starts with the fragment number 255 and holds no end of a message: peekSize takes it
-- for a message that is complete, since 255 + 1 is 0 in a uint8, and Receive delivers the bytes that
-- are there, if the caller's buffer holds them.
pub receive_incomplete :
    (room : ℕ) (s : Segment) (q : List Segment) (r : Rudp)
    → r.rcv_queue ≡ s ∷ q
    → s.frg ≡ 255
    → HasNoEnd (s ∷ q)
    → length (bytes_of (s ∷ q)) ≤ room
    → (receive room r).0 ≡ (pos (length (bytes_of (s ∷ q))), bytes_of (s ∷ q))
unfolding receive peek_size receive_sized take_message
receive_incomplete room s q r e last none fits = rw (
  e,
  peek_queue-last s q last none,
  le→not_ltb room (length (bytes_of (s ∷ q))) fits,
  merge-whole (s ∷ q) none,
)
