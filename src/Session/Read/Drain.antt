-- ===== src/Session/Read/Drain.antt =====
-- `Read` of sess.go, call by call: a message in portions.
use rudp_go.Common.{
  ℕ, zero, suc, ◌+◌, ◌≤◌, ◌<◌, ◌≡◌, refl, ap, sym, ◌∙◌, List, [], ◌∷◌, ◌++◌, length, take, drop,
  drop-drop, length-drop, lt→ltb, le→not_ltb, arith, Option, none, some, All,
}
use mathlib.Core.Path.{ap₂}
use rudp_go.Wire.{Segment}
use rudp_go.Rudp.Send.Fragments.{bytes_of}
use rudp_go.Rudp.Delivery.Messages.{IsMessage, first_frg}
use rudp_go.Session.{Session}
use rudp_go.Session.Read.{try_read}
use rudp_go.Session.Read.Stream.{available, try_read_lem, read_left-Reads}

-- Calls one after the other, with a buffer of each of these sizes: the bytes that they give.
abbrev pub or_nothing : Option (List ℕ) → List ℕ
or_nothing none = []
or_nothing (some bytes) = bytes

abbrev pub drain : List ℕ → Session → List ℕ × Session
drain [] s = ([], s)
drain (room ∷ rooms) s =
    let (bytes, s') = try_read room s in
    let (more, s'') = drain rooms s' in (or_nothing bytes ++ more, s'')

abbrev pub total : List ℕ → ℕ
total [] = 0
total (room ∷ rooms) = room + total rooms

-- The first `n` bytes came out, and the others are left.
abbrev pub Took : ℕ → List ℕ → List ℕ × Session → Type 0
Took n bytes x = (x.0 ≡ take n bytes) × (x.1.buf_ptr ≡ drop n bytes)

take_nothing : (n : ℕ) → take {A = ℕ} n [] ≡ []
take_nothing zero = refl
take_nothing (suc n) = refl

take-add : (a b : ℕ) (xs : List ℕ) → take a xs ++ take b (drop a xs) ≡ take (a + b) xs
take-add zero b xs = ap (λ n. take n xs) (omega arith)
take-add (suc a) b [] = take_nothing b ∙ sym (take_nothing (suc a + b))
take-add (suc a) b (x ∷ xs) = ap (◌∷◌ x) (take-add a b xs) ∙ ap (λ n. take n (x ∷ xs)) step
  where
    step : suc (a + b) ≡ suc a + b
    step = omega arith

-- A portion, and then the rest of the calls.
join_Took :
    (room : ℕ) (rooms bytes : List ℕ) (s : Session)
    → (try_read room s).0 ≡ some (take room bytes)
    → Took (total rooms) (drop room bytes) (drain rooms (try_read room s).1)
    → Took (total (room ∷ rooms)) bytes (drain (room ∷ rooms) s)
join_Took room rooms bytes s got rest = (
  ap₂ (◌++◌) (ap or_nothing got) rest.0 ∙ take-add room (total rooms) bytes,
  rest.1 ∙ drop-drop room (total rooms) bytes,
)

-- A call while something of a message is left.
try_read_left :
    (room : ℕ) (bytes : List ℕ) (s : Session)
    → s.buf_ptr ≡ bytes
    → 0 < length bytes
    → ((try_read room s).0 ≡ some (take room bytes))
      × ((try_read room s).1.buf_ptr ≡ drop room bytes)
unfolding try_read
try_read_left room bytes s e some_left =
    let reads = read_left-Reads room s in
    rw (lt→ltb 0 (length s.buf_ptr) (omega (arith, ap length e, some_left)))
      (reads.got ∙ ap (λ u. some (take room u)) e, reads.left ∙ ap (drop room) e)

drain_left :
    (rooms : List ℕ) (bytes : List ℕ) (s : Session)
    → All (λ room. 0 < room) rooms
    → s.buf_ptr ≡ bytes
    → total rooms ≤ length bytes
    → Took (total rooms) bytes (drain rooms s)
drain_left [] bytes s some_room e enough = (refl, e)
drain_left (room ∷ rooms) bytes s some_room e enough =
    let (got, left) = try_read_left room bytes s e (omega arith) in
    join_Took room rooms bytes s got (
      drain_left rooms (drop room bytes) (try_read room s).1 some_room.1 left
        (omega (arith, length-drop room bytes)))

-- A message of at most 255 fragments at the front of the receive queue, read in portions of any
-- positive sizes that it fills, when nothing is left of an earlier one: the portions, one after the
-- other, are the first bytes of the message, as many as the sizes make together, and the session
-- keeps the others.
pub drain_lem :
    (room : ℕ) (rooms : List ℕ) (s : Session) (msg rest : List Segment)
    → 0 < room
    → All (λ n. 0 < n) rooms
    → total (room ∷ rooms) ≤ length (bytes_of msg)
    → s.buf_ptr ≡ []
    → IsMessage msg
    → s.rudp.rcv_queue ≡ msg ++ rest
    → first_frg msg < 255
    → first_frg msg < length (msg ++ rest)
    → Took (total (room ∷ rooms)) (bytes_of msg) (drain (room ∷ rooms) s)
drain_lem room rooms s msg rest some_room some_rooms enough empty h e small all_there =
    let same : available s msg ≡ bytes_of msg =
      rw (le→not_ltb 0 (length s.buf_ptr) (omega (arith, ap length empty))) refl in
    let reads = try_read_lem room s msg rest h e small all_there (omega arith) in
    join_Took room rooms (bytes_of msg) s (reads.got ∙ ap (λ u. some (take room u)) same) (
      drain_left rooms (drop room (bytes_of msg)) (try_read room s).1 some_rooms
        (reads.left ∙ ap (drop room) same) (omega (arith, length-drop room (bytes_of msg))))
