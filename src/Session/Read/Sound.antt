-- ===== src/Session/Read/Sound.antt =====
-- `Read` of sess.go and sound sessions.
use rudp_go.Common.{ℕ, refl, length, ltb, leb, ◌==◌, Bool-cases, inl, inr, ℤ, pos, negsuc}
use rudp_go.Rudp.{Rudp}
use rudp_go.Rudp.Sized.{SizedAt}
use rudp_go.Rudp.Delivery.{peek_size, receive}
use rudp_go.Rudp.Delivery.Sizes.{receive-Sized}
use rudp_go.Session.{Session}
use rudp_go.Session.Sound.{Sound, same-Sound}
use rudp_go.Session.Read.{read_left, read_whole, read_part, read_message, try_read}

module _ (mtu : ℕ) where
  read_left-Sound : (room : ℕ) (s : Session) → Sound mtu s → Sound mtu (read_left room s).1
  unfolding read_left
  read_left-Sound room s v = same-Sound mtu s _ refl refl refl refl v

  -- Another RUDP of sound sizes, and another rest of a message.
  received :
      (r : Rudp) (s : Session) → Sound mtu s → SizedAt mtu r → Sound mtu (record s { rudp = r })
  received r s v h = record {
    pooled = v.pooled;
    sized = h;
    packets = v.packets;
    queued = v.queued;
    sent = v.sent;
  }

  read_whole-Sound :
      (size room : ℕ) (s : Session) → Sound mtu s → Sound mtu (read_whole size room s).1
  unfolding read_whole
  read_whole-Sound size room s v =
      same-Sound mtu (record s { rudp = (receive room s.rudp).1 }) _ refl refl refl refl
        (received _ s v (receive-Sized mtu room s.rudp v.sized))

  read_part-Sound :
      (size room : ℕ) (s : Session) → Sound mtu s → Sound mtu (read_part size room s).1
  unfolding read_part
  read_part-Sound size room s v =
      same-Sound mtu (record s { rudp = (receive size s.rudp).1 }) _ refl refl refl refl
        (received _ s v (receive-Sized mtu size s.rudp v.sized))

  read_message-Sound :
      (size : ℤ) (room : ℕ) (s : Session) → Sound mtu s → Sound mtu (read_message size room s).1
  unfolding read_message
  read_message-Sound (negsuc n) room s v = v
  read_message-Sound (pos size) room s v = elim (Bool-cases (size == 0)) [
    | inl empty ↦ rw empty v
    | inr any ↦ elim (Bool-cases (leb size room)) [
      | inl whole ↦ rw (any, whole) (read_whole-Sound size room s v)
      | inr part ↦ rw (any, part) (read_part-Sound size room s v)
    ]
  ]

  pub try_read-Sound : (room : ℕ) (s : Session) → Sound mtu s → Sound mtu (try_read room s).1
  unfolding try_read
  try_read-Sound room s v = elim (Bool-cases (ltb 0 (length s.buf_ptr))) [
    | inl left ↦ rw left (read_left-Sound room s v)
    | inr used ↦ rw used (read_message-Sound (peek_size s.rudp) room s v)
  ]
