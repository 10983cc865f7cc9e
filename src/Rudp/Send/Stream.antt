-- ===== src/Rudp/Send/Stream.antt =====
-- `Send` of rudp.go in any mode: the stream of bytes in the send queue, and the sizes.
use rudp_go.Common.{
  ℕ, ◌-◌, ◌*◌, ◌≤◌, ◌<◌, ◌≡◌, ◌≢◌, refl, ap, sym, ◌∙◌, List, [], ◌∷◌, ◌++◌, length, take,
  length-append, length-take, length-drop, take-append-drop, ltb, ◌==◌, Bool-cases, inl, inr, false,
  ltb→lt, arith, All-append, Returns, Returns-mono, ℤ, pos, ne→not_==, ==→eq, append_assoc,
  append-nil,
}
use rudp_go.Wire.{Segment}
use rudp_go.Rudp.{Rudp}
use rudp_go.Rudp.Sized.{Sized, AtMost}
use rudp_go.Rudp.Send.{send, send_fragments, fill_last}
use rudp_go.Rudp.Send.Fragments.{bytes_of, Queued, send_fragments-Queued}

-- The bytes in the queue and the bytes left over are those that were there, and the buffer.
fill_last-bytes_of :
    (mss : ℕ) (q : List Segment) (buffer : List ℕ)
    → bytes_of (fill_last mss q buffer).0 ++ (fill_last mss q buffer).1 ≡ bytes_of q ++ buffer
unfolding fill_last
fill_last-bytes_of mss [] buffer = refl
fill_last-bytes_of mss (s ∷ []) buffer = elim (Bool-cases (ltb (length s.payload) mss)) [
  | inl room ↦
      rw (room, append-nil, append_assoc, take-append-drop)
        (ap (λ bytes. bytes ++ buffer) (sym (append-nil s.payload)))
  | inr full ↦ rw full refl
]
fill_last-bytes_of mss (s ∷ t ∷ q) buffer =
    append_assoc s.payload (bytes_of (fill_last mss (t ∷ q) buffer).0)
      (fill_last mss (t ∷ q) buffer).1
    ∙ ap (◌++◌ s.payload) (fill_last-bytes_of mss (t ∷ q) buffer)
    ∙ sym (append_assoc s.payload (bytes_of (t ∷ q)) buffer)

fill_last-AtMost :
    (mss : ℕ) (q : List Segment) (buffer : List ℕ)
    → AtMost mss q
    → AtMost mss (fill_last mss q buffer).0
unfolding fill_last
fill_last-AtMost mss [] buffer h = tt
fill_last-AtMost mss (s ∷ []) buffer h = elim (Bool-cases (ltb (length s.payload) mss)) [
  | inl room ↦ rw room (
    omega (
      arith,
      ltb→lt _ _ room,
      length-append s.payload (take (mss - length s.payload) buffer),
      length-take (mss - length s.payload) buffer,
    ),
    tt,
  )
  | inr full ↦ rw full h
]
fill_last-AtMost mss (s ∷ t ∷ q) buffer h = (h.0, fill_last-AtMost mss (t ∷ q) buffer h.1)

fill_last-rest :
    (mss : ℕ) (q : List Segment) (buffer : List ℕ)
    → length (fill_last mss q buffer).1 ≤ length buffer
unfolding fill_last
fill_last-rest mss [] buffer = omega arith
fill_last-rest mss (s ∷ []) buffer = elim (Bool-cases (ltb (length s.payload) mss)) [
  | inl room ↦ rw room (omega (arith, length-drop (mss - length s.payload) buffer))
  | inr full ↦ rw full (omega arith)
]
fill_last-rest mss (s ∷ t ∷ q) buffer = fill_last-rest mss (t ∷ q) buffer

-- The state with the last segment filled.
abbrev pub filled : Rudp → List ℕ → Rudp
filled r buffer = record r { snd_queue = (fill_last r.mss r.snd_queue buffer).0 }

pub filled-Sized : (r : Rudp) (buffer : List ℕ) → Sized r → Sized (filled r buffer)
filled-Sized r buffer v = record {
  room = v.room;
  some_data = v.some_data;
  pooled = v.pooled;
  stored = v.stored;
  queued = fill_last-AtMost r.mss r.snd_queue buffer v.queued;
  sent = v.sent;
}

pub bytes_of-append : (xs ys : List Segment) → bytes_of (xs ++ ys) ≡ bytes_of xs ++ bytes_of ys
bytes_of-append [] ys = refl
bytes_of-append (x ∷ xs) ys = rw (append_assoc, bytes_of-append xs ys)

-- What Send puts into the queue: all the bytes behind those that were there, in segments that fit.
abbrev pub Streamed : Rudp → List ℕ → ℤ × Rudp → Type 0
Streamed r buffer x =
    (x.0 ≡ pos 0)
    × (bytes_of x.1.snd_queue ≡ bytes_of r.snd_queue ++ buffer)
    × AtMost r.mss x.1.snd_queue
    × (x.1 ≡ record r { snd_queue = x.1.snd_queue })

Queued-Streamed :
    (r : Rudp) (buffer : List ℕ) (x : ℤ × Rudp) → Sized r → Queued r buffer x → Streamed r buffer x
Queued-Streamed r buffer x v (code, segs, e, few, s) = rw e (
  code,
  bytes_of-append r.snd_queue segs ∙ ap (◌++◌ (bytes_of r.snd_queue)) s.whole,
  All-append (λ s. length s.payload ≤ r.mss) r.snd_queue segs v.queued s.fits,
  refl,
)

-- The rest goes behind the filled segment.
filled-Streamed :
    (r : Rudp) (buffer : List ℕ) (x : ℤ × Rudp)
    → Streamed (filled r buffer) (fill_last r.mss r.snd_queue buffer).1 x
    → Streamed r buffer x
filled-Streamed r buffer x (code, bytes, fits, same) =
    (code, bytes ∙ fill_last-bytes_of r.mss r.snd_queue buffer, fits, same)

pub some_left : (rest : List ℕ) → (length rest == 0) ≡ false → 0 < length rest
some_left rest h = ground arith

no_bytes : (rest : List ℕ) → length rest ≡ 0 → [] ≡ rest
no_bytes [] h = refl
no_bytes (b ∷ rest) h = absurd (omega arith)

-- With sound sizes, `Send` in stream mode of 1 to 255 * mss bytes returns 0. The bytes in the send
-- queue, read through, are those that were there and then the buffer; every segment there has at
-- most mss bytes; nothing else changes.
pub send_streams :
    (r : Rudp) (buffer : List ℕ)
    → Sized r
    → r.stream ≢ 0
    → 0 < length buffer
    → length buffer ≤ 255 * r.mss
    → Returns (send r buffer) (Streamed r buffer)
unfolding send
send_streams r [] v e any h = absurd (omega arith)
send_streams r (b ∷ bs) v e any h =
    rw (ne→not_== r.stream 0 e) (elim (Bool-cases (length rest == 0)) [
      | inl used ↦ rw used (
          filled-Streamed r (b ∷ bs) (pos 0, r')
            (
              refl,
              sym (append-nil (bytes_of r'.snd_queue))
                  ∙ ap (◌++◌ (bytes_of r'.snd_queue)) (no_bytes rest (==→eq _ _ used)),
              v'.queued,
              refl,
            ))
      | inr left ↦ rw left (
          Returns-mono (send_fragments r' rest) (Queued r' rest) (Streamed r (b ∷ bs))
            (send_fragments-Queued r' rest v' (some_left rest left)
              (omega (arith, fill_last-rest r.mss r.snd_queue (b ∷ bs))))
            λ x q. filled-Streamed r (b ∷ bs) x (Queued-Streamed r' rest x v' q))
    ])
  where
    r' : Rudp
    r' = filled r (b ∷ bs)

    rest : List ℕ
    rest = (fill_last r.mss r.snd_queue (b ∷ bs)).1

    v' : Sized r'
    v' = filled-Sized r (b ∷ bs) v
