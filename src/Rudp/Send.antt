-- ===== src/Rudp/Send.antt =====
-- `Send` of rudp.go: bytes become segments at the end of the send queue.
pub mod Fragments
pub mod Stream
pub mod Safety
use rudp_go.Common.{
  ℕ, zero, suc, ◌+◌, ◌-◌, ◌/◌, ◌%◌, List, [], ◌∷◌, ◌++◌, Outcome, done, panic, ◌>>=◌, length, take,
  drop, leb, ltb, ◌==◌, if◌then◌else◌, ℤ, pos, negsuc, ◌&&◌, not,
}
use rudp_go.Wire.{Segment, zero_segment}
use rudp_go.Rudp.{Rudp, new_segment, mtu_limit}

-- The loop over `i`: `left` rounds are to come, so `count - i - 1` is one less.
pub fragments : (stream mss left : ℕ) → List ℕ → Outcome (List Segment)
fragments stream mss zero buffer = done []
fragments stream mss (suc left) buffer = do
  let size = if ltb mss (length buffer) then mss else length buffer
  bytes ← new_segment (take size buffer)
  rest ← fragments stream mss left (drop size buffer)
  let seg : Segment = record zero_segment {
    frg = (if stream == 0 then left % 256 else 0);
    payload = bytes;
  }
  done (seg ∷ rest)

-- `count`, where a division by mss = 0 panics.
pub fragment_count : ℕ → ℕ → Outcome ℕ
fragment_count mss len =
    if leb len mss then done 1 else if mss == 0 then panic else done ((len + mss - 1) / mss)

pub queue_fragments : Rudp → List ℕ → ℕ → Outcome (ℤ × Rudp)
queue_fragments r buffer count =
    if ltb 255 count
    then done (negsuc 1, r)
    else if count == 0
    then done (pos 1, r)
    else (fragments r.stream r.mss count buffer >>= λ segs.
        done (pos 0, record r { snd_queue = r.snd_queue ++ segs }))

pub send_fragments : Rudp → List ℕ → Outcome (ℤ × Rudp)
unfolding queue_fragments fragments fragment_count
send_fragments r buffer = do
  count ← fragment_count r.mss (length buffer)
  queue_fragments r buffer count

-- What stream mode puts into the last segment of the queue, and the bytes left over.
pub fill_last : ℕ → List Segment → List ℕ → List Segment × List ℕ
fill_last mss [] buffer = ([], buffer)
fill_last mss (last ∷ []) buffer =
    if ltb (length last.payload) mss
    then (
      record last { payload = last.payload ++ take (mss - length last.payload) buffer } ∷ [],
      drop (mss - length last.payload) buffer,
    )
    else (last ∷ [], buffer)
fill_last mss (s ∷ t ∷ q) buffer = let (q', rest) = fill_last mss (t ∷ q) buffer in (s ∷ q', rest)

pub send : Rudp → List ℕ → Outcome (ℤ × Rudp)
unfolding send_fragments fill_last
send r [] = done (negsuc 0, r)
send r (b ∷ bs) =
    if r.stream == 0
    then send_fragments r (b ∷ bs)
    else (let (q, rest) = fill_last r.mss r.snd_queue (b ∷ bs) in
        let r' : Rudp = record r { snd_queue = q } in
        if length rest == 0 then done (pos 0, r') else send_fragments r' rest)
