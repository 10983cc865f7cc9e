-- ===== src/Session/Write/Pieces.antt =====
-- `WriteBuffers` of sess.go: what its loops put into the send queue.
use rudp_go.Common.{
  ℕ, zero, suc, ◌+◌, ◌≤◌, ◌<◌, ◌≡◌, refl, ap, sym, ◌∙◌, List, [], ◌∷◌, ◌++◌, append_assoc,
  append-nil, length, take, drop, length-take, length-drop, take-append-drop, length-append,
  Bool-cases, inl, inr, leb, le→leb, true, false, arith, Returns, Returns-bind, Returns-mono, done,
  ◌>>=◌, All-append,
}
use mathlib.Core.Path.{subst}
use rudp_go.Rudp.{Rudp}
use rudp_go.Rudp.Sized.{Sized}
use rudp_go.Rudp.Send.{send}
use rudp_go.Rudp.Send.Fragments.{bytes_of, Fragmented, send_lem, send_refuses}
use rudp_go.Rudp.Send.Stream.{bytes_of-append}
use rudp_go.Session.Write.{send_pieces, send_buffers}

-- Sound sizes in message mode, and the bytes `buf` behind those of the send queue.
pub record Wrote (r : Rudp) (buf : List ℕ) (r' : Rudp) : Type 0 where
  pub sized : Sized r'
  pub mode : r'.stream ≡ 0
  pub bytes : bytes_of r'.snd_queue ≡ bytes_of r.snd_queue ++ buf
  pub others : r' ≡ record r { snd_queue = r'.snd_queue }

Wrote-trans : (a b c : Rudp) (xs ys : List ℕ) → Wrote a xs b → Wrote b ys c → Wrote a (xs ++ ys) c
Wrote-trans a b c xs ys f g = record {
  sized = g.sized;
  mode = g.mode;
  bytes = g.bytes ∙ ap (λ u. u ++ ys) f.bytes ∙ append_assoc (bytes_of a.snd_queue) xs ys;
  others = g.others ∙ ap (λ (r : Rudp). record r { snd_queue = c.snd_queue }) f.others;
}

nothing_written : (r : Rudp) → Sized r → r.stream ≡ 0 → Wrote r [] r
nothing_written r v e = record {
  sized = v;
  mode = e;
  bytes = sym (append-nil (bytes_of r.snd_queue));
  others = refl;
}

-- One message.
send-Wrote :
    (r : Rudp) (buf : List ℕ)
    → Sized r
    → r.stream ≡ 0
    → length buf ≤ r.mss
    → Returns (send r buf) (λ x. Wrote r buf x.1)
send-Wrote r [] v e fits = rw (send_refuses r [] v.some_data e (inl refl)) (nothing_written r v e)
send-Wrote r (b ∷ bs) v e fits =
    Returns-mono (send r (b ∷ bs)) (Fragmented r (b ∷ bs)) _
      (send_lem r (b ∷ bs) v e (omega arith) (omega arith))
      λ x (code, segs, state, whole, fit, down, few). rw state (record {
        sized = record {
          room = v.room;
          some_data = v.some_data;
          pooled = v.pooled;
          stored = v.stored;
          queued = All-append (λ s. length s.payload ≤ r.mss) r.snd_queue segs v.queued fit;
          sent = v.sent;
        };
        mode = e;
        bytes = bytes_of-append r.snd_queue segs ∙ ap (◌++◌ (bytes_of r.snd_queue)) whole;
        others = refl;
      })

last-Wrote :
    (r : Rudp) (buf : List ℕ)
    → Sized r
    → r.stream ≡ 0
    → length buf ≤ r.mss
    → Returns (send r buf >>= λ x. done x.1) (Wrote r buf)
last-Wrote r buf v e fits =
    Returns-bind (send r buf) _ (λ x. Wrote r buf x.1) _ (send-Wrote r buf v e fits) λ x w. w

leb→le : (a b : ℕ) → leb a b ≡ true → a ≤ b
leb→le a b h = ground arith

not_leb→lt : (a b : ℕ) → leb a b ≡ false → b < a
not_leb→lt a b h = ground arith

-- The loop on one buffer, with its length as fuel or more.
send_pieces-Wrote :
    (fuel : ℕ) (buf : List ℕ) (r : Rudp)
    → length buf ≤ fuel
    → Sized r
    → r.stream ≡ 0
    → Returns (send_pieces fuel buf r) (Wrote r buf)
unfolding send_pieces
send_pieces-Wrote zero buf r h v e =
    rw (le→leb (length buf) r.mss (omega arith)) (last-Wrote r buf v e (omega arith))
send_pieces-Wrote (suc fuel) buf r h v e = elim (Bool-cases (leb (length buf) r.mss)) [
  | inl whole ↦ rw whole (last-Wrote r buf v e (leb→le _ _ whole))
  | inr long ↦ rw long (
      Returns-bind (send r (take r.mss buf)) _ (λ x. Wrote r (take r.mss buf) x.1) _
        (send-Wrote r (take r.mss buf) v e (omega (arith, length-take r.mss buf)))
        λ x w.
          Returns-mono (send_pieces fuel (drop r.mss buf) x.1) (Wrote x.1 (drop r.mss buf)) _
            (send_pieces-Wrote fuel (drop r.mss buf) x.1
              (omega (arith, length-drop r.mss buf, v.some_data)) w.sized w.mode)
            λ r' w'.
              subst (λ bytes. Wrote r bytes r') (take-append-drop r.mss buf)
                (Wrote-trans r x.1 r' (take r.mss buf) (drop r.mss buf) w w'))
]

abbrev pub joined : List (List ℕ) → List ℕ
joined [] = []
joined (buf ∷ buffers) = buf ++ joined buffers

-- The loops of `WriteBuffers` on a RUDP with sound sizes in message mode return, whatever the
-- buffers are and however long: `n` has grown by their bytes, the bytes of the send queue are those
-- that were there and then the buffers', in order, the sizes are sound, and nothing else changes.
pub send_buffers_lem :
    (buffers : List (List ℕ)) (n : ℕ) (r : Rudp)
    → Sized r
    → r.stream ≡ 0
    → Returns
        (send_buffers buffers n r)
        (λ x. (x.0 ≡ n + length (joined buffers)) × Wrote r (joined buffers) x.1)
unfolding send_buffers
send_buffers_lem [] n r v e = (omega arith, nothing_written r v e)
send_buffers_lem (buf ∷ buffers) n r v e =
    Returns-bind (send_pieces (length buf) buf r) _ (Wrote r buf) _
      (send_pieces-Wrote (length buf) buf r (omega arith) v e)
      λ r' w.
        Returns-mono (send_buffers buffers (n + length buf) r') _ _
          (send_buffers_lem buffers (n + length buf) r' w.sized w.mode)
          λ x (count, w'). (
            omega (arith, count, length-append buf (joined buffers)),
            Wrote-trans r r' x.1 buf (joined buffers) w w',
          )
