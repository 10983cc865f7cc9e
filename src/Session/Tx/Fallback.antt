-- ===== src/Session/Tx/Fallback.antt =====
-- tx_linux.go:33-43, what tx does where the kernel turns out to have no batches.
use mathlib.Core.Path.{subst}
use rudp_go.Common.{
  ℕ, zero, suc, ◌+◌, ◌-◌, ◌<◌, ◌≡◌, sym, ap, ◌∙◌, true, false, List, [], ◌∷◌, ◌++◌, append_assoc,
  append-nil, length, take, drop, length-drop, length-take, index-drop, done, Returns, Returns-bind,
  le→leb, lt→ltb, arith,
}
use rudp_go.Session.Tx.{
  wrote_batch, no_sendmmsg, wrote, Socket, Sender, after_sent, default_loop, default_tx, batch_loop,
  tx,
}
use rudp_go.Session.Tx.OneByOne.{head_or, tail}
use rudp_go.Session.Tx.Batches.{by_batches}

-- Single packets are always written.
abbrev pub AllWritten : Socket → Type 0
AllWritten socket = (call : ℕ) (p : List ℕ) → socket.write_to call p ≡ wrote (length p)

module _ (socket : Socket) (all : AllWritten socket) where
  default_loop-all :
      (n i : ℕ) (packets : List (List ℕ)) (bytes pkgs : ℕ) (t : Sender)
      → n ≡ length packets
      → take n (drop i t.session.txqueue) ≡ packets
      → Returns (default_loop socket n i bytes pkgs t) (λ r. r.2.written ≡ t.written ++ packets)
  unfolding default_loop
  default_loop-all zero i [] bytes pkgs t size e = sym (append-nil t.written)
  default_loop-all zero i (p ∷ packets) bytes pkgs t size e = absurd (omega arith)
  default_loop-all (suc n) i [] bytes pkgs t size e = absurd (omega arith)
  default_loop-all (suc n) i (p ∷ packets) bytes pkgs t size e =
      let inside : i < length t.session.txqueue = omega (
        arith,
        ap length e,
        length-take (suc n) (drop i t.session.txqueue),
        length-drop i t.session.txqueue,
      ) in
      let (x, at, rest) = index-drop t.session.txqueue i inside in
      let same : x ∷ take n (drop (suc i) t.session.txqueue) ≡ p ∷ packets =
        sym (ap (take (suc n)) rest) ∙ e in
      let first : x ≡ p = ap (head_or p) same in
      rw (at ∙ ap done first, all t.calls p)
        (subst
          (λ w.
            Returns
              (default_loop socket n (suc i) (bytes + length p) (pkgs + 1) (after_sent (p ∷ []) t))
              (λ r. r.2.written ≡ w))
          (append_assoc t.written (p ∷ []) packets)
          (default_loop-all n (suc i) packets (bytes + length p) (pkgs + 1) (after_sent (p ∷ []) t)
            (omega arith) (ap tail same)))

  default_tx-all :
      (txqueue packets : List (List ℕ)) (t : Sender)
      → length txqueue ≡ length packets
      → take (length txqueue) t.session.txqueue ≡ packets
      → Returns (default_tx socket txqueue t) (λ t'. t'.written ≡ t.written ++ packets)
  unfolding default_tx
  default_tx-all txqueue packets t size e =
      Returns-bind (default_loop socket (length txqueue) 0 0 0 t) _
        (λ r. r.2.written ≡ t.written ++ packets) _
        (default_loop-all (length txqueue) 0 packets 0 0 t size e) (λ r h. h)

-- tx of Linux with batches, when the first call takes `n` packets of the queue, fewer than all, the
-- second finds that the kernel has no such call, and single packets are always written: it returns,
-- and after the first `n` packets the socket has been given packets from the start of the queue
-- again, as many as were left, and not those that were left.
pub tx_resends :
    (socket : Socket) (t : Sender) (n : ℕ)
    → AllWritten socket
    → t.batched ≡ true
    → t.batch_error ≡ false
    → 0 < n
    → n < length t.session.txqueue
    → socket.write_batch t.calls t.session.txqueue ≡ wrote_batch n
    → socket.write_batch (t.calls + 1) (drop n t.session.txqueue) ≡ no_sendmmsg
    → Returns (tx socket t.session.txqueue t) (λ t'.
      t'.written
      ≡ (t.written ++ take n t.session.txqueue)
        ++ take (length t.session.txqueue - n) t.session.txqueue)
unfolding batch_loop
tx_resends socket t n all b e pos few first second =
    let q = t.session.txqueue in
    let left : length (drop n q) ≡ length q - n = length-drop n q in
    let one : length q + 1 ≡ suc (suc (length q - 1)) = omega arith in
    let later : Sender = record (after_sent (take n q) t) {
      calls = t.calls + 1 + 1;
      batch_error = true;
    } in
    let size : length (drop n q) ≡ length (take (length q - n) q) =
      omega (arith, length-take (length q - n) q) in
    subst (λ x. Returns x (λ t'. t'.written ≡ (t.written ++ take n q) ++ take (length q - n) q))
      (sym (by_batches socket q t b e ∙ ap (λ f. batch_loop socket f q 0 0 t) one))
      (rw
        (
          lt→ltb 0 (length q) (omega arith),
          first,
          le→leb n (length q) (omega arith),
          lt→ltb 0 (length (drop n q)) (omega arith),
          second,
        )
        (default_tx-all socket all (drop n q) (take (length q - n) q) later size
          (ap (λ m. take m q) left)))
