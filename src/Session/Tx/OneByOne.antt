-- ===== src/Session/Tx/OneByOne.antt =====
-- tx.go, defaultTx.
use rudp_go.Common.{
  ℕ, zero, suc, ◌+◌, ◌≤◌, ◌<◌, ◌≡◌, ◌⊎◌, inl, inr, refl, sym, ap, ◌∙◌, List, [], ◌∷◌, ◌++◌,
  append_assoc, append-nil, length, take, drop, length-drop, length-take, take-length, index-drop,
  done, Returns, Returns-bind, Returns-mono, arith,
}
use rudp_go.Session.{Session, notify_write_error}
use rudp_go.Session.Tx.{
  Write, wrote, write_failed, Socket, Sender, counted, after_sent, refused, total_bytes,
  default_loop, default_tx,
}

abbrev pub head_or : List ℕ → List (List ℕ) → List ℕ
head_or d [] = d
head_or d (x ∷ xs) = x

abbrev pub tail : List (List ℕ) → List (List ℕ)
tail [] = []
tail (x ∷ xs) = xs

-- The socket takes whole packets, as a UDP socket does.
abbrev pub IsWhole : Socket → Type 0
IsWhole socket = (call n : ℕ) (p : List ℕ) → socket.write_to call p ≡ wrote n → n ≡ length p

-- Of `packets`, all have been taken, and the session is `s`; or some first ones, and `s` has been
-- told of an error.
abbrev pub IsEnd : (k n : ℕ) → Session → Session → Type 0
IsEnd k n s s' = ((k ≡ n) × (s' ≡ s)) ⊎ ((k < n) × ((err : ℕ) × (s' ≡ notify_write_error err s)))

pub record Looped (packets : List (List ℕ)) (bytes pkgs : ℕ) (t : Sender) (r : ℕ × ℕ × Sender)
    : Type 0 where
  pub k : ℕ
  pub some_of : k ≤ length packets
  pub bytes_of : r.0 ≡ bytes + total_bytes (take k packets)
  pub pkgs_of : r.1 ≡ pkgs + k
  pub written : r.2.written ≡ t.written ++ take k packets
  pub ending : IsEnd k (length packets) t.session r.2.session

-- One packet more in front.
one_more :
    (p : List ℕ) (packets : List (List ℕ)) (n bytes pkgs : ℕ) (t : Sender) (r : ℕ × ℕ × Sender)
    → n ≡ length p
    → Looped packets (bytes + n) (pkgs + 1) (after_sent (p ∷ []) t) r
    → Looped (p ∷ packets) bytes pkgs t r
one_more p packets n bytes pkgs t r e l = record {
  k = suc l.k;
  some_of = omega (arith, l.some_of);
  bytes_of = omega (arith, l.bytes_of);
  pkgs_of = omega (arith, l.pkgs_of);
  written = l.written ∙ append_assoc t.written (p ∷ []) (take l.k packets);
  ending = elim l.ending [ inl h ↦ inl (ap suc h.0, h.1) | inr h ↦ inr (omega (arith, h.0), h.1) ];
}

module _ (socket : Socket) (whole : IsWhole socket) where
  pub default_loop-Looped :
      (n i : ℕ) (packets : List (List ℕ)) (bytes pkgs : ℕ) (t : Sender)
      → n ≡ length packets
      → take n (drop i t.session.txqueue) ≡ packets
      → Returns (default_loop socket n i bytes pkgs t) (Looped packets bytes pkgs t)
  unfolding default_loop
  default_loop-Looped zero i [] bytes pkgs t size e = record {
    k = 0;
    some_of = omega arith;
    bytes_of = omega arith;
    pkgs_of = omega arith;
    written = sym (append-nil t.written);
    ending = inl (refl, refl);
  }
  default_loop-Looped zero i (p ∷ packets) bytes pkgs t size e = absurd (omega arith)
  default_loop-Looped (suc n) i [] bytes pkgs t size e = absurd (omega arith)
  default_loop-Looped (suc n) i (p ∷ packets) bytes pkgs t size e =
      let inside : i < length t.session.txqueue = omega (
        arith,
        ap length e,
        length-take (suc n) (drop i t.session.txqueue),
        length-drop i t.session.txqueue,
      ) in
      let (x, at, rest) = index-drop t.session.txqueue i inside in
      let same : x ∷ take n (drop (suc i) t.session.txqueue) ≡ p ∷ packets =
        sym (ap (take (suc n)) rest) ∙ e in
      let first : x ≡ p = ap (head_or p) same in
      rw (at ∙ ap done first) (
        by_answer (socket.write_to t.calls p) refl (λ k.
          default_loop-Looped n (suc i) packets (bytes + k) (pkgs + 1) (after_sent (p ∷ []) t)
            (omega arith) (ap tail same)))
    where
      by_answer :
          (w : Write)
          → socket.write_to t.calls p ≡ w
          → ((k : ℕ)
              → Returns
                  (default_loop socket n (suc i) (bytes + k) (pkgs + 1) (after_sent (p ∷ []) t))
                  (Looped packets (bytes + k) (pkgs + 1) (after_sent (p ∷ []) t)))
          → Returns
              (elim w [
                | wrote k ↦
                    default_loop socket n (suc i) (bytes + k) (pkgs + 1) (after_sent (p ∷ []) t)
                | write_failed err ↦ done (bytes, pkgs, refused err t)
              ])
              (Looped (p ∷ packets) bytes pkgs t)
      by_answer (wrote k) a later =
          Returns-mono
            (default_loop socket n (suc i) (bytes + k) (pkgs + 1) (after_sent (p ∷ []) t))
            (Looped packets (bytes + k) (pkgs + 1) (after_sent (p ∷ []) t))
            (Looped (p ∷ packets) bytes pkgs t) (later k)
            (λ r l. one_more p packets k bytes pkgs t r (whole t.calls k p a) l)
      by_answer (write_failed err) a later = record {
        k = 0;
        some_of = omega arith;
        bytes_of = omega arith;
        pkgs_of = omega arith;
        written = sym (append-nil t.written);
        ending = inr (omega arith, (err, refl));
      }

-- What defaultTx comes to: the first `k` packets of the queue have been written.
pub record SentSome (t t' : Sender) : Type 0 where
  pub k : ℕ
  pub some_of : k ≤ length t.session.txqueue
  pub written : t'.written ≡ t.written ++ take k t.session.txqueue
  pub told : Session
  pub ending : IsEnd k (length t.session.txqueue) t.session told
  pub session : t'.session ≡ counted (total_bytes (take k t.session.txqueue)) k told

-- defaultTx on the session's own queue, with a socket that takes whole packets and fails whenever
-- it likes: it returns; the packets written are the first ones of the queue, in order, either all
-- or those before the first failure, of which the session is then told; OutPkts grows by the bytes
-- of the packets written, and OutBytes by their number.
pub default_tx_lem :
    (socket : Socket) (t : Sender)
    → IsWhole socket
    → Returns (default_tx socket t.session.txqueue t) (SentSome t)
unfolding default_tx
default_tx_lem socket t whole =
    Returns-bind (default_loop socket (length t.session.txqueue) 0 0 0 t) _
      (Looped t.session.txqueue 0 0 t) (SentSome t)
      (default_loop-Looped socket whole (length t.session.txqueue) 0 t.session.txqueue 0 0 t refl
        (take-length (length t.session.txqueue) t.session.txqueue (omega arith)))
      (λ r l. record {
        k = l.k;
        some_of = l.some_of;
        written = l.written;
        told = r.2.session;
        ending = l.ending;
        session =
            let bytes : r.0 ≡ total_bytes (take l.k t.session.txqueue) =
              omega (arith, l.bytes_of) in
            let pkgs : r.1 ≡ l.k = omega (arith, l.pkgs_of) in
            ap (λ b. counted b r.1 r.2.session) bytes
            ∙ ap (λ n. counted (total_bytes (take l.k t.session.txqueue)) n r.2.session) pkgs;
      })
