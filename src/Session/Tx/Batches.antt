-- ===== src/Session/Tx/Batches.antt =====
-- tx_linux.go, tx: the batches, and what happens when the kernel has no batches.
use mathlib.Core.Path.{subst}
use rudp_go.Common.{
  ℕ, zero, suc, ◌+◌, ◌≤◌, ◌<◌, ◌≡◌, ◌≢◌, inl, inr, refl, sym, ap, ◌∙◌, true, false, not, ◌||◌, List,
  [], ◌∷◌, ◌++◌, append_assoc, append-nil, length, take, drop, length-drop, done, panic, Returns,
  Returns-mono, leb, le→leb, lt→ltb, if◌then◌else◌, arith,
}
use rudp_go.Session.{Session, notify_write_error}
use rudp_go.Session.Tx.{
  BatchWrite, wrote_batch, no_sendmmsg, batch_failed, Socket, Sender, counted, count_out,
  after_sent, refused, total_bytes, default_tx, batch_loop, tx,
}
use rudp_go.Session.Tx.OneByOne.{IsEnd}

-- A batch call that succeeds takes a packet at least, and none that it was not given; the kernel
-- has the call.
pub record IsBatching (socket : Socket) : Type 0 where
  pub some_taken :
      (call n : ℕ) (q : List (List ℕ)) → socket.write_batch call q ≡ wrote_batch n → 0 < n
  pub given :
      (call n : ℕ) (q : List (List ℕ)) → socket.write_batch call q ≡ wrote_batch n → n ≤ length q
  pub known : (call : ℕ) (q : List (List ℕ)) → socket.write_batch call q ≢ no_sendmmsg

-- The first `k` packets of `q` have been written, and counted.
pub record Batched (q : List (List ℕ)) (nbytes npkts : ℕ) (t t' : Sender) : Type 0 where
  pub k : ℕ
  pub some_of : k ≤ length q
  pub written : t'.written ≡ t.written ++ take k q
  pub told : Session
  pub ending : IsEnd k (length q) t.session told
  pub session : t'.session ≡ counted (npkts + k) (nbytes + total_bytes (take k q)) told

take-nil : (n : ℕ) → take {A = List ℕ} n [] ≡ []
take-nil zero = refl
take-nil (suc n) = refl

take-add : (n k : ℕ) (q : List (List ℕ)) → take n q ++ take k (drop n q) ≡ take (n + k) q
take-add zero k q = ap (λ m. take m q) (omega arith)
take-add (suc n) k [] = take-nil k ∙ sym (take-nil (suc n + k))
take-add (suc n) k (p ∷ q) =
    let e : suc (n + k) ≡ suc n + k = omega arith in
    ap (◌∷◌ p) (take-add n k q) ∙ ap (λ m. take m (p ∷ q)) e

total_bytes-append : (a b : List (List ℕ)) → total_bytes (a ++ b) ≡ total_bytes a + total_bytes b
total_bytes-append [] b = omega arith
total_bytes-append (p ∷ a) b = omega (arith, total_bytes-append a b)

then-Batched :
    (n : ℕ) (q : List (List ℕ)) (nbytes npkts : ℕ) (t t' : Sender)
    → n ≤ length q
    → Batched (drop n q) (nbytes + total_bytes (take n q)) (npkts + n) (after_sent (take n q) t) t'
    → Batched q nbytes npkts t t'
then-Batched n q nbytes npkts t t' h b = record {
  k = n + b.k;
  some_of = omega (arith, b.some_of, length-drop n q);
  written =
      b.written
      ∙ append_assoc t.written (take n q) (take b.k (drop n q))
      ∙ ap (λ x. t.written ++ x) (take-add n b.k q);
  told = b.told;
  ending = elim b.ending [
    | inl e ↦ inl (omega (arith, e.0, length-drop n q), e.1)
    | inr e ↦ inr (omega (arith, e.0, length-drop n q), e.1)
  ];
  session =
      let pkts : npkts + n + b.k ≡ npkts + (n + b.k) = omega arith in
      let bytes : nbytes + total_bytes (take n q) + total_bytes (take b.k (drop n q))
          ≡ nbytes + total_bytes (take (n + b.k) q) =
        omega (
          arith,
          ap total_bytes (take-add n b.k q),
          total_bytes-append (take n q) (take b.k (drop n q)),
        ) in
      b.session
      ∙ ap
          (λ m.
            counted m (nbytes + total_bytes (take n q) + total_bytes (take b.k (drop n q))) b.told)
          pkts
      ∙ ap (λ m. counted (npkts + (n + b.k)) m b.told) bytes;
}

ended :
    (q : List (List ℕ)) (nbytes npkts : ℕ) (t t' : Sender) (told : Session)
    → t'.written ≡ t.written
    → t'.session ≡ counted npkts nbytes told
    → IsEnd 0 (length q) t.session told
    → Batched q nbytes npkts t t'
ended q nbytes npkts t t' told e e' h = record {
  k = 0;
  some_of = omega arith;
  written = e ∙ sym (append-nil t.written);
  told = told;
  ending = h;
  session =
      let pkts : npkts ≡ npkts + 0 = omega arith in
      let bytes : nbytes ≡ nbytes + 0 = omega arith in
      e' ∙ ap (λ m. counted m nbytes told) pkts ∙ ap (λ m. counted (npkts + 0) m told) bytes;
}

module _ (socket : Socket) (batching : IsBatching socket) where
  batch_loop-Batched :
      (fuel : ℕ) (q : List (List ℕ)) (nbytes npkts : ℕ) (t : Sender)
      → length q < fuel
      → Returns (batch_loop socket fuel q nbytes npkts t) (Batched q nbytes npkts t)
  unfolding batch_loop
  batch_loop-Batched zero q nbytes npkts t enough = absurd (omega arith)
  batch_loop-Batched (suc fuel) [] nbytes npkts t enough =
      ended [] nbytes npkts t (count_out npkts nbytes t) t.session refl refl (inl (refl, refl))
  batch_loop-Batched (suc fuel) (p ∷ q) nbytes npkts t enough =
      let all : List (List ℕ) = p ∷ q in
      rw (lt→ltb 0 (length all) (omega arith)) (
        by_answer (socket.write_batch t.calls all) refl (λ n pos inside.
          batch_loop-Batched fuel (drop n all) (nbytes + total_bytes (take n all)) (npkts + n)
            (after_sent (take n all) t) (omega (arith, length-drop n all))))
    where
      by_answer :
          (w : BatchWrite)
          → socket.write_batch t.calls (p ∷ q) ≡ w
          → ((n : ℕ)
              → 0 < n
              → n ≤ length (p ∷ q)
              → Returns
                  (batch_loop socket fuel
                    (drop n (p ∷ q))
                    (nbytes + total_bytes (take n (p ∷ q)))
                    (npkts + n)
                    (after_sent (take n (p ∷ q)) t))
                  (Batched
                    (drop n (p ∷ q))
                    (nbytes + total_bytes (take n (p ∷ q)))
                    (npkts + n)
                    (after_sent (take n (p ∷ q)) t)))
          → Returns
              (elim w [
                | wrote_batch n ↦
                    if leb n (length (p ∷ q))
                    then batch_loop socket fuel
                        (drop n (p ∷ q))
                        (nbytes + total_bytes (take n (p ∷ q)))
                        (npkts + n)
                        (after_sent (take n (p ∷ q)) t)
                    else panic
                | no_sendmmsg ↦
                    default_tx socket (p ∷ q) (record t { calls = t.calls + 1; batch_error = true })
                | batch_failed err ↦ done (count_out npkts nbytes (refused err t))
              ])
              (Batched (p ∷ q) nbytes npkts t)
      by_answer (wrote_batch n) a later =
          let pos = batching.some_taken t.calls n (p ∷ q) a in
          let inside = batching.given t.calls n (p ∷ q) a in
          rw (le→leb n (length (p ∷ q)) inside) (
            Returns-mono
              (batch_loop socket fuel (drop n (p ∷ q)) (nbytes + total_bytes (take n (p ∷ q)))
                (npkts + n) (after_sent (take n (p ∷ q)) t))
              (Batched (drop n (p ∷ q)) (nbytes + total_bytes (take n (p ∷ q))) (npkts + n)
                (after_sent (take n (p ∷ q)) t))
              (Batched (p ∷ q) nbytes npkts t) (later n pos inside)
              (λ t' b. then-Batched n (p ∷ q) nbytes npkts t t' inside b))
      by_answer no_sendmmsg a later = elim (batching.known t.calls (p ∷ q) a) [ ]
      by_answer (batch_failed err) a later =
          ended (p ∷ q) nbytes npkts t (count_out npkts nbytes (refused err t))
            (notify_write_error err t.session) refl refl (inr (omega arith, (err, refl)))

pub by_batches :
    (socket : Socket) (q : List (List ℕ)) (t : Sender)
    → t.batched ≡ true
    → t.batch_error ≡ false
    → tx socket q t ≡ batch_loop socket (length q + 1) q 0 0 t
unfolding tx
by_batches socket q t b e =
    let chosen : (not t.batched || t.batch_error) ≡ false =
      ap (λ x. not x || t.batch_error) b ∙ e in
    ap (λ c. if c then default_tx socket q t else batch_loop socket (length q + 1) q 0 0 t) chosen

-- tx of Linux with batches, on a socket whose successful calls take a packet at least and whose
-- kernel has the call: it returns, however the socket divides the packets; the packets written are
-- the first ones of the queue, in order, either all or those before the first failure, of which the
-- session is then told; OutPkts grows by the number of the packets written, and OutBytes by their
-- bytes.
pub tx_lem :
    (socket : Socket) (t : Sender)
    → IsBatching socket
    → t.batched ≡ true
    → t.batch_error ≡ false
    → Returns (tx socket t.session.txqueue t) (Batched t.session.txqueue 0 0 t)
tx_lem socket t batching b e =
    subst (λ x. Returns x (Batched t.session.txqueue 0 0 t))
      (sym (by_batches socket t.session.txqueue t b e))
      (batch_loop-Batched socket batching (length t.session.txqueue + 1) t.session.txqueue 0 0 t
        (omega arith))
