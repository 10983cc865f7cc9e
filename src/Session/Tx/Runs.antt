-- ===== src/Session/Tx/Runs.antt =====
-- tx at concrete queues and sockets.
use rudp_go.Common.{
  ℕ, zero, suc, ◌-◌, ◌≤◌, ◌<◌, ◌≢◌, ◌≡◌, refl, List, [], ◌∷◌, ◌++◌, true, false, take, length,
  Returns, arith,
}
use rudp_go.Snmp.{new_snmp}
use rudp_go.Session.Opening.{new_udp_session}
use rudp_go.Session.Tx.{
  wrote, BatchWrite, wrote_batch, no_sendmmsg, batch_failed, Socket, Sender, default_tx, tx,
}
use rudp_go.Session.Tx.OneByOne.{SentSome, default_tx_lem}
use rudp_go.Session.Tx.Batches.{IsBatching, Batched, tx_lem}
use rudp_go.Session.Tx.Fallback.{tx_resends}

abbrev first_packet : List (List ℕ) → BatchWrite
first_packet [] = batch_failed 5
first_packet (p ∷ q) = wrote_batch 1

-- A batch takes one packet.
abbrev slow_socket : Socket
slow_socket = record {
  write_to = λ call p. wrote (length p);
  write_batch = λ call q. first_packet q;
}

abbrev only_once : ℕ → BatchWrite
only_once zero = wrote_batch 1
only_once (suc call) = no_sendmmsg

-- Batches are gone after the first.
abbrev old_socket : Socket
old_socket = record {
  write_to = λ call p. wrote (length p);
  write_batch = λ call q. only_once call;
}

abbrev three_packets : List (List ℕ)
three_packets = (1 ∷ []) ∷ (2 ∷ 2 ∷ []) ∷ (3 ∷ 3 ∷ 3 ∷ []) ∷ []

abbrev sender : Sender
sender = record {
  session =
      record (new_udp_session 7 false false
        (record { clock_reads = 0; packets = []; snmp = new_snmp })) { txqueue = three_packets };
  batched = true;
  batch_error = false;
  calls = 0;
  written = [];
}

wrote_length : {m n : ℕ} → wrote m ≡ wrote n → n ≡ m
wrote_length e = ground arith

batch_size : {m n : ℕ} → wrote_batch m ≡ wrote_batch n → n ≡ m
batch_size e = ground arith

default_tx_lem_example :
    Returns (default_tx slow_socket sender.session.txqueue sender) (SentSome sender)
default_tx_lem_example = default_tx_lem slow_socket sender (λ call n p e. wrote_length e)

slow_socket-IsBatching : IsBatching slow_socket
slow_socket-IsBatching = record { some_taken = taken; given = given; known = known }
  where
    taken : (call n : ℕ) (q : List (List ℕ)) → first_packet q ≡ wrote_batch n → 0 < n
    taken call n [] e = cc
    taken call n (p ∷ q) e = omega (arith, batch_size e)

    given : (call n : ℕ) (q : List (List ℕ)) → first_packet q ≡ wrote_batch n → n ≤ length q
    given call n [] e = cc
    given call n (p ∷ q) e = omega (arith, batch_size e)

    known : (call : ℕ) (q : List (List ℕ)) → first_packet q ≢ no_sendmmsg
    known call [] e = cc
    known call (p ∷ q) e = cc

tx_lem_example :
    Returns
      (tx slow_socket sender.session.txqueue sender)
      (Batched sender.session.txqueue 0 0 sender)
tx_lem_example = tx_lem slow_socket sender slow_socket-IsBatching refl refl

tx_resends_example :
    Returns
      (tx old_socket sender.session.txqueue sender)
      (λ t'. t'.written ≡ ([] ++ take 1 three_packets) ++ take (3 - 1) three_packets)
tx_resends_example =
    tx_resends old_socket sender 1 (λ call p. refl) refl refl (omega arith) (omega arith) refl refl
