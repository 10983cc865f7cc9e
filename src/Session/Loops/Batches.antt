-- ===== src/Session/Loops/Batches.antt =====
-- readloop_linux.go and readloop.go: batches against single packets.
use rudp_go.Common.{
  ℕ, ◌≡◌, refl, sym, ap, ◌∙◌, List, [], ◌∷◌, ◌++◌, true, Option, none, ◌>>=◌, bind_assoc,
}
use rudp_go.Session.{Session}
use rudp_go.Session.Loops.{
  Datagram, Arrival, arrived, read_fails, BatchArrival, arrived_batch, no_recvmmsg, batch_fails,
  take_datagram, take_datagrams, default_loop_from, default_read_loop, batch_loop_from, read_loop,
}

abbrev pub one_by_one : List Datagram → List Arrival
one_by_one [] = []
one_by_one (d ∷ ds) = arrived d ∷ one_by_one ds

-- What the socket would have answered with single packets.
abbrev pub single : List BatchArrival → List Arrival
single [] = []
single (arrived_batch ds ∷ bs) = one_by_one ds ++ single bs
single (no_recvmmsg ∷ bs) = []
single (batch_fails err ∷ bs) = read_fails err ∷ single bs

abbrev pub HasBatches : List BatchArrival → Type 0
HasBatches [] = Unit {0}
HasBatches (no_recvmmsg ∷ bs) = ⊥
HasBatches (_ ∷ bs) = HasBatches bs

default_loop_from-append :
    (clock : ℕ → ℕ) (ds : List Datagram) (answers : List Arrival) (x : Option ℕ × Session)
    → default_loop_from clock (one_by_one ds ++ answers) x
      ≡ (take_datagrams clock ds x >>= default_loop_from clock answers)
unfolding default_loop_from take_datagrams
default_loop_from-append clock [] answers x = refl
default_loop_from-append clock (d ∷ ds) answers x =
    ap (λ f. take_datagram clock d x >>= f) (λ i y. default_loop_from-append clock ds answers y i)
    ∙ bind_assoc (take_datagram clock d x) (take_datagrams clock ds)
        (default_loop_from clock answers)

batches_single :
    (clock : ℕ → ℕ) (bs : List BatchArrival) (later : List Arrival) (x : Option ℕ × Session)
    → HasBatches bs
    → batch_loop_from clock bs later x ≡ default_loop_from clock (single bs) x
unfolding batch_loop_from default_loop_from
batches_single clock [] later x h = refl
batches_single clock (arrived_batch ds ∷ bs) later x h =
    ap (λ f. take_datagrams clock ds x >>= f) (λ i y. batches_single clock bs later y h i)
    ∙ sym (default_loop_from-append clock ds (single bs) x)
batches_single clock (no_recvmmsg ∷ bs) later x h = elim h [ ]
batches_single clock (batch_fails err ∷ bs) later x h = refl

-- readLoop on a socket with batches, while the kernel has the call for them, comes to the same as
-- defaultReadLoop on the same packets one by one, however they are divided, to the same panics too.
pub read_loop_lem :
    (clock : ℕ → ℕ) (bs : List BatchArrival) (later : List Arrival) (s : Session)
    → HasBatches bs
    → read_loop clock true bs later s ≡ default_read_loop clock (single bs) s
unfolding read_loop default_read_loop
read_loop_lem clock bs later s h = batches_single clock bs later (none, s) h
