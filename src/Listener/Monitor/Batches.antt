-- ===== src/Listener/Monitor/Batches.antt =====
-- readloop_linux.go and readloop.go: batches against single packets, and a batch that fails to be
-- possible.
use rudp_go.Common.{ℕ, ◌≡◌, refl, sym, ap, ◌∙◌, List, [], ◌∷◌, ◌++◌, true, ◌>>=◌, bind_assoc}
use rudp_go.Session.Loops.{
  Datagram, Arrival, read_fails, BatchArrival, arrived_batch, no_recvmmsg, batch_fails,
}
use rudp_go.Session.Loops.Batches.{one_by_one}
use rudp_go.Listener.{Listener, listener_input}
use rudp_go.Listener.Monitor.{default_monitor, input_all, batch_monitor, monitor}

-- The packets one by one, with those that come after the kernel has turned out to have no batches.
abbrev pub singles : List BatchArrival → List Arrival → List Arrival
singles [] later = []
singles (arrived_batch ds ∷ bs) later = one_by_one ds ++ singles bs later
singles (no_recvmmsg ∷ bs) later = later
singles (batch_fails err ∷ bs) later = read_fails err ∷ []

default_monitor-append :
    (clock : ℕ → ℕ) (ds : List Datagram) (answers : List Arrival) (l : Listener)
    → default_monitor clock (one_by_one ds ++ answers) l
      ≡ (input_all clock ds l >>= default_monitor clock answers)
unfolding default_monitor input_all
default_monitor-append clock [] answers l = refl
default_monitor-append clock (d ∷ ds) answers l =
    ap (λ f. listener_input clock d.packet d.from l >>= f)
      (λ i m. default_monitor-append clock ds answers m i)
    ∙ bind_assoc (listener_input clock d.packet d.from l) (input_all clock ds)
        (default_monitor clock answers)

batches_singles :
    (clock : ℕ → ℕ) (bs : List BatchArrival) (later : List Arrival) (l : Listener)
    → batch_monitor clock bs later l ≡ default_monitor clock (singles bs later) l
unfolding batch_monitor default_monitor
batches_singles clock [] later l = refl
batches_singles clock (arrived_batch ds ∷ bs) later l =
    ap (λ f. input_all clock ds l >>= f) (λ i m. batches_singles clock bs later m i)
    ∙ sym (default_monitor-append clock ds (singles bs later) l)
batches_singles clock (no_recvmmsg ∷ bs) later l = refl
batches_singles clock (batch_fails err ∷ bs) later l = refl

-- monitor on a socket with batches comes to the same as defaultMonitor on the same packets one by
-- one, however they are divided, and also where it goes over to single packets in the middle.
pub monitor_lem :
    (clock : ℕ → ℕ) (bs : List BatchArrival) (later : List Arrival) (l : Listener)
    → monitor clock true bs later l ≡ default_monitor clock (singles bs later) l
unfolding monitor
monitor_lem clock bs later l = batches_singles clock bs later l
