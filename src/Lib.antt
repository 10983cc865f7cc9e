-- ===== src/Lib.antt =====
-- rudp-go: a reliable protocol over UDP (a KCP). Verification of the protocol engine, rudp.go, of
-- its sessions, sess.go, with their socket loops, tx.go, tx_linux.go, readloop.go and
-- readloop_linux.go, of the listener, listener.go, and of the timed scheduler, timesched.go.
--
-- The program. A `RUDP` (rudp.go) is one end of a conversation. `Send` cuts a message into
-- segments and queues them; `flush` moves segments into the send buffer as far as the window
-- lets it, numbers them, sends and resends them together with acknowledgements and window
-- probes, and hands packets to an output callback; `Input` takes a packet apart, drops what the
-- peer has acknowledged, stores data segments in order and collects acknowledgements; `Receive`
-- hands complete messages to the caller. A session (sess.go) drives a RUDP from a socket and a
-- timer (timesched.go); a listener (listener.go) makes sessions of the packets that come in.
--
-- The files.
--   Common      shared names: results with panics, Boolean tests, lists, slices at an index
--               (Slots), counts and changes of order (Counts), Go's integers.
--   Snmp        snmp.go: the counters.
--   Wire        rudp.go: segment, encodeOverHead, encodeData, the decoders. Wire.RoundTrip and
--               Wire.Reading prove about them, Wire.Runs runs them.
--   Rudp        rudp.go: the RUDP record, NewRudp, the constants and small helpers, with
--     Config    ReserveBytes, SetMtu, WndSize, NoDelay, ReleaseTX; Config.Bounds
--     Send      Send; Send.Fragments and Send.Stream on what it queues in message and in stream
--               mode, Send.Safety on its sizes
--     Acks      parseUna, updateSndUna, parseAck, parseFastAck, pushAck; Acks.Una, Acks.Marks,
--               Acks.Advance on the start of the send side
--     Rto       updateRTO; Rto.Bounds
--     Delivery  parseData, peekSize, Receive; Insert, Order, Arrival, Growth, Messages, RoundTrip,
--               Incomplete; a module SendSide or ReceiveSide says that the part leaves that side
--               as it is
--     Flush     flush: Packet is its buffer (makeSpace, flushBuffer), Transmit its loop over the
--               send buffer, Parts and Safety are on its bounds, Window and Filling on what it
--               numbers, Transmit.Oversize on segments beyond the MTU
--     Input     Input: Loop is its loop over segments (Loop.Frames on encoded ones), Cwnd its
--               congestion window, Safety is on its end, Numbered on the send side, Ordered on the
--               receive side
--     Calls     sequences of calls on a RUDP; Calls.Safety
--     Sized, Numbers, Receiving   the sizes, the order of numbers, and the receive side as it
--               was, which the theorems rest on
--     Runs      states, packets and runs at concrete values
--   Session     sess.go: UDPSession, update, rudpInput, packetInput, output, uncork, Close, with
--     Read      Read; Read.Stream and Read.Drain
--     Write     WriteBuffers; Write.Pieces on the rounds, Write.Waiting, Write.Waiting.Counted
--     Options   deadlines, windows, timing, stream mode, delays, SetMtu; Options.Mtu
--     Opening   newUDPSession; Opening.Sound
--     Events    sequences of events on a session; Events.Safety
--     Tx        tx.go and tx_linux.go: defaultTx, tx; Tx.OneByOne, Tx.Batches, and Tx.Fallback
--               on the change from one to the other
--     Loops     readloop.go and readloop_linux.go: defaultReadLoop, readLoop; Loops.Batches
--     Sound, Living   the sizes of a session, and what ends it; Runs is at concrete values
--   Listener    listener.go, and serveConn of sess.go: packetInput (listener_input), closeSession,
--               notifyReadError (listener_read_error), AcceptRUDP, Close (close_listener), with
--     Slots     the map from addresses to sessions
--     Steady    the state between two calls, which Closing, Adding, Errors keep
--     Dispatch  packetInput and the sessions it may change
--     Events    sequences of events on a listener; Events.Onward and Events.Courses on one event,
--               Events.Safety on all
--     Monitor   defaultMonitor and monitor of the reading loops; Monitor.Batches
--     Runs      packets and events at concrete values
--   TimedSched  timesched.go, with
--     Heap      timeFuncHeap, and the functions of container/heap on it; Order, Up, Down, Queue
--     Worker    sched: a worker with its timer; Timing is its state between two turns, Turns a
--               task's arrival, Due the timer's end
--     Steps     TimedSched, Put, prepend, Close as steps of goroutines; Invariant, Account (the
--               tasks put and where they are), Settling, Emptying, Manned and Progress (runs that
--               execute them)
--     Runs      a scheduler at concrete values
--
-- The correspondence. A struct is a record with the source's fields; a method is a function that
-- takes the state and returns the new one with the result. A uint32 is a natural number below
-- 2 ^ 32 and its arithmetic wraps (add32, sub32, mul32); an int32 is an integer that wraps
-- likewise; an int, 64 bits wide here, is taken as unbounded, since lengths stay far below it. A
-- list of bytes is a list of natural numbers. An index or a slice out of range and a division by
-- zero are the outcome `panic`. The clock is a parameter: a function from the count of its
-- readings to milliseconds. What a RUDP shares with the process is the record `World`: that
-- count, the packets handed to the callback (the first `size` bytes, which is what a callback
-- may read), and the counters. `append` to a slice and `removeFront` are operations on lists: no
-- two live slices of segments share memory here. A pooled buffer has 1500 bytes (mtuLimit), so a
-- longer segment panics.
--
-- A session's call under its lock is one function: sess.go holds the lock from the start of a
-- round to its end, so calls follow one another in some order. The waiting of `Read` and of
-- `WriteBuffers` is a list of wakes: what the select statement finds each time, with the session as
-- others have left it.
--
-- The sessions of a listener are entries of one list, and the map, the accept queue and the callers
-- have their indices: so the map and the callers share them. They share one `World`. A packet's
-- address is a number in place of the string. Close of a session is two events, before and behind
-- the unlock of `mu`: other events may come before its closeSession. packetInput is one event, since
-- one goroutine reads the socket and no other adds to the map. The loops over a socket are
-- functions of what the socket answers, call after call; `tx` has a parameter `Socket` for that.
-- A time of the scheduler is a number of nanoseconds, a task's function a number. One step of the
-- scheduler is what one goroutine does between two waits: a call of Put is two steps, a turn of a
-- worker one. The timer is that of Go 1.17, whose Stop and Reset leave its channel alone.
--
-- Fuel. The loop of `Input` has the packet's length as fuel. A round takes 24 bytes or ends, so
-- the length is enough. The loop of `WriteBuffers` that cuts a buffer has the buffer's length: a
-- piece has a byte at least while the segment size is not 0. Running out would be an outcome of
-- its own. The loops of container/heap have the index, or the length, and one: a round goes one
-- level up or down. The worker's loop over the tasks that are due has their number and one, and
-- that of `tx` the number of packets and one, since a call of the socket takes one at least. All
-- other loops run over a list.
--
-- Not modelled: Dial, Listen and NewConn, which resolve addresses and
-- open sockets, and the getters and the options of a socket, which pass calls on; the choice
-- between packet connections for ipv4 and ipv6; the files for other systems, which only call the
-- default loops; the encryption interface, which is empty; examples.
pub mod Common
pub mod Snmp
pub mod TimedSched
pub mod Wire
pub mod Listener
pub mod Rudp
pub mod Session
