-- ===== src/Lib.antt =====
-- viamillipede carries one byte stream over several TCP connections. The transmitter (tx.c) cuts its
-- input into legs, one thread that hands each leg to an idle worker; the workers push their legs over
-- one connection each. The receiver (rx.c) has a worker for each connection; a sequencer, `next_leg`,
-- lets the workers put out their legs in the order in which the legs were made.
--
-- The files, and the code that they are about:
--   Wire: the constants of cfg.h and util.h, `struct millipacket_s`, and a leg as `txpush` writes it;
--     Wire/Frame: its bytes.
--   Plumbing/Source: read(2), a parameter: any descriptor with the documented behaviour of the call,
--     given as laws. Plumbing/Pipe is a concrete one, for the tests. Plumbing/Sink and Plumbing/Tray:
--     the same for writev(2).
--   Plumbing/Bufferfill: `bufferfill` (plumbing.c); Plumbing/Bufferfill/Filling: what it does.
--   Plumbing/Mix: `mix` (plumbing.c); Plumbing/Mix/Closed and Plumbing/Mix/Front: what it computes and
--     what it reads.
--   Plumbing/Stopwatch: the arithmetic of `stopwatch_stop` (plumbing.c); Plumbing/Stopwatch/Clock:
--     `stopwatch_start` and `stopwatch_stop` with the clock, a parameter.
--   Prbs: `prbs_gen` and `prbs_verify` (prbs.c); Prbs/Streams: what they write and accept;
--     Prbs/Legs: their use on a leg by `txpush` (tx.c) and `rxworker` (rx.c).
--   Tx/Worker: `struct txworker_s` (cfg.h), `txworker_sm` and `txpush` (tx.c); `TxMove` is one step of
--     the thread. Tx/Consistency: which states go with which points of the thread.
--   Net/Calls: the socket calls, a parameter, and `checkperror` (util.h), over a monad with `errno` and
--     the ways in which a thread ends. Net/Connect: `tcp_connect`, `tcp_recieve_prep`, `tcp_accept`
--     (plumbing.c); Net/Ends has the rules of the monad, and Net/Connected, Net/Listening and
--     Net/Refused say how the calls end.
--   Tx/Start: `tx_start_net` (tx.c); Tx/Start/Once is about its loop. Rx/Start: the way
--     of `rxworker` (rx.c) to its inner loop; Rx/Start/Phrase is about the check phrase, and
--     Rx/Start/Short about what it leaves in the buffer. Tx/Launch: `init_workers` and
--     `txlaunchworkers` (tx.c); Tx/Launch/Group: the group that they start.
--     Rx/Launch: `rxlaunchworkers` (rx.c).
--   Tx/Ingest: `txingest` and `txshutdown` (tx.c); `IngestMove` is one step of the thread. Tx/Dispatch:
--     `dispatch_idle_worker` (tx.c), read by read. Tx/Rounds: what a round takes from the input;
--     Tx/Sums: the checksum of its leg.
--   Rx/Worker: `struct rxworker_s`, `struct rxconf_s` (cfg.h) and the inner loop of `rxworker` (rx.c);
--     `RxMove` is one step of the thread. Rx/Effects: what a step does to the session.
--   Tx/Targets: `tx_tcp_connect_next` (tx.c); Tx/Targets/Rotation: the order of the targets.
--   Relay: `terminate` and `initiate` (terminate.c), `initiate_relay` and its use (viamillipede.c).
--   Relay/Polls: `rx_poll` (rx.c) and the loop at the end of `main` (viamillipede.c).
--   Tx/Poll: `tx_poll` (tx.c), read by read.
--   Tx/Status: `txstatus` (tx.c) and `tcp_dumpinfo` (plumbing.c), over the socket calls.
--   Tx/Push: `txpush` (tx.c) down to the bytes. Tx/Pseudo: `txingest` (tx.c) in the pseudorandom mode,
--     and Tx/Pseudo/Sums: its checksums.
--   Rx/Payload: the payload loop of `rxworker` (rx.c), read by read; Rx/Payload/Reading: what it does.
--     Rx/Frame: the header and the payload. Rx/Deliver: `rxworker` behind the wait for its turn.
--     Rx/Mishap: what can go wrong with the reads. Rx/Loop: both loops of `rxworker`, for one worker;
--     Rx/Loop/Turn, Rx/Loop/Rounds and Rx/Loop/Resume: a round, several, and a stream that is resumed
--     on another connection.
--   Args: the option loop of `main` (viamillipede.c): Settings, Handlers and Loop are the code, with
--     atoi(3) and strtoul(3) as parameters; Ends, Ranges and Bounds say what `main` goes on with;
--     Items, Rounds and Written what a well-formed command line means; Missing is about errors.
--   Session: both ends and the connections, in any interleaving; the modules under it hold the
--     invariant (Threads, Order, Invariant) and what follows of it (Delivery, Lost, Race, Exit,
--     Recovery); Sums is the chain of the checksums. Watch is about a thread that reads a session
--     while the others go on, as Exit (`tx_poll`) and Dispatch (`dispatch_idle_worker`) need it.
--     A worker of the transmitter is marked idle before it has reset its header; Startup is about
--     that window, and `IsCalmRun` says of a run that no worker was given a leg in it.
--   Transfer: both ends over one connection, down to the bytes, with Tx/Stream, `txingest` (tx.c) with
--     one worker.
--   Prelude: shared names, Boolean tests, words, integers, list lemmas, and `Run`, the ways in which
--     code ends: with a value, by exit, by a failed assertion, by a bad memory access, out of fuel.
--
-- A number is a natural number; a 64-bit or 32-bit word has its wrap-around written out. A buffer is
-- the list of its bytes.
--
-- Fuel and bounds. The loop of `bufferfill` and the payload loop of `rxworker` get one round more
-- than the bytes asked for; each round but the last reads a byte at least. The loop of `mix` gets
-- `size / 8 + 2` rounds, and the option loop one round more than arguments. The loop of
-- `tx_start_net` recurs on its fuse, and that at the end of `main` runs for any number of rounds.
-- `tx_poll` and `dispatch_idle_worker` wait for other threads: they get as many passes as reads until
-- the one from which on their wait is over, and one more. The inner loop of `rxworker` gets a round
-- for each leg and one more. The other loops are structural. The theorems on what a session delivers
-- are about fewer than 2 ^ 64 steps, so that no leg id wraps.
--
-- Not modelled: what status output prints, and the sleeps. `txstatus` itself can end the process where
-- the verbosity is above its level; it is called as in the code by `tx_start_net`, `txlaunchworkers`
-- and `dispatch_idle_worker`. The calls of it in `start_worker` and at the end of `txingest` are left
-- out, and the steps of a session have none: a session is one with a verbosity of at most 5. A session
-- is also one without the pseudorandom mode and without lost connections, which have modules of their
-- own. `retcode` in `txpush` is always 1, and the branch of another value is left out.
-- A thread's step stands for what it does between two points where another thread can see or change
-- what it uses. One step is coarser than that: `load` of `IngestMove` writes the buffer, the header and
-- the state of a worker at once, so that a worker that has not yet reset its header does so before or
-- behind all of them, and not between two. An exit or a failed assertion ends the process: it is a
-- state with no further step. A read may fail, or give less than was asked for. Where `rxworker` reads
-- a header and gets less, it goes on with what its memory held before; on several legs in a row
-- (Rx/Loop, Transfer) nothing is said of that, and Rx/Mishap has the condition.
pub mod Prelude
pub mod Wire
pub mod Plumbing
pub mod Prbs
pub mod Args
pub mod Tx
pub mod Rx
pub mod Session
pub mod Transfer
pub mod Net
pub mod Relay
