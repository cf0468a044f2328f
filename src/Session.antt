-- ===== src/Session.antt =====
-- A whole session: the ingest thread and the workers of tx.c, the connections, and the workers of
-- rx.c, interleaved in any order. A connection delivers its legs in order. The receiver's worker `i`
-- is the one that accepted the connection of the transmitter's worker `i`.
pub mod Share
pub mod Order
pub mod Invariant
pub mod Delivery
pub mod Recovery
pub mod Startup
pub mod Watch
pub mod Exit
pub mod Dispatch
pub mod Sums
pub mod Lost
pub mod Race
mod Tests
pub mod Threads
use viamillipede.Prelude.{ℕ, zero, suc, ◌<◌, ◌≡◌, Bool, true, false, List, [], ◌++◌, update}
use viamillipede.Wire.{Millipacket, Leg}
use viamillipede.Plumbing.Source.{Source}
use viamillipede.Tx.Worker.{Txworker, TxMove, launched, starting}
use viamillipede.Tx.Consistency.{IsCalmWorker}
use viamillipede.Tx.Ingest.{Config, Txconf, IngestMove, scanning}
use viamillipede.Rx.Worker.{Rxworker, Rxconf, RxMove, head}

module _ (src : Source) (cfg : Config) where
  open src use {State}

  pub record Session : Type 0 where
    pub txconf : Txconf src cfg
    pub tx : ℕ → Txworker
    pub wire : ℕ → List Leg
    pub rxconf : Rxconf
    pub rx : ℕ → Rxworker

  pub data Step (s : Session) : Session → Type 0 where
    ingest :
        {c : Txconf src cfg} {tx : ℕ → Txworker}
        → IngestMove src cfg s.txconf s.tx c tx
        → Step s (record s { txconf = c; tx = tx })
    transmit :
        (i : ℕ) {w : Txworker} {sent : List Leg}
        → i < cfg.worker_count
        → TxMove s.txconf.done (s.tx i) w sent
        → Step s (record s { tx = update s.tx i w; wire = update s.wire i (s.wire i ++ sent) })
    receive :
        (i : ℕ) {c : Rxconf} {w : Rxworker} {rest : List Leg}
        → i < cfg.worker_count
        → RxMove s.rxconf (s.rx i) (s.wire i) c w rest
        → Step s (record s { rxconf = c; rx = update s.rx i w; wire = update s.wire i rest })

  -- Behind `txlaunchworkers` and `rxlaunchworkers`; `header` is what `malloc` left in the headers.
  abbrev pub init : (ℕ → Millipacket) → (ℕ → List ℕ) → (ℕ → List ℕ) → State → Session
  init header tx_buffer rx_buffer input = record {
    txconf = record {
      pc = scanning;
      ingest_leg_counter = 0;
      saved_checksum = 0xff;
      input = input;
      stream_total_bytes = 0;
      done = false;
      input_eof = false;
    };
    tx = λ i. record { state = launched; pkt = header i; buffer = tx_buffer i; pc = starting };
    wire = λ _. [];
    rxconf = record { next_leg = 0; done_mbox = false; grx_saved_checksum = 0xff; output = [] };
    rx = λ i. record { pc = head; buffer = rx_buffer i };
  }

  -- `n` steps from `s`.
  pub data Steps (s : Session) : ℕ → Session → Type 0 where
    here : Steps s 0 s
    next : {n : ℕ} {t u : Session} → Steps s n t → Step t u → Steps s (suc n) u

  -- In the state `s` no worker holds a leg that it is about to overwrite as it comes online.
  abbrev pub IsCalm : Session → Type 0
  IsCalm s = (i : ℕ) → IsCalmWorker (s.tx i)

  -- Every state of the run but the last is calm.
  abbrev pub IsCalmRun : {s : Session} {n : ℕ} {u : Session} → Steps s n u → Type 0
  IsCalmRun here = Unit
  IsCalmRun (next {t = t} steps st) = IsCalmRun steps × IsCalm t
