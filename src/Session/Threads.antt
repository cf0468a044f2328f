-- ===== src/Session/Threads.antt =====
-- What the threads of the transmitter know of one another in every state of a session.
use viamillipede.Prelude.{ℕ, ◌≡◌, refl, Bool, true, false, List, update, arith}
use viamillipede.Wire.{Millipacket}
use viamillipede.Plumbing.Source.{Source}
use viamillipede.Tx.Worker.{Txworker, idle, dispatch_leg, dispatch_end}
use viamillipede.Tx.Ingest.{
  Config, IngestPc, scanning, filling, closing, finished, Txconf, IngestMove, choose, load, shut,
  load_end,
}
use viamillipede.Tx.Consistency.{IsConsistent, TxMove-IsConsistent, TxMove-idle}
use viamillipede.Session.{Session, Step, ingest, transmit, receive, init}

-- The worker that the ingest thread has in hand is idle, and `done` is set from `txshutdown` on.
abbrev pub IsAssigned : IngestPc → Bool → (ℕ → Txworker) → Type 0
IsAssigned scanning done tx = done ≡ false
IsAssigned (filling i) done tx = (done ≡ false) × ((tx i).state ≡ idle)
IsAssigned (closing i) done tx = (done ≡ true) × ((tx i).state ≡ idle)
IsAssigned finished done tx = done ≡ true

module _ (src : Source) (cfg : Config) where
  pub record ThreadsOk (s : Session src cfg) : Type 0 where
    pub consistent : (i : ℕ) → IsConsistent (s.tx i)
    pub assigned : IsAssigned s.txconf.pc s.txconf.done s.tx

  IngestMove-ThreadsOk :
      {c c' : Txconf src cfg} {tx tx' : ℕ → Txworker}
      → IngestMove src cfg c tx c' tx'
      → ((i : ℕ) → IsConsistent (tx i))
      → IsAssigned c.pc c.done tx
      → ((i : ℕ) → IsConsistent (tx' i)) × IsAssigned c'.pc c'.done tx'
  unfolding dispatch_leg dispatch_end
  IngestMove-ThreadsOk (choose i e lt q) ok a = (ok, ground arith)
  IngestMove-ThreadsOk (load {i} e r) ok a = (λ j. ground (arith, ok i, ok j), ground arith)
  IngestMove-ThreadsOk (shut {i} e r) ok a = (λ j. ground (arith, ok i, ok j), ground arith)
  IngestMove-ThreadsOk (load_end {i} e) ok a = (λ j. ground (arith, ok i, ok j), ground arith)

  pub Step-ThreadsOk : {s t : Session src cfg} → Step src cfg s t → ThreadsOk s → ThreadsOk t
  Step-ThreadsOk (ingest m) ok =
      let (c, a) = IngestMove-ThreadsOk m ok.consistent ok.assigned in
      record { consistent = c; assigned = a }
  Step-ThreadsOk {s} (transmit i {w} lt m) ok = record {
    consistent = λ j. ground (arith, ok.consistent j, TxMove-IsConsistent m (ok.consistent i));
    assigned = keep s.txconf.pc ok.assigned;
  }
    where
      keep :
          (pc : IngestPc)
          → IsAssigned pc s.txconf.done s.tx
          → IsAssigned pc s.txconf.done (update s.tx i w)
      keep scanning a = a
      keep (filling j) a = ground (arith, TxMove-idle m (ok.consistent i))
      keep (closing j) a = ground (arith, TxMove-idle m (ok.consistent i))
      keep finished a = a
  Step-ThreadsOk (receive i lt m) ok = record { consistent = ok.consistent; assigned = ok.assigned }

  pub ThreadsOk-init :
      (header : ℕ → Millipacket) (tx_buffer rx_buffer : ℕ → List ℕ) (input : src.State)
      → ThreadsOk (init src cfg header tx_buffer rx_buffer input)
  ThreadsOk-init header tx_buffer rx_buffer input = record {
    consistent = λ i. refl;
    assigned = refl;
  }
