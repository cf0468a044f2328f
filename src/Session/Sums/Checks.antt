-- ===== src/Session/Sums/Checks.antt =====
-- The checks of `rxworker` (rx.c) on the legs of a session: the checksum and the opcode.
use viamillipede.Prelude.{ℕ, ◌+◌, ◌^◌, ◌<◌, ◌≡◌, ◌⊎◌, inl, inr, refl, List, arith}
use viamillipede.Prelude.Run.{done}
use viamillipede.Wire.{Millipacket, Leg, feed_more, end_of_millipede}
use viamillipede.Plumbing.Source.{Source}
use viamillipede.Tx.Consistency.{TxMove-unsent}
use viamillipede.Tx.Ingest.{Config}
use viamillipede.Rx.Worker.{written, verify_checksum}
use viamillipede.Session.{
  Session, Step, ingest, transmit, receive, init, Steps, here, next, IsCalm, IsCalmRun,
}
use viamillipede.Session.Invariant.{Inv, Steps-Inv}
use viamillipede.Session.Sums.{IsLongMove, IsLongRun, SumsOk}
use viamillipede.Session.Sums.Ingest.{ingest-SumsOk, transmit-SumsOk}
use viamillipede.Session.Sums.Receive.{receive-SumsOk, written_passes}

module _ (src : Source) (cfg : Config) where
  SumsOk-init :
      (header : ℕ → Millipacket) (tx_buffer rx_buffer : ℕ → List ℕ) (input : src.State)
      → SumsOk src cfg (init src cfg header tx_buffer rx_buffer input)
  SumsOk-init header tx_buffer rx_buffer input = record {
    sum = λ _. 0xff;
    legs = λ i. tt;
    saved = refl;
    hands = λ i. tt;
    between = λ all. refl;
    buffers = λ i. tt;
  }

  Step-SumsOk :
      {s₀ : src.State} {n : ℕ} {s t : Session src cfg}
      → n + 1 < 2 ^ 64
      → (st : Step src cfg s t) → IsCalm src cfg s
      → IsLongMove src cfg st
      → Inv src cfg s₀ n s
      → SumsOk src cfg s
      → SumsOk src cfg t
  Step-SumsOk {s = s} fit (ingest m) calm long v ok = ingest-SumsOk src cfg fit m long v ok
  Step-SumsOk fit (transmit i {w} {sent} lt m) calm long v ok =
      transmit-SumsOk src cfg i w sent (TxMove-unsent m (v.threads.consistent i) (calm i)) ok
  Step-SumsOk fit (receive i lt m) calm long v ok = receive-SumsOk src cfg v ok i (omega arith) m

  Steps-SumsOk :
      {header : ℕ → Millipacket} {tx_buffer rx_buffer : ℕ → List ℕ} {input : src.State} {n : ℕ}
      {s : Session src cfg}
      → n < 2 ^ 64
      → (steps : Steps src cfg (init src cfg header tx_buffer rx_buffer input) n s)
      → IsCalmRun src cfg steps
      → IsLongRun src cfg steps
      → SumsOk src cfg s
  Steps-SumsOk {header} {tx_buffer} {rx_buffer} {input} fit here calm long =
      SumsOk-init header tx_buffer rx_buffer input
  Steps-SumsOk fit (next steps st) calm long =
      Step-SumsOk (omega arith) st calm.1 long.1 (Steps-Inv src cfg (omega arith) steps calm.0)
        (Steps-SumsOk (omega arith) steps calm.0 long.0)

  -- In a session of fewer than 2 ^ 64 steps in which no worker was given a leg before it had reset its
  -- header and, if the checksums are on, every data leg had at least eight bytes and a checksum other
  -- than 0, no check of the receiver ends the process: behind `writev` a leg is a data leg that the
  -- receiver's checksum agrees with, or the last leg.
  pub checks_pass :
      {header : ℕ → Millipacket} {tx_buffer rx_buffer : ℕ → List ℕ} {input : src.State} {n : ℕ}
      {s : Session src cfg}
      → n < 2 ^ 64
      → (steps : Steps src cfg (init src cfg header tx_buffer rx_buffer input) n s)
      → IsCalmRun src cfg steps
      → IsLongRun src cfg steps
      → (i : ℕ) (l : Leg) → (s.rx i).pc ≡ written l
      → ((l.pkt.opcode ≡ feed_more)
          × (saved : ℕ) × (verify_checksum s.rxconf.grx_saved_checksum l.pkt (s.rx i).buffer
              ≡ done saved))
        ⊎ (l.pkt.opcode ≡ end_of_millipede)
  checks_pass fit steps calm long i l e =
      elim (written_passes src cfg (Steps-Inv src cfg fit steps calm)
        (Steps-SumsOk fit steps calm long) i l e) [
          | inl (op, passes) ↦ inl (op, _, passes)
          | inr (op, same) ↦ inr op
        ]
