-- ===== src/Session/Sums.antt =====
-- The chain of the checksums through a session: what the transmitter sums up and what the receiver
-- checks. `sum k` is the saved checksum in front of leg `k`, at both ends.
pub mod Ingest
pub mod Receive
pub mod Checks
use viamillipede.Prelude.{
  ℕ, ◌+◌, ◌<◌, ◌≤◌, ◌≡◌, ◌≢◌, ◌⊎◌, Bool, true, false, List, [], ◌∷◌, ◌++◌, refl, overwrite, inl,
  inr, arith,
}
use viamillipede.Prelude.Run.{Run, done}
use viamillipede.Wire.{Leg, feed_more, end_of_millipede}
use viamillipede.Plumbing.Source.{Source}
use viamillipede.Tx.Worker.{unsent}
use viamillipede.Tx.Ingest.{Config, IngestMove, choose, load, shut, load_end}
use viamillipede.Rx.Worker.{
  RxPc, head, reading, holding, sequenced, written, checked, ended, Rxworker, Rxconf, receive,
  verify_checksum, held, RxMove, enter, leave, take_leg, pass_gate, put, verify, stop, advance,
}
use viamillipede.Session.{
  Session, Step, ingest, transmit, receive as receive_step, Steps, here, next,
}
use viamillipede.Session.Order.{queue}

-- The receiver's check accepts a data leg with any bytes behind its payload in the buffer; the last
-- leg has no check.
abbrev pub IsLinked : (ℕ → ℕ) → ℕ → Leg → Type 0
IsLinked sum counter l =
    (l.pkt.leg_id < counter)
    × (((l.pkt.opcode ≡ feed_more)
          × ((tail : List ℕ)
              → verify_checksum (sum l.pkt.leg_id) l.pkt (l.payload ++ tail)
                ≡ done (sum (l.pkt.leg_id + 1))))
        ⊎ ((l.pkt.opcode ≡ end_of_millipede) × (sum (l.pkt.leg_id + 1) ≡ sum l.pkt.leg_id)))

abbrev pub AllLegs : (Leg → Type 0) → List Leg → Type 0
AllLegs P [] = Unit {0}
AllLegs P (l ∷ legs) = P l × AllLegs P legs

abbrev pub is_checked : RxPc → Bool
is_checked (checked l) = true
is_checked _ = false

-- Behind the check the saved checksum is that of the next leg.
abbrev pub IsSavedAt : (ℕ → ℕ) → ℕ → ℕ → RxPc → Type 0
IsSavedAt sum saved next_leg (checked l) = saved ≡ sum (next_leg + 1)
IsSavedAt sum saved next_leg _ = Unit {0}

-- The payload of the leg in hand is at the front of the buffer.
abbrev pub IsBufferedAt : RxPc → List ℕ → Type 0
IsBufferedAt (holding l) buffer = (tail : List ℕ) × (buffer ≡ l.payload ++ tail)
IsBufferedAt (sequenced l) buffer = (tail : List ℕ) × (buffer ≡ l.payload ++ tail)
IsBufferedAt (written l) buffer = (tail : List ℕ) × (buffer ≡ l.payload ++ tail)
IsBufferedAt _ buffer = Unit {0}

pub RxMove-IsBufferedAt :
    {c c' : Rxconf} {w w' : Rxworker} {wire rest : List Leg}
    → RxMove c w wire c' w' rest
    → IsBufferedAt w.pc w.buffer
    → IsBufferedAt w'.pc w'.buffer
unfolding receive overwrite
RxMove-IsBufferedAt (enter e m) b = tt
RxMove-IsBufferedAt (leave e m) b = tt
RxMove-IsBufferedAt (take_leg e q) b = (_, refl)
RxMove-IsBufferedAt (pass_gate {l} e q) b = ground (arith, e, b)
RxMove-IsBufferedAt (put {l} e) b = ground (arith, e, b)
RxMove-IsBufferedAt (verify e o v) b = tt
RxMove-IsBufferedAt (stop e o) b = tt
RxMove-IsBufferedAt (advance e) b = tt

module _ (src : Source) (cfg : Config) where
  -- With the checksums on, a leg that the step makes has at least eight bytes, and its checksum is not
  -- 0, which would stand for no checksum.
  abbrev pub IsLongMove : {s t : Session src cfg} → Step src cfg s t → Type 0
  IsLongMove (ingest (load {readsize = readsize} {checksum = checksum} e r)) =
      cfg.gchecksums ≡ true → (8 ≤ readsize) × (checksum ≢ 0)
  IsLongMove _ = Unit {0}

  abbrev pub IsLongRun :
      {s : Session src cfg} {n : ℕ} {u : Session src cfg} → Steps src cfg s n u → Type 0
  IsLongRun here = Unit {0}
  IsLongRun (next steps st) = IsLongRun steps × IsLongMove st

  pub record SumsOk (s : Session src cfg) : Type 0 where
    pub sum : ℕ → ℕ
    pub legs :
        (i : ℕ)
        → AllLegs
            (IsLinked sum s.txconf.ingest_leg_counter)
            (queue (held (s.rx i)) (s.wire i) (unsent (s.tx i)))
    pub saved : s.txconf.saved_checksum ≡ sum s.txconf.ingest_leg_counter
    pub hands : (i : ℕ) → IsSavedAt sum s.rxconf.grx_saved_checksum s.rxconf.next_leg (s.rx i).pc
    pub between :
        ((i : ℕ) → is_checked (s.rx i).pc ≡ false)
        → s.rxconf.grx_saved_checksum ≡ sum s.rxconf.next_leg
    pub buffers : (i : ℕ) → IsBufferedAt (s.rx i).pc (s.rx i).buffer
