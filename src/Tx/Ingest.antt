-- ===== src/Tx/Ingest.antt =====
-- `txingest` and `txshutdown` (tx.c): the thread that cuts the input into legs. The pseudorandom
-- mode, in which nothing is read, is left out: `gprbs_seed` is 0.
use viamillipede.Prelude.{
  ℕ, ◌+◌, ◌<◌, ◌≡◌, Bool, true, false, ◌&&◌, List, ltb, ◌==◌, if◌then◌else◌, update, u64,
}
use viamillipede.Prelude.Run.{Run, done, ◌>>=◌}
use viamillipede.Wire.{kfootsize}
use viamillipede.Plumbing.Mix.{mix}
use viamillipede.Plumbing.Source.{Source}
use viamillipede.Plumbing.Bufferfill.{Filled, bufferfill}
use viamillipede.Tx.Worker.{Txworker, idle, dispatch_leg, dispatch_end}

-- The options that the transmitter reads.
pub record Config : Type 0 where
  pub worker_count : ℕ
  pub gcharmode : Bool
  pub gchecksums : Bool
  pub gleg_limit : ℕ

-- Where the thread stands.
pub data IngestPc : Type 0 where
  scanning : IngestPc  -- in `dispatch_idle_worker`
  filling : ℕ → IngestPc  -- with the idle worker that it chose
  closing : ℕ → IngestPc  -- in `txshutdown`, behind the locked part
  finished : IngestPc

-- `(gleg_limit > 0) && (gleg_limit == ingest_leg_counter)`
unfoldable pub limit_reached : ℕ → ℕ → Bool
limit_reached gleg_limit ingest_leg_counter = ltb 0 gleg_limit && gleg_limit == ingest_leg_counter

-- `saved_checksum` and the checksum of the header of a data leg
unfoldable pub leg_checksum : Bool → ℕ → ℕ → List ℕ → ℕ → Run (ℕ × ℕ)
leg_checksum true saved leg buffer readsize =
    mix (u64 (saved + leg)) buffer readsize >>= λ sum. done (sum, sum)
leg_checksum false saved leg buffer readsize = done (saved, 0)

module _ (src : Source) (cfg : Config) where
  open src use {State}
  open cfg use {worker_count, gcharmode, gchecksums, gleg_limit}

  -- What a round does behind `dispatch_idle_worker`: with the filled buffer of the worker and the
  -- descriptor behind the read, it makes a leg, or it calls `txshutdown`.
  pub data Round : Type 0 where
    feed : (readsize saved checksum : ℕ) (buffer : List ℕ) (rest : State) → Round
    shutdown : (buffer : List ℕ) (rest : State) → Round

  -- The round behind `bufferfill`.
  unfoldable pub decide_round : ℕ → ℕ → Filled src → Run Round
  unfolding limit_reached leg_checksum
  decide_round ingest_leg_counter saved r =
      if limit_reached gleg_limit ingest_leg_counter
      then done (shutdown r.dest r.rest)
      else if ltb 0 r.accumulator
      then (leg_checksum gchecksums saved ingest_leg_counter r.dest r.accumulator >>= λ sums.
          done (feed r.accumulator sums.0 sums.1 r.dest r.rest))
      else done (shutdown r.dest r.rest)

  unfoldable pub ingest_round : ℕ → ℕ → List ℕ → State → Run Round
  unfolding decide_round
  ingest_round ingest_leg_counter saved buffer input =
      bufferfill src 0 buffer kfootsize gcharmode input >>= decide_round ingest_leg_counter saved

  -- `struct txconf_s`, with the variables of the thread
  pub record Txconf : Type 0 where
    pub pc : IngestPc
    pub ingest_leg_counter : ℕ
    pub saved_checksum : ℕ
    pub input : State
    pub stream_total_bytes : ℕ
    pub done : Bool
    pub input_eof : Bool

  -- One step of the thread. Any idle worker may be chosen: which one is found first depends on when
  -- the others become idle during the scan.
  pub data IngestMove (c : Txconf) (tx : ℕ → Txworker) : Txconf → (ℕ → Txworker) → Type 0 where
    choose :
        (i : ℕ)
        → c.pc ≡ scanning
        → i < worker_count
        → (tx i).state ≡ idle
        → IngestMove c tx (record c { pc = filling i }) tx
    load :
        {i readsize saved checksum : ℕ} {buffer : List ℕ} {rest : State}
        → c.pc ≡ filling i
        → ingest_round c.ingest_leg_counter c.saved_checksum (tx i).buffer c.input
          ≡ Run.done (feed readsize saved checksum buffer rest)
        → IngestMove c tx
            (record c {
              pc = scanning;
              ingest_leg_counter = u64 (c.ingest_leg_counter + 1);
              saved_checksum = saved;
              input = rest;
              stream_total_bytes = u64 (c.stream_total_bytes + readsize);
            })
            (update tx i (dispatch_leg c.ingest_leg_counter readsize checksum buffer (tx i)))
    shut :
        {i : ℕ} {buffer : List ℕ} {rest : State}
        → c.pc ≡ filling i
        → ingest_round c.ingest_leg_counter c.saved_checksum (tx i).buffer c.input
          ≡ Run.done (shutdown buffer rest)
        → IngestMove c tx
            (record c { pc = closing i; input = rest; done = true; input_eof = true })
            (update tx i (record (tx i) { buffer = buffer }))
    load_end :
        {i : ℕ}
        → c.pc ≡ closing i
        → IngestMove c tx
            (record c { pc = finished; ingest_leg_counter = u64 (c.ingest_leg_counter + 1) })
            (update tx i (dispatch_end c.ingest_leg_counter (tx i)))
