-- ===== src/Session/Startup.antt =====
-- The race between `txingest` and a worker that comes online: the worker is marked idle before it
-- resets its header, and the ingest thread may have written a leg into the header by then.
use viamillipede.Prelude.{
  ℕ, ◌+◌, ◌≡◌, ◌<◌, ◌≤◌, refl, List, [], ◌∷◌, ◌++◌, take, update, update_all, append-nil, u64,
  arith,
}
use viamillipede.Wire.{Leg, leg_of, kfootsize}
use viamillipede.Plumbing.Source.{Source}
use viamillipede.Prelude.Run.{Run}
use viamillipede.Tx.Worker.{clearing, unsent, dispatch_leg, come_online, clear}
use viamillipede.Tx.Ingest.{Config, scanning, filling, feed, ingest_round, load}
use viamillipede.Tx.Rounds.{ingest_round-Takes}
use viamillipede.Session.{Session, ingest, transmit, Steps, here, next}

module _ (src : Source) (cfg : Config) where
  open src use {State, pending}

  -- The bytes `bytes` are taken from the input, and worker `i` has an empty leg with the id 0 instead.
  pub record IsWiped (i : ℕ) (bytes : List ℕ) (s t : Session src cfg) : Type 0 where
    pub took : pending s.txconf.input ≡ bytes ++ pending t.txconf.input
    pub worthless : (l : Leg) × (unsent (t.tx i) ≡ l ∷ []) × (l.payload ≡ []) × (l.pkt.leg_id ≡ 0)
    pub same_output : t.rxconf.output ≡ s.rxconf.output
    pub same_wire : (j : ℕ) → t.wire j ≡ s.wire j
    pub same_rx : (j : ℕ) → t.rx j ≡ s.rx j

  -- The leg is written into the header, and then the worker resets the header.
  wiped : Session src cfg → ℕ → (readsize saved checksum : ℕ) → List ℕ → State → Session src cfg
  unfolding dispatch_leg come_online
  wiped s i readsize saved checksum buffer rest =
      let tx =
        update s.tx i
          (dispatch_leg s.txconf.ingest_leg_counter readsize checksum buffer (s.tx i)) in
      record s {
        txconf = record s.txconf {
          pc = scanning;
          ingest_leg_counter = u64 (s.txconf.ingest_leg_counter + 1);
          saved_checksum = saved;
          input = rest;
          stream_total_bytes = u64 (s.txconf.stream_total_bytes + readsize);
        };
        tx = update tx i (come_online (tx i));
        wire = update s.wire i (s.wire i ++ []);
      }

  -- If the ingest thread has chosen a worker that has not reset its header yet, and its round makes a
  -- leg, then two steps lead to a state in which at least one byte and at most `kfootsize` bytes have
  -- been taken from the input while the worker is to send an empty leg with the id 0; what is on the
  -- connections and in the receiver is as before.
  pub startup_race :
      {s : Session src cfg} (i readsize saved checksum : ℕ) (buffer : List ℕ) (rest : State)
      → i < cfg.worker_count
      → s.txconf.pc ≡ filling i
      → (s.tx i).pc ≡ clearing
      → ingest_round src cfg s.txconf.ingest_leg_counter s.txconf.saved_checksum
          (s.tx i).buffer
          s.txconf.input
        ≡ Run.done (feed readsize saved checksum buffer rest)
      → (t : Session src cfg) × Steps src cfg s 2 t
        × (0 < readsize)
        × (readsize ≤ kfootsize)
        × IsWiped i (take readsize buffer) s t
  unfolding wiped
  startup_race {s} i readsize saved checksum buffer rest lt pc at_clear made =
      let (more, few, took) =
        ingest_round-Takes src cfg s.txconf.ingest_leg_counter s.txconf.saved_checksum
          (s.tx i).buffer s.txconf.input (feed readsize saved checksum buffer rest) made in
      let w = (wiped s i readsize saved checksum buffer rest).tx i in
      (
        wiped s i readsize saved checksum buffer rest,
        next (next here (ingest (load pc made))) (transmit i lt (clear (ground (arith, at_clear)))),
        more,
        few,
        record {
          took = took;
          worthless = (leg_of w.pkt w.buffer, ground arith, ground arith, ground arith);
          same_output = refl;
          same_wire =
              update_all (λ j x. x ≡ s.wire j) s.wire i (s.wire i ++ []) (append-nil (s.wire i))
                (λ j. refl);
          same_rx = λ j. refl;
        },
      )
