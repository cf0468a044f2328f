-- ===== src/Session/Race.antt =====
-- The race between `txshutdown` and the worker that is to send the last leg: `done` is set before the
-- leg is dispatched, and the thread of a worker leaves its loop once it has seen `done`.
use viamillipede.Prelude.{
  ℕ, ◌+◌, ◌^◌, ◌<◌, ◌≡◌, refl, subst, true, false, List, [], ◌++◌, update, u64, arith,
}
use viamillipede.Wire.{Millipacket}
use viamillipede.Plumbing.Source.{Source}
use viamillipede.Tx.Worker.{
  TxMove, idle, head, look, pass, action, dispatch_end, observe, idle_round,
}
use viamillipede.Prelude.Run.{Run}
use viamillipede.Tx.Poll.{is_busy, tx_poll, tx_poll_stuck}
use viamillipede.Session.Watch.{IsWatch, states, eofs, Steps-kept, IsWatch-kept}
use viamillipede.Tx.Ingest.{Config, closing, finished, load_end}
use viamillipede.Session.{Session, ingest, transmit, init, Steps, here, next, IsCalm, IsCalmRun}
use viamillipede.Session.Threads.{IsAssigned}
use viamillipede.Session.Invariant.{Inv, Step-Inv, Steps-Inv}
use viamillipede.Session.Lost.{IsLost, Steps-IsLost, Step-IsLost, lost_not_done, transmit-IsCalm}

module _ (src : Source) (cfg : Config) where
  -- The thread of worker `i` looks.
  observed : Session src cfg → ℕ → Session src cfg
  unfolding look
  observed s i = record s {
    tx = update s.tx i (look s.txconf.done (s.tx i));
    wire = update s.wire i (s.wire i ++ []);
  }

  -- The thread of worker `i` looks and leaves, and then `txshutdown` goes on.
  missed : Session src cfg → ℕ → Session src cfg
  unfolding look pass dispatch_end
  missed s i =
      let seen_tx = update s.tx i (look s.txconf.done (s.tx i)) in
      let seen_wire = update s.wire i (s.wire i ++ []) in
      let left_tx = update seen_tx i (pass true (seen_tx i)) in
      record s {
        txconf = record s.txconf {
          pc = finished;
          ingest_leg_counter = u64 (s.txconf.ingest_leg_counter + 1);
        };
        tx = update left_tx i (dispatch_end s.txconf.ingest_leg_counter (left_tx i));
        wire = update seen_wire i (seen_wire i ++ []);
      }

  -- Three steps of the race: the thread looks, it leaves, and the last leg is dispatched.
  Step-missed :
      {s : Session src cfg} (i : ℕ)
      → s.txconf.pc ≡ closing i
      → s.txconf.done ≡ true
      → (s.tx i).state ≡ idle
      → (s.tx i).pc ≡ head
      → i < cfg.worker_count
      → Steps src cfg s 3 (missed s i)
  unfolding missed action
  Step-missed i pc ending free at_head lt =
      next
        (next (next here (transmit i lt (observe at_head)))
          (transmit i lt (idle_round {d = true} {l = idle} (ground (arith, ending, free)) refl)))
        (ingest (load_end pc))

  missed-IsCalm : (s : Session src cfg) (i : ℕ) → IsCalm src cfg s → IsCalm src cfg (missed s i)
  unfolding missed
  missed-IsCalm s i calm = λ j e. ground (arith, calm j)

  missed-Inv :
      {s₀ : src.State} {n : ℕ} {s : Session src cfg} (i : ℕ)
      → s.txconf.pc ≡ closing i
      → s.txconf.done ≡ true
      → (s.tx i).state ≡ idle
      → (s.tx i).pc ≡ head
      → i < cfg.worker_count
      → n + 3 < 2 ^ 64
      → IsCalm src cfg s
      → Inv src cfg s₀ n s
      → Inv src cfg s₀ (n + 3) (missed s i)
  unfolding observed missed action
  missed-Inv {s₀} {s = s} i pc ending free at_head lt fit calm v =
      let first : TxMove s.txconf.done (s.tx i) (look s.txconf.done (s.tx i)) [] =
        observe at_head in
      let seen_tx = update s.tx i (look s.txconf.done (s.tx i)) in
      let second : TxMove s.txconf.done (seen_tx i) (pass true (seen_tx i)) [] =
        idle_round {d = true} {l = idle} (ground (arith, ending, free)) refl in
      let calm1 = transmit-IsCalm src cfg s i first calm in
      let calm2 = transmit-IsCalm src cfg (observed s i) i second calm1 in
      let v1 = Step-Inv src cfg (omega arith) (transmit i lt first) calm v in
      let v2 = Step-Inv src cfg (omega arith) (transmit i lt second) calm1 v1 in
      let v3 = Step-Inv src cfg (omega arith) (ingest (load_end pc)) calm2 v2 in
      subst (λ k. Inv src cfg s₀ k (missed s i)) (omega arith) v3

  -- In a session of fewer than 2 ^ 64 steps in which no worker was given a leg before it had reset its
  -- header, whatever the input: if the thread of the worker that `txshutdown` works on is at the head of
  -- its loop when `done` has been set, then three steps lead to a state in which the last leg is
  -- dispatched and its thread has ended; from there, however the session goes on, the receiver is never
  -- told that the stream is over, and `tx_poll` does not return after any number of passes, whatever
  -- happens between its reads.
  pub shutdown_race :
      (header : ℕ → Millipacket) (tx_buffer rx_buffer : ℕ → List ℕ) (input : src.State) {n : ℕ}
      {s : Session src cfg} (i : ℕ)
      (steps : Steps src cfg (init src cfg header tx_buffer rx_buffer input) n s)
      → IsCalmRun src cfg steps
      → IsCalm src cfg s
      → n + 3 < 2 ^ 64
      → s.txconf.pc ≡ closing i
      → (s.tx i).pc ≡ head
      → i < cfg.worker_count
      → (t : Session src cfg) × Steps src cfg s 3 t
        × IsLost src cfg i t
        × ((m : ℕ) (u : Session src cfg)
            → Steps src cfg t m u
            → n + 3 + m < 2 ^ 64
            → u.rxconf.done_mbox ≡ false)
        × ((at : ℕ → Session src cfg) (m fuel k : ℕ)
            → Steps src cfg t m (at 0)
            → IsWatch src cfg at
            → tx_poll (states src cfg at) (eofs src cfg at) cfg.worker_count fuel k ≡ Run.spent)
  unfolding missed is_busy
  shutdown_race header tx_buffer rx_buffer input {n} {s} i steps calm_run calm fit pc at_head lt =
      let v = Steps-Inv src cfg (omega arith) steps calm_run in
      let (ending, free) = subst (λ p. IsAssigned p s.txconf.done s.tx) pc v.threads.assigned in
      let lost : IsLost src cfg i (missed s i) = record {
        over = refl;
        gone = ground arith;
        loaded = ground arith;
      } in
      (
        missed s i,
        Step-missed i pc ending free at_head lt,
        lost,
        λ m u more few.
            let (v', l', _) =
              Steps-IsLost src cfg (n + 3 + m) more refl few
                (missed-Inv i pc ending free at_head lt (omega arith) calm v) lost
                (missed-IsCalm s i calm) in
            lost_not_done src cfg v' l',
        λ at m fuel k more watch.
            tx_poll_stuck (states src cfg at) (eofs src cfg at) cfg.worker_count i lt fuel k (λ k'.
              ground (
                arith,
                (IsWatch-kept src cfg (IsLost src cfg i) (λ u u' st. Step-IsLost src cfg {i = i} st)
                    at watch 0 k' (omega arith)
                    (Steps-kept src cfg (IsLost src cfg i)
                      (λ u u' st. Step-IsLost src cfg {i = i} st) more lost)).loaded,
              )),
      )
