-- ===== src/Session/Tests/Polling.antt =====
-- `tx_poll` while a session goes on: behind its end, and in the middle of it.
use viamillipede.Prelude.{
  ℕ, ◌+◌, ◌<◌, ◌≤◌, ◌≡◌, inr, refl, subst, true, false, [], arith, ℕ_discrete,
}
use viamillipede.Prelude.Run.{done}
use viamillipede.Plumbing.Pipe.{pipe}
use viamillipede.Plumbing.Bufferfill.{bufferfill}
use viamillipede.Tx.Worker.{connect, clear, announce, come_online, dispatch_leg, unsent}
use viamillipede.Tx.Poll.{is_busy, tx_poll}
use viamillipede.Tx.Dispatch.{Dispatched, IsFound, dispatch_idle_worker}
use viamillipede.Session.Dispatch.{none_yet, dispatch_idle_worker-choose}
use viamillipede.Tx.Ingest.{Config, IngestMove, filling, ingest_round, choose, load, shut}
use viamillipede.Session.{Session, ingest, transmit, init, here}
use viamillipede.Net.Tests.{near}
use viamillipede.Session.Watch.{IsWatch, states, eofs}
use viamillipede.Session.Exit.{tx_poll_ends, poll_race}
use viamillipede.Session.Tests.{one_worker, blank, hi, start, Trace, ◌▸◌, ◌↗◌, whole}

-- What holds at `n` holds at every index from `n` to `n`.
only : (P : ℕ → Type 0) (n : ℕ) → P n → (j : ℕ) → n ≤ j → j < n + 1 → P j
only P n p j lo hi = subst P (omega arith) p

tx_poll_ends_example :
    (m : ℕ) × (tx_poll (λ k i. (whole.last.tx i).state) (λ k. whole.last.txconf.input_eof) 1 1 0
      ≡ done (true, m))
    × ((j i : ℕ) → m ≤ j → i < 1 → unsent (whole.last.tx i) ≡ [])
unfolding whole is_busy
tx_poll_ends_example =
    tx_poll_ends pipe one_worker (λ k. whole.last) 1 0 0 whole.steps (λ k. (0, here)) refl
      (λ i lt. only (λ j. is_busy (whole.last.tx j).state ≡ false) 0 refl i (omega arith) lt)
      (omega arith) (omega arith)

abbrev two_workers : Config
two_workers = record { worker_count = 2; gcharmode = false; gchecksums = false; gleg_limit = 0 }

-- Both workers are online, and the ingest thread has chosen the first.
chosen : Trace two_workers (init pipe two_workers (λ i. blank) (λ i. []) (λ i. []) hi)
unfolding announce come_online ℕ_discrete
chosen =
    record {
      single = omega arith;
      count = 0;
      last = init pipe two_workers (λ i. blank) (λ i. []) (λ i. []) hi;
      steps = here;
      calm_run = tt;
      calm = λ i e. absurd (cc);
    }
    ↗ connect refl
    ↗ clear refl
    ▸ (transmit 1 (omega arith) (connect refl), λ i. ground arith)
    ▸ (transmit 1 (omega arith) (clear refl), λ i. ground arith)
    ▸ (ingest (choose 0 refl (omega arith) refl), λ i. ground arith)

-- The first worker is given the whole input, and with the second the ingest thread finds its end.
overtaken : Trace two_workers chosen.last
unfolding chosen announce come_online dispatch_leg ingest_round bufferfill ℕ_discrete
overtaken =
    record {
      single = omega arith;
      count = 0;
      last = chosen.last;
      steps = here;
      calm_run = tt;
      calm = chosen.calm;
    }
    ▸ (ingest (load refl refl), λ i. ground arith)
    ▸ (ingest (choose 1 refl (omega arith) refl), λ i. ground arith)
    ▸ (ingest (shut refl refl), λ i. ground arith)

poll_race_example :
    (at : ℕ → Session pipe two_workers) × IsWatch pipe two_workers at
    × (at 0 ≡ chosen.last)
    × (at 2 ≡ overtaken.last)
    × (tx_poll (states pipe two_workers at) (eofs pipe two_workers at) 2 1 0 ≡ done (true, 2))
    × (overtaken.last.rxconf.done_mbox ≡ false)
unfolding chosen overtaken is_busy
poll_race_example =
    poll_race pipe two_workers 1 chosen.steps overtaken.steps chosen.calm_run overtaken.calm_run
      (omega arith) (omega arith)
      (λ j lt. only (λ j. is_busy (chosen.last.tx j).state ≡ false) 0 refl j (omega arith) lt)
      (only (λ j. is_busy (overtaken.last.tx j).state ≡ false) 1 refl) refl (inr (0, λ e. cc))

-- The worker is online, and the ingest thread looks for one.
online : Trace one_worker start
unfolding announce come_online ℕ_discrete
online =
    record {
      single = omega arith;
      count = 0;
      last = start;
      steps = here;
      calm_run = tt;
      calm = λ i e. absurd (cc);
    }
    ↗ connect refl
    ↗ clear refl

dispatch_idle_worker-choose_example :
    (r : Dispatched) × (dispatch_idle_worker
        (states pipe one_worker (λ k. online.last))
        near
        5
        []
        0
        1
        1
        0
        0
      ≡ done r)
    × IsFound (states pipe one_worker (λ k. online.last)) 1 0 r
    × IngestMove pipe one_worker online.last.txconf online.last.tx
        (record online.last.txconf { pc = filling r.worker })
        online.last.tx
unfolding online
dispatch_idle_worker-choose_example =
    dispatch_idle_worker-choose pipe one_worker (λ k. online.last) (λ k. none_yet) near 5 [] 0 1 0 0
      0 (omega arith) online.steps refl (omega arith) (omega arith) refl (omega arith)
