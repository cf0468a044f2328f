-- ===== src/Session/Tests/Endings.antt =====
-- The races at the start and the end of a session, at the states of the traces.
use viamillipede.Prelude.{
  ℕ, ◌+◌, ◌^◌, ◌<◌, ◌≤◌, take, ◌≡◌, overwrite, refl, false, [], arith, ℕ_discrete,
}
use viamillipede.Wire.{kfootsize}
use viamillipede.Plumbing.Pipe.{pipe}
use viamillipede.Plumbing.Bufferfill.{bufferfill}
use viamillipede.Tx.Worker.{connect, announce}
use viamillipede.Tx.Ingest.{ingest_round, choose}
use viamillipede.Session.Startup.{IsWiped, startup_race}
use viamillipede.Session.Lost.{IsLost}
use viamillipede.Session.Race.{shutdown_race}
use viamillipede.Session.{Session, ingest, Steps, here}
use viamillipede.Session.Tests.{one_worker, blank, hi, start, Trace, ◌▸◌, ◌↗◌, at_end}
use viamillipede.Session.Watch.{IsWatch, states, eofs}
use viamillipede.Prelude.Run.{Run}
use viamillipede.Tx.Poll.{tx_poll}

shutdown_race_example :
    (t : Session pipe one_worker) × Steps pipe one_worker at_end.last 3 t
    × IsLost pipe one_worker 0 t
    × ((m : ℕ) (u : Session pipe one_worker)
        → Steps pipe one_worker t m u
        → at_end.count + 3 + m < 2 ^ 64
        → u.rxconf.done_mbox ≡ false)
    × ((at : ℕ → Session pipe one_worker) (m fuel k : ℕ)
        → Steps pipe one_worker t m (at 0)
        → IsWatch pipe one_worker at
        → tx_poll (states pipe one_worker at) (eofs pipe one_worker at) 1 fuel k ≡ Run.spent)
unfolding at_end
shutdown_race_example =
    shutdown_race pipe one_worker (λ i. blank) (λ i. []) (λ i. []) hi 0 at_end.steps at_end.calm_run
      at_end.calm (omega arith) refl refl (omega arith)

-- The worker is chosen between the two halves of its way online.
early : Trace one_worker start
unfolding announce ℕ_discrete
early =
    record {
      single = omega arith;
      count = 0;
      last = start;
      steps = here;
      calm_run = tt;
      calm = λ i e. absurd (cc);
    }
    ↗ connect refl
    ▸ (ingest (choose 0 refl (omega arith) refl), λ i. ground arith)

startup_race_example :
    (t : Session pipe one_worker) × Steps pipe one_worker early.last 2 t
    × (0 < 2)
    × (2 ≤ kfootsize)
    × IsWiped pipe one_worker 0 (take 2 hi) early.last t
unfolding early ingest_round bufferfill ℕ_discrete overwrite
startup_race_example = startup_race pipe one_worker 0 2 255 0 hi [] (omega arith) refl refl refl
