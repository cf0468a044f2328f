-- ===== src/Tx/Launch.antt =====
-- `init_workers` and `txlaunchworkers` (tx.c): the workers of the transmitter are set up and their
-- threads started. Whether calloc(3) gives the buffer of a worker, and what pthread_create(3) returns,
-- are parameters. `errno` is taken to be clear, and the sleeps are left out. The values are those that
-- the launching thread writes: a thread that it has started changes its own worker from then on.
pub mod Group
use viamillipede.Prelude.{
  ℕ, zero, suc, ◌+◌, ◌-◌, ◌^◌, Bool, true, List, ltb, ◌==◌, if◌then◌else◌, update,
}
use viamillipede.Prelude.Int.{ℤ, pos, negsuc}
use viamillipede.Net.Calls.{Calls}
use viamillipede.Tx.Status.{status_run}
use viamillipede.Prelude.Run.{Run, done, abort, fault, ◌>>=◌}
use viamillipede.Wire.{kthreadmax}
use viamillipede.Tx.Worker.{TxState, uninitialized, unset, launched}

-- What the two set of a `struct txworker_s`. `allocated` and `running` say that the worker has its
-- buffer and its thread.
pub record Slot : Type 0 where
  pub id : ℕ
  pub state : TxState
  pub sockfd : ℤ
  pub size : ℕ
  pub leg_id : ℕ
  pub allocated : Bool
  pub running : Bool

unfoldable pub reset : ℕ → Slot → Slot
reset wcursor w = record w {
  id = wcursor;
  state = uninitialized;
  sockfd = pos 0;
  size = 0;
  leg_id = 0;
}

-- `while (wcursor--)`
unfoldable pub init_loop : ℕ → (ℕ → Slot) → ℕ → Slot
init_loop zero workers = workers
init_loop (suc wcursor) workers =
    init_loop wcursor (update workers wcursor (reset wcursor (workers wcursor)))

unfoldable pub init_workers : (ℕ → Slot) → ℕ → Slot
init_workers workers = init_loop kthreadmax workers

-- The worker up to `calloc`: -66 in its size and its socket.
unfoldable pub prepare : ℕ → Slot → Slot
prepare worker_cursor w = record w {
  id = worker_cursor;
  state = launched;
  sockfd = negsuc 65;
  size = 2 ^ 64 - 66;
  leg_id = 0;
}

module _ (calloc : ℕ → Bool) (pthread_create : ℕ → ℕ) where
  -- The body of the loop; `workers` has `kthreadmax` entries.
  unfoldable pub launch : ℕ → (ℕ → Slot) → Run (ℕ → Slot)
  launch worker_cursor workers =
      let w = prepare worker_cursor (workers worker_cursor) in
      if ltb worker_cursor kthreadmax
      then (if calloc worker_cursor
          then (if pthread_create worker_cursor == 0
              then done
                  (update workers worker_cursor (record w { allocated = true; running = true }))
              else abort)
          else abort)
      else fault

  -- `while (worker_cursor < txconf->worker_count)`, over the rounds that are left.
  unfoldable pub launch_loop : ℕ → ℕ → (ℕ → Slot) → Run (ℕ → Slot)
  launch_loop zero worker_cursor workers = done workers
  launch_loop (suc left) worker_cursor workers =
      launch worker_cursor workers >>= launch_loop left (worker_cursor + 1)

  -- `sfds` are the sockets of all workers, and `h` the host, when `txstatus` reads them.
  unfoldable pub txlaunchworkers :
      (sys : Calls) → ℕ → List ℤ → sys.Host → ℕ → (ℕ → Slot) → Run (ℕ → Slot)
  txlaunchworkers sys gverbose sfds h worker_count workers =
      launch_loop worker_count 0 workers >>= λ out.
      status_run sys gverbose 5 sfds h >>= λ _. done out
