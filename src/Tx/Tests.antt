-- ===== src/Tx/Tests.antt =====
-- A round of `txingest` at a concrete input.
mod Pushes
mod Pseudo
use viamillipede.Prelude.{
  ℕ, ◌<◌, ◌≤◌, true, refl, false, [], ◌∷◌, overwrite, ℕ_discrete, List, ◌≡◌, ◌++◌, take, drop,
  arith,
}
use viamillipede.Plumbing.Pipe.{pipe}
use viamillipede.Plumbing.Bufferfill.{bufferfill}
use viamillipede.Tx.Ingest.{Config, feed, ingest_round}
use viamillipede.Wire.{kthreadmax}
use viamillipede.Prelude.Int.{pos, negsuc}
use viamillipede.Net.Tests.{near}
use viamillipede.Tx.Launch.{Slot, init_workers, txlaunchworkers}
use viamillipede.Tx.Launch.Group.{txlaunchworkers-init_workers}
use viamillipede.Tx.Worker.{uninitialized, unset, launched}
use viamillipede.Prelude.Run.{done}
use viamillipede.Tx.Targets.{Target, connect_times}
use viamillipede.Tx.Targets.Rotation.{targets_at, connect_times-rotation}
use viamillipede.Tx.Rounds.{Takes, ingest_round-Takes}

abbrev plain : Config
plain = record { worker_count = 2; gcharmode = false; gchecksums = false; gleg_limit = 0 }

ingest_round-Takes_example : Takes pipe plain (7 ∷ 8 ∷ []) (feed 2 255 0 (7 ∷ 8 ∷ []) [])
unfolding ingest_round bufferfill ℕ_discrete overwrite
ingest_round-Takes_example =
    ingest_round-Takes pipe plain 0 255 [] (7 ∷ 8 ∷ []) (feed 2 255 0 (7 ∷ 8 ∷ []) []) refl

abbrev three_targets : List Target
three_targets =
    record { name = 97 ∷ []; port = 1 }
    ∷ record { name = 98 ∷ []; port = 2 }
    ∷ record { name = 99 ∷ []; port = 3 }
    ∷ []

connect_times-rotation_example :
    connect_times 3 (targets_at three_targets 1)
    ≡ done (drop 1 three_targets ++ take 1 three_targets, targets_at three_targets 1)
connect_times-rotation_example = connect_times-rotation three_targets 1 (omega arith)

abbrev blank_slot : Slot
blank_slot = record {
  id = 0;
  state = unset;
  sockfd = pos 0;
  size = 0;
  leg_id = 0;
  allocated = false;
  running = false;
}

-- Two workers, with everything at hand.
txlaunchworkers-init_workers_example :
    (out : ℕ → Slot) × (txlaunchworkers
        (λ _. true)
        (λ _. 0)
        near
        5
        (negsuc 65 ∷ negsuc 65 ∷ [])
        0
        2
        (init_workers (λ _. blank_slot))
      ≡ done out)
    × ((i : ℕ)
        → i < 2
        → ((out i).id ≡ i)
          × ((out i).state ≡ launched)
          × ((out i).allocated ≡ true)
          × ((out i).running ≡ true))
    × ((i : ℕ)
        → 2 ≤ i
        → i < kthreadmax
        → ((out i).id ≡ i)
          × ((out i).state ≡ uninitialized)
          × ((out i).allocated ≡ false)
          × ((out i).running ≡ false))
txlaunchworkers-init_workers_example =
    txlaunchworkers-init_workers (λ _. true) (λ _. 0) near 5 (negsuc 65 ∷ negsuc 65 ∷ []) 0 2
      (λ _. blank_slot) (omega arith) (omega arith) (λ i lt. refl) (λ i lt. refl)
