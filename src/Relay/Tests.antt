-- ===== src/Relay/Tests.antt =====
-- A process that terminates a connection.
use viamillipede.Prelude.{ℕ, ◌+◌, ◌≤◌, ◌<◌, ◌≡◌, ◌⊎◌, true, false, [], leb}
use viamillipede.Rx.Worker.{Rxconf}
use viamillipede.Prelude.Run.{exit, spent}
use viamillipede.Prelude.Int.{pos}
use viamillipede.Relay.Polls.{poll_loop, IsOver, IsWaiting, poll_loop-IsOver}
use viamillipede.Relay.{Ioconf, Descriptors}

abbrev terminating : Ioconf
terminating = record { terminate_port = 5656; initiate_port = 0 }

abbrev untouched : Descriptors
untouched = record { input_fd = pos 0; output_fd = pos 0; ginitiator_oneshot = 0 }

-- A receiver that is done in the third round.
abbrev rounds : ℕ → Rxconf
rounds k = record { next_leg = 0; done_mbox = leb 2 k; grx_saved_checksum = 0xff; output = [] }

poll_loop-IsOver_example :
    ((poll_loop 5 false true (λ _. false) rounds 0 ≡ exit 0)
      × (k : ℕ) × (0 ≤ k)
      × (k < 0 + 5)
      × IsOver false true (λ _. false) rounds k
      × ((j : ℕ) → 0 ≤ j → j < k → IsWaiting false true (λ _. false) rounds j))
    ⊎ ((poll_loop 5 false true (λ _. false) rounds 0 ≡ spent)
        × ((j : ℕ) → 0 ≤ j → j < 0 + 5 → IsWaiting false true (λ _. false) rounds j))
poll_loop-IsOver_example = poll_loop-IsOver false true (λ _. false) rounds 5 0
