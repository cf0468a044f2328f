-- ===== src/Relay/Polls.antt =====
-- The loop at the end of `main` (viamillipede.c), with `rx_poll` (rx.c). What `tx_poll` returns in a
-- round, and what the receiver shares in it, are given for each round. The sleep is left out.
use viamillipede.Prelude.{
  ℕ, zero, suc, ◌+◌, ◌≤◌, ◌<◌, ◌≡◌, ◌⊎◌, inl, inr, refl, subst, Bool, true, false, Bool-cases, ◌&&◌,
  if◌then◌else◌, arith, ℕ_discrete,
}
use viamillipede.Prelude.Run.{Run, exit, spent}
use viamillipede.Rx.Worker.{Rxconf}

unfoldable pub rx_poll : Rxconf → Bool
rx_poll rxconf = rxconf.done_mbox

-- `txpoll_done + rxpoll_done == done_conditions` behind a round.
unfoldable pub poll_round : Bool → Bool → Bool → Rxconf → Bool
poll_round mode_tx mode_rx txpoll rxconf =
    (if mode_tx then txpoll else true) && (if mode_rx then rx_poll rxconf else true)

-- From round `n` on.
unfoldable pub poll_loop : ℕ → Bool → Bool → (ℕ → Bool) → (ℕ → Rxconf) → ℕ → Run (Unit {0})
poll_loop zero mode_tx mode_rx txpolls rxconfs n = spent
poll_loop (suc fuel) mode_tx mode_rx txpolls rxconfs n =
    let later = poll_loop fuel mode_tx mode_rx txpolls rxconfs (n + 1) in
    if poll_round mode_tx mode_rx (txpolls n) (rxconfs n) then exit 0 else later

module _ (mode_tx mode_rx : Bool) (txpolls : ℕ → Bool) (rxconfs : ℕ → Rxconf) where
  -- Each side that the mode has is done in round `k`.
  abbrev pub IsOver : ℕ → Type 0
  IsOver k = (mode_tx ≡ true → txpolls k ≡ true) × (mode_rx ≡ true → (rxconfs k).done_mbox ≡ true)

  -- A side that the mode has is not done in round `k`.
  abbrev pub IsWaiting : ℕ → Type 0
  IsWaiting k =
      ((mode_tx ≡ true) × (txpolls k ≡ false))
      ⊎ ((mode_rx ≡ true) × ((rxconfs k).done_mbox ≡ false))

  poll_round-IsOver : (k : ℕ) → poll_round mode_tx mode_rx (txpolls k) (rxconfs k) ≡ true → IsOver k
  unfolding poll_round rx_poll
  poll_round-IsOver k e = ground arith

  poll_round-IsWaiting :
      (k : ℕ) → poll_round mode_tx mode_rx (txpolls k) (rxconfs k) ≡ false → IsWaiting k
  unfolding poll_round rx_poll
  poll_round-IsWaiting k e = ground arith

  -- Within any number of rounds, `main` either exits with the status 0, in the first round in which each
  -- side that the mode has is done, `tx_poll` with 1 and `rx_poll` with `done_mbox`, or still waits, and
  -- in every round a side that the mode has was not done.
  pub poll_loop-IsOver :
      (fuel n : ℕ)
      → ((poll_loop fuel mode_tx mode_rx txpolls rxconfs n ≡ exit 0)
          × (k : ℕ) × (n ≤ k)
          × (k < n + fuel)
          × IsOver k
          × ((j : ℕ) → n ≤ j → j < k → IsWaiting j))
        ⊎ ((poll_loop fuel mode_tx mode_rx txpolls rxconfs n ≡ spent)
            × ((j : ℕ) → n ≤ j → j < n + fuel → IsWaiting j))
  unfolding poll_loop
  poll_loop-IsOver zero n = inr (refl, λ j lo hi. absurd (omega arith))
  poll_loop-IsOver (suc fuel) n =
      elim (Bool-cases (poll_round mode_tx mode_rx (txpolls n) (rxconfs n))) [
        | inl over ↦ inl (
          rw over refl,
          n,
          omega arith,
          omega arith,
          poll_round-IsOver n over,
          λ j lo hi. absurd (omega arith),
        )
        | inr on ↦ elim (poll_loop-IsOver fuel (n + 1)) [
          | inl (exits, k, lo, hi, over, waits) ↦ inl (
            rw on exits,
            k,
            omega arith,
            omega arith,
            over,
            λ j lo' hi'. first_or_later n j k lo' hi' (poll_round-IsWaiting n on) waits,
          )
          | inr (waiting, waits) ↦ inr (
            rw on waiting,
            λ j lo' hi'.
                first_or_later n j (n + suc fuel) lo' hi' (poll_round-IsWaiting n on)
                  (λ j' lo hi. waits j' lo (omega arith)),
          )
        ]
      ]
    where
      first_or_later :
          (m j k : ℕ)
          → m ≤ j
          → j < k
          → IsWaiting m
          → ((j' : ℕ) → m + 1 ≤ j' → j' < k → IsWaiting j')
          → IsWaiting j
      first_or_later m j k lo hi now rest = elim (ℕ_discrete m j) [
        | yes e ↦ subst IsWaiting e now
        | no e ↦ rest j (omega arith) hi
      ]
