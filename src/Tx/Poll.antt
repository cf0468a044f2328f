-- ===== src/Tx/Poll.antt =====
-- `tx_poll` (tx.c), with which the transmitter decides that it is done. It reads the workers one after
-- the other, each under its own lock, and the other threads go on in between: the reads are numbered,
-- and `at k i` is the state of worker `i` at the read `k`. The sleep is left out.
use viamillipede.Prelude.{
  ℕ, zero, suc, ◌+◌, ◌<◌, ◌≤◌, ◌≡◌, inl, inr, refl, sym, ap, ◌∙◌, Bool, true, false, Bool-cases,
  if◌then◌else◌, arith, dec_lt,
}
use mathlib.Core.Bool.{false≢true}
use viamillipede.Prelude.Run.{Run, done, spent, done_injective}
use viamillipede.Tx.Worker.{TxState, idle, faulted}

-- `(instate != 'i') && (instate != 'f')`
unfoldable pub is_busy : TxState → Bool
is_busy idle = false
is_busy faulted = false
is_busy _ = true

module _ (at : ℕ → ℕ → TxState) (input_eof : ℕ → Bool) where
  -- The inner loop, from worker `i` on with `n` workers left, its first read being the read `k`:
  -- `busy_workers == 0` behind it, and the number of the next read. It stops at the first busy worker.
  unfoldable pub poll_pass : ℕ → ℕ → ℕ → Bool × ℕ
  unfolding is_busy
  poll_pass zero i k = (true, k)
  poll_pass (suc n) i k =
      let later = poll_pass n (i + 1) (k + 1) in if is_busy (at k i) then (false, k + 1) else later

  -- A pass that finds a busy worker is repeated. What is returned, from the read `k` on, and the number
  -- of the read of `input_eof`.
  unfoldable pub tx_poll : ℕ → ℕ → ℕ → Run (Bool × ℕ)
  unfolding poll_pass
  tx_poll worker_count zero k = spent
  tx_poll worker_count (suc fuel) k =
      let r = poll_pass worker_count 0 k in
      let again = tx_poll worker_count fuel r.1 in if r.0 then done (input_eof r.1, r.1) else again

  moved : (k i j a b : ℕ) → a ≡ k + j → b ≡ i + j → is_busy (at (k + j) (i + j)) ≡ is_busy (at a b)
  moved k i j a b e e' = rw (e, e') refl

  pub poll_pass-quiet :
      (n i k : ℕ)
      → ((j : ℕ) → j < n → is_busy (at (k + j) (i + j)) ≡ false)
      → poll_pass n i k ≡ (true, k + n)
  unfolding poll_pass
  poll_pass-quiet zero i k quiet = ap (λ (m : ℕ). (true, m)) (omega arith)
  poll_pass-quiet (suc n) i k quiet =
      let now : is_busy (at k i) ≡ false =
        sym (moved k i 0 k i (omega arith) (omega arith)) ∙ quiet 0 (omega arith) in
      let later = poll_pass-quiet n (i + 1) (k + 1) (λ j lt.
        sym (moved k i (suc j) (k + 1 + j) (i + 1 + j) (omega arith) (omega arith))
        ∙ quiet (suc j) (omega arith)) in
      rw now (later ∙ ap (λ (m : ℕ). (true, m)) (omega arith))

  -- A pass that finds no busy worker has read each of them, one read after the other.
  poll_pass-all :
      (n i k : ℕ)
      → (poll_pass n i k).0 ≡ true
      → ((poll_pass n i k).1 ≡ k + n) × ((j : ℕ) → j < n → is_busy (at (k + j) (i + j)) ≡ false)
  unfolding poll_pass
  poll_pass-all zero i k e = (omega arith, λ j lt. absurd (omega arith))
  poll_pass-all (suc n) i k e = elim (Bool-cases (is_busy (at k i))) [
    | inl busy ↦ absurd (false≢true (rw busy at e))
    | inr quiet ↦
        let (next, rest) = poll_pass-all n (i + 1) (k + 1) (rw quiet at e) in
        (rw quiet (next ∙ omega arith), each quiet rest)
  ]
    where
      each :
          is_busy (at k i) ≡ false
          → ((j : ℕ) → j < n → is_busy (at (k + 1 + j) (i + 1 + j)) ≡ false)
          → (j : ℕ) → j < suc n
          → is_busy (at (k + j) (i + j)) ≡ false
      each quiet rest zero lt = moved k i 0 k i (omega arith) (omega arith) ∙ quiet
      each quiet rest (suc j) lt =
          moved k i (suc j) (k + 1 + j) (i + 1 + j) (omega arith) (omega arith)
          ∙ rest j (omega arith)

  poll_pass-busy :
      (n i k j : ℕ) → j < n → is_busy (at (k + j) (i + j)) ≡ true → (poll_pass n i k).0 ≡ false
  poll_pass-busy n i k j lt busy = elim (Bool-cases (poll_pass n i k).0) [
    | inl none ↦ absurd (false≢true (sym ((poll_pass-all n i k none).1 j lt) ∙ busy))
    | inr found ↦ found
  ]

  poll_pass-later : (n i k : ℕ) → (poll_pass n i k).0 ≡ false → k < (poll_pass n i k).1
  unfolding poll_pass
  poll_pass-later zero i k e = absurd (false≢true (sym e))
  poll_pass-later (suc n) i k e = elim (Bool-cases (is_busy (at k i))) [
    | inl busy ↦ rw busy (omega arith)
    | inr quiet ↦ rw quiet (omega (arith, poll_pass-later n (i + 1) (k + 1) (rw quiet at e)))
  ]

  -- `tx_poll` returns `input_eof`, read behind a pass that read every worker once, one after the other,
  -- and found none of them busy.
  pub tx_poll-all :
      (worker_count fuel k : ℕ) {b : Bool} {m : ℕ}
      → tx_poll worker_count fuel k ≡ done (b, m)
      → (k' : ℕ) × (k ≤ k')
        × (m ≡ k' + worker_count)
        × (b ≡ input_eof m)
        × ((j : ℕ) → j < worker_count → is_busy (at (k' + j) j) ≡ false)
  unfolding tx_poll
  tx_poll-all worker_count zero k e = absurd (cc)
  tx_poll-all worker_count (suc fuel) k {b} {m} e =
      elim (Bool-cases (poll_pass worker_count 0 k).0) [
        | inl none ↦
            let (next, each) = poll_pass-all worker_count 0 k none in
            let same = done_injective (rw none at e) in
            let moment : (poll_pass worker_count 0 k).1 ≡ m = ap (λ (z : Bool × ℕ). z.1) same in
            (
              k,
              omega arith,
              sym moment ∙ next,
              sym (ap (λ (z : Bool × ℕ). z.0) same) ∙ ap input_eof moment,
              λ j lt. sym (moved k 0 j (k + j) j refl (omega arith)) ∙ each j lt,
            )
        | inr found ↦
            let (k', le, end, eof, each) =
              tx_poll-all worker_count fuel (poll_pass worker_count 0 k).1 (rw found at e) in
            (k', omega (arith, le, poll_pass-later worker_count 0 k found), end, eof, each)
      ]

  -- If no worker is busy from the read `quiet_from` on, then `tx_poll` returns: a pass that finds a busy
  -- worker makes a read at least, so `quiet_from - k + 1` passes are enough.
  pub tx_poll_returns :
      (worker_count quiet_from fuel k : ℕ)
      → 0 < fuel
      → quiet_from < k + fuel
      → ((k' j : ℕ) → quiet_from ≤ k' → j < worker_count → is_busy (at k' j) ≡ false)
      → (m : ℕ) × (tx_poll worker_count fuel k ≡ done (input_eof m, m))
  unfolding tx_poll
  tx_poll_returns worker_count quiet_from zero k some enough quiet = absurd (omega arith)
  tx_poll_returns worker_count quiet_from (suc fuel) k some enough quiet =
      elim (Bool-cases (poll_pass worker_count 0 k).0) [
        | inl none ↦ ((poll_pass worker_count 0 k).1, rw none refl)
        | inr found ↦
            let later = poll_pass-later worker_count 0 k found in
            let early : k < quiet_from = elim (dec_lt k quiet_from) [
              | yes lt ↦ lt
              | no ge ↦ absurd (
                  false≢true (
                    sym found
                    ∙ ap (λ (z : Bool × ℕ). z.0)
                        (poll_pass-quiet worker_count 0 k (λ j lt.
                          moved k 0 j (k + j) j refl (omega arith)
                          ∙ quiet (k + j) j (omega arith) lt))))
            ] in
            let (m, e) =
              tx_poll_returns worker_count quiet_from fuel (poll_pass worker_count 0 k).1
                (omega arith) (omega arith) quiet in
            (m, rw found e)
      ]

  -- While a worker is busy for good, `tx_poll` does not return.
  pub tx_poll_stuck :
      (worker_count i : ℕ)
      → i < worker_count
      → (fuel k : ℕ) → ((k' : ℕ) → is_busy (at k' i) ≡ true)
      → tx_poll worker_count fuel k ≡ spent
  unfolding tx_poll
  tx_poll_stuck worker_count i lt zero k busy = refl
  tx_poll_stuck worker_count i lt (suc fuel) k busy =
      rw
        (poll_pass-busy worker_count 0 k i lt
          (moved k 0 i (k + i) i refl (omega arith) ∙ busy (k + i)))
        (tx_poll_stuck worker_count i lt fuel (poll_pass worker_count 0 k).1 busy)
