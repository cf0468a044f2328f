-- ===== src/Plumbing/Stopwatch/Clock.antt =====
-- The clock of `stopwatch_start` and `stopwatch_stop` (plumbing.c). `clock k` is what the call `k` of
-- clock_gettime(2) does; `eintr` is the number of <errno.h>.
use viamillipede.Prelude.{
  ℕ, zero, suc, ◌+◌, ◌-◌, ◌/◌, ◌^◌, ◌<◌, ◌≤◌, ◌≡◌, ◌⊎◌, inl, inr, refl, ap, ◌∙◌, ◌==◌, leb,
  if◌then◌else◌, arith,
}
use viamillipede.Prelude.Run.{Run, done, abort, spent, ◌>>=◌}
use viamillipede.Plumbing.Stopwatch.{
  Timespec, stopwatch_stop, IsTimespec, nanos, stopwatch_stop-elapsed,
}

-- It stores a reading and returns 0, or returns -1 and sets `errno`.
pub data Tick : Type 0 where
  reading : Timespec → Tick
  missed : ℕ → Tick

-- `assert` on the value returned
unfoldable pub check_start : Tick → Run Timespec
check_start (reading t) = done t
check_start (missed errno) = abort

-- The end of a round, with the rounds that follow and `errno` before it.
unfoldable pub again_if : (ℕ → Run (Timespec × ℕ)) → ℕ → Tick → Run (Timespec × ℕ)
again_if again errno (reading stoptime) = done (stoptime, errno)
again_if again errno (missed e) = again e

module _ (clock : ℕ → Tick) where
  -- `assert(clock_gettime(CLOCK_UPTIME, t) == 0)`
  unfoldable pub stopwatch_start : ℕ → Run Timespec
  unfolding check_start
  stopwatch_start k = check_start (clock k)

  -- `while (retc != 0)`, from the call `k` on: the reading, and `errno` behind it.
  unfoldable pub stop_loop : ℕ → ℕ → ℕ → Run (Timespec × ℕ)
  unfolding again_if
  stop_loop zero k errno = spent
  stop_loop (suc fuel) k errno = again_if (stop_loop fuel (k + 1)) errno (clock k)

module _ (clock : ℕ → Tick) (eintr : ℕ) where
  -- The microseconds since `t`, and `errno` behind the call.
  unfoldable pub stop_watch : ℕ → ℕ → ℕ → Timespec → Run (ℕ × ℕ)
  unfolding stop_loop
  stop_watch fuel k errno t = stop_loop clock fuel k errno >>= λ r.
      done (stopwatch_stop t r.0, if r.1 == eintr then 0 else r.1)

  -- `m` interrupted calls, and then a reading.
  stop_loop-reading :
      (m fuel k errno : ℕ) (stoptime : Timespec)
      → m < fuel
      → ((j : ℕ) → j < m → clock (k + j) ≡ missed eintr)
      → clock (k + m) ≡ reading stoptime
      → (errno ≡ 0) ⊎ (errno ≡ eintr)
      → (e : ℕ) × ((e ≡ 0) ⊎ (e ≡ eintr)) × (stop_loop clock fuel k errno ≡ done (stoptime, e))
  unfolding stop_loop
  stop_loop-reading m zero k errno stoptime enough broken last clean = absurd (omega arith)
  stop_loop-reading zero (suc fuel) k errno stoptime enough broken last clean =
      (errno, clean, rw (ap clock (at_zero k) ∙ last) refl)
    where
      at_zero : (k : ℕ) → k ≡ k + 0
      at_zero k = omega arith
  stop_loop-reading (suc m) (suc fuel) k errno stoptime enough broken last clean =
      let first : clock k ≡ missed eintr = ap clock (at_zero k) ∙ broken 0 (omega arith) in
      let (e, kind, run) =
        stop_loop-reading m fuel (k + 1) eintr stoptime (omega arith)
          (λ j lt. ap clock (at_suc k j) ∙ broken (suc j) (omega arith))
          (ap clock (at_suc k m) ∙ last) (inr refl) in
      (e, kind, rw first run)
    where
      at_zero : (k : ℕ) → k ≡ k + 0
      at_zero k = omega arith

      at_suc : (k j : ℕ) → k + 1 + j ≡ k + suc j
      at_suc k j = omega arith

  -- A stopwatch started with the reading of the call `k`, and stopped behind `m` interrupted calls: it
  -- returns with `errno` clear. For readings with less than a billion nanoseconds each, the second not
  -- before the first and below 2 ^ 40 seconds, the time between them comes out right, in whole
  -- microseconds, where the nanoseconds of the second are below those of the first; otherwise it comes
  -- out one second too long.
  pub stop_watch_elapsed :
      (k n m fuel : ℕ) (t stoptime : Timespec)
      → clock k ≡ reading t
      → m < fuel
      → ((j : ℕ) → j < m → clock (n + j) ≡ missed eintr)
      → clock (n + m) ≡ reading stoptime
      → IsTimespec t
      → IsTimespec stoptime
      → nanos t ≤ nanos stoptime
      → stoptime.tv_sec < 2 ^ 40
      → (stopwatch_start clock k >>= stop_watch fuel n 0)
        ≡ done (
          (nanos stoptime - nanos t) / 1000
              + (if leb t.tv_nsec stoptime.tv_nsec then 1_000_000 else 0),
          0,
        )
  unfolding stopwatch_start stop_watch
  stop_watch_elapsed k n m fuel t stoptime first enough broken last ok ok' later fit =
      let (e, kind, run) = stop_loop-reading m fuel n 0 stoptime enough broken last (inl refl) in
      let cleared : (if e == eintr then 0 else e) ≡ 0 = elim kind [
        | inl none ↦ ground arith
        | inr same ↦ ground arith
      ] in
      rw (first, run, cleared)
        (ap (λ (d : ℕ). done (d, 0)) (stopwatch_stop-elapsed t stoptime ok ok' later fit))
