-- ===== src/Tx/Dispatch.antt =====
-- `dispatch_idle_worker` (tx.c): the scan with which the ingest thread finds an idle worker. It reads
-- the workers one after the other, each under its own lock, and the other threads go on in between: the
-- reads are numbered, and `at k i` is the state of worker `i` at the read `k`. The sleep between two
-- scans, and `sleep_thief`, which is its length, are left out.
use viamillipede.Prelude.{
  ℕ, zero, suc, ◌+◌, ◌≤◌, ◌<◌, ◌≡◌, ◌⊎◌, inl, inr, refl, sym, ap, ap₂, ◌∙◌, Bool, true, false,
  Bool-cases, Option, none, some, List, ltb, if◌then◌else◌, u64, arith, dec_lt,
}
use viamillipede.Prelude.Run.{Run, done, abort, spent, ◌>>◌}
use mathlib.Core.Bool.{false≢true}
use viamillipede.Wire.{kthreadmax}
use viamillipede.Tx.Worker.{TxState, idle}
use viamillipede.Prelude.Int.{ℤ}
use viamillipede.Net.Calls.{Calls}
use viamillipede.Tx.Status.{status_run, status_run-quiet}

-- `== 'i'`
unfoldable pub is_idle : TxState → Bool
is_idle idle = true
is_idle _ = false

pub is_idle-idle : (q : TxState) → is_idle q ≡ true → q ≡ idle
unfolding is_idle
is_idle-idle q e = ground arith

-- The worker, `txconf->waits` and the number of the next read.
pub record Dispatched : Type 0 where
  pub worker : ℕ
  pub waits : ℕ
  pub later : ℕ

-- Behind a scan: the assertion on the worker that it found, or the next round.
unfoldable pub take_scanned : Run Dispatched → ℕ → Option ℕ × ℕ → Run Dispatched
take_scanned again waits (none, k) = again
take_scanned again waits (some retcode, k) =
    if ltb retcode kthreadmax
    then done (record { worker = retcode; waits = waits; later = k })
    else abort

lt→ltb : (a b : ℕ) → a < b → ltb a b ≡ true
lt→ltb a b h = ground arith

module _ (at : ℕ → ℕ → TxState) where
  -- The inner loop, from worker `i` on with `n` workers left, its first read being the read `k`: the
  -- worker found, and the number of the next read. It stops at the first idle worker.
  unfoldable pub scan : ℕ → ℕ → ℕ → Option ℕ × ℕ
  unfolding is_idle
  scan zero i k = (none, k)
  scan (suc n) i k =
      let later = scan n (i + 1) (k + 1) in if is_idle (at k i) then (some i, k + 1) else later

  -- `while (retcode < 0)`
  unfoldable pub await_idle : ℕ → ℕ → ℕ → ℕ → Run Dispatched
  unfolding scan take_scanned
  await_idle worker_count zero waits k = spent
  await_idle worker_count (suc fuel) waits k =
      let r = scan worker_count 0 k in
      take_scanned (await_idle worker_count fuel (u64 (waits + 1)) r.1) waits r

  -- `sfds` are the sockets of all workers, and `h` the host, when `txstatus` reads them.
  unfoldable pub dispatch_idle_worker :
      (sys : Calls) → ℕ → List ℤ → sys.Host → ℕ → ℕ → ℕ → ℕ → Run Dispatched
  unfolding await_idle
  dispatch_idle_worker sys gverbose sfds h worker_count fuel waits k =
      status_run sys gverbose 5 sfds h >> await_idle worker_count fuel waits k

  moved : (k i j a b : ℕ) → a ≡ k + j → b ≡ i + j → is_idle (at (k + j) (i + j)) ≡ is_idle (at a b)
  moved k i j a b e e' = rw (e, e') refl

  -- A scan finds the first worker that is idle when it is read, or none of them is.
  pub scan_lem :
      (n i k : ℕ)
      → ((d : ℕ) × (d < n)
          × (scan n i k ≡ (some (i + d), k + d + 1))
          × (is_idle (at (k + d) (i + d)) ≡ true)
          × ((j : ℕ) → j < d → is_idle (at (k + j) (i + j)) ≡ false))
        ⊎ ((scan n i k ≡ (none, k + n)) × ((j : ℕ) → j < n → is_idle (at (k + j) (i + j)) ≡ false))
  unfolding scan
  scan_lem zero i k = inr (ap (λ (m : ℕ). (none, m)) (omega arith), λ j lt. absurd (omega arith))
  scan_lem (suc n) i k = elim (Bool-cases (is_idle (at k i))) [
    | inl now ↦ inl (
      0,
      omega arith,
      rw now (ap₂ (λ (a b : ℕ). (some a, b)) (omega arith) (omega arith)),
      moved k i 0 k i (omega arith) (omega arith) ∙ now,
      λ j lt. absurd (omega arith),
    )
    | inr not_now ↦ elim (scan_lem n (i + 1) (k + 1)) [
      | inl (d, lt, e, free, before) ↦ inl (
        suc d,
        omega arith,
        rw not_now (e ∙ ap₂ (λ (a b : ℕ). (some a, b)) (omega arith) (omega arith)),
        moved k i (suc d) (k + 1 + d) (i + 1 + d) (omega arith) (omega arith) ∙ free,
        each (suc d) not_now (λ j lt'. before j (omega arith)),
      )
      | inr (e, none_free) ↦ inr (
        rw not_now (e ∙ ap (λ (m : ℕ). (none, m)) (omega arith)),
        each (suc n) not_now (λ j lt'. none_free j (omega arith)),
      )
    ]
  ]
    where
      each :
          (m : ℕ)
          → is_idle (at k i) ≡ false
          → ((j : ℕ) → suc j < m → is_idle (at (k + 1 + j) (i + 1 + j)) ≡ false)
          → (j : ℕ) → j < m
          → is_idle (at (k + j) (i + j)) ≡ false
      each m first rest zero lt = moved k i 0 k i (omega arith) (omega arith) ∙ first
      each m first rest (suc j) lt =
          moved k i (suc j) (k + 1 + j) (i + 1 + j) (omega arith) (omega arith) ∙ rest j lt

  -- It returns a worker of the group that was idle when its last scan, from the read
  -- `k'` on, read it, the first such worker of that scan.
  pub record IsFound (worker_count k : ℕ) (r : Dispatched) : Type 0 where
    pub scan_from : ℕ
    pub after : k ≤ scan_from
    pub member : r.worker < worker_count
    pub small : r.worker < kthreadmax
    pub end : r.later ≡ scan_from + r.worker + 1
    pub free : is_idle (at (scan_from + r.worker) r.worker) ≡ true
    pub passed_over : (j : ℕ) → j < r.worker → is_idle (at (scan_from + j) j) ≡ false

  IsFound-now :
      (worker_count k waits d : ℕ)
      → d < worker_count
      → worker_count ≤ kthreadmax
      → is_idle (at (k + d) (0 + d)) ≡ true
      → ((j : ℕ) → j < d → is_idle (at (k + j) (0 + j)) ≡ false)
      → IsFound worker_count k (record { worker = 0 + d; waits = waits; later = k + d + 1 })
  IsFound-now worker_count k waits d lt few free before = record {
    scan_from = k;
    after = omega arith;
    member = omega arith;
    small = omega arith;
    end = omega arith;
    free = sym (moved k 0 d (k + (0 + d)) (0 + d) (omega arith) refl) ∙ free;
    passed_over = λ j lo. sym (moved k 0 j (k + j) j refl (omega arith)) ∙ before j (omega arith);
  }

  -- While no worker is idle it scans again, and each time counts a wait; once worker `i` is idle for
  -- good, from the read `from` on, it returns: a scan of no idle worker makes a read at least.
  pub await_idle_lem :
      (worker_count i from : ℕ)
      → i < worker_count
      → worker_count ≤ kthreadmax
      → ((k' : ℕ) → from ≤ k' → is_idle (at k' i) ≡ true)
      → (fuel waits k : ℕ) → 0 < fuel
      → from < k + fuel
      → (r : Dispatched) × (await_idle worker_count fuel waits k ≡ done r)
        × IsFound worker_count k r
  unfolding await_idle take_scanned
  await_idle_lem worker_count i from lt few free zero waits k some_fuel enough =
      absurd (omega arith)
  await_idle_lem worker_count i from lt few free (suc fuel) waits k some_fuel enough =
      elim (scan_lem worker_count 0 k) [
        | inl (d, in_group, e, idle_then, before) ↦ (
          record { worker = 0 + d; waits = waits; later = k + d + 1 },
          rw (e, lt→ltb (0 + d) kthreadmax (omega arith)) refl,
          IsFound-now worker_count k waits d in_group few idle_then before,
        )
        | inr (e, none_free) ↦
            let early : k + i < from = elim (dec_lt (k + i) from) [
              | yes p ↦ p
              | no ge ↦ absurd (
                  false≢true (
                    sym (none_free i lt)
                    ∙ moved k 0 i (k + i) i refl (omega arith)
                    ∙ free (k + i) (omega arith)))
            ] in
            let (r, returns, f) =
              await_idle_lem worker_count i from lt few free fuel (u64 (waits + 1))
                (k + worker_count) (omega arith) (omega arith) in
            (
              r,
              rw e returns,
              record {
                scan_from = f.scan_from;
                after = omega (arith, f.after);
                member = f.member;
                small = f.small;
                end = f.end;
                free = f.free;
                passed_over = f.passed_over;
              },
            )
      ]

  -- With a verbosity of at most 5.
  pub dispatch_idle_worker_lem :
      (sys : Calls) (gverbose : ℕ) (sfds : List ℤ) (h : sys.Host) (worker_count fuel waits k : ℕ)
      → gverbose ≤ 5
      → dispatch_idle_worker sys gverbose sfds h worker_count fuel waits k
        ≡ await_idle worker_count fuel waits k
  unfolding dispatch_idle_worker
  dispatch_idle_worker_lem sys gverbose sfds h worker_count fuel waits k low =
      ap (λ (r : Run (Unit {0})). r >> await_idle worker_count fuel waits k)
        (status_run-quiet sys gverbose 5 sfds h low)
