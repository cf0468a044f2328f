-- ===== src/Tx/Launch/Group.antt =====
-- The group of workers behind `init_workers` and `txlaunchworkers`.
use viamillipede.Prelude.{
  ℕ, zero, suc, ◌+◌, ◌<◌, ◌≤◌, ◌≡◌, refl, Bool, true, List, ltb, ◌==◌, ==_iff, if◌then◌else◌,
  update, arith, ℕ_discrete,
}
use viamillipede.Prelude.Run.{done}
use viamillipede.Wire.{kthreadmax}
use viamillipede.Tx.Worker.{uninitialized, launched}
use viamillipede.Prelude.Int.{ℤ}
use viamillipede.Net.Calls.{Calls}
use viamillipede.Tx.Status.{status_run-quiet}
use viamillipede.Tx.Launch.{
  Slot, reset, init_loop, init_workers, prepare, launch, launch_loop, txlaunchworkers,
}

init_loop-at :
    (n : ℕ) (workers : ℕ → Slot) (i : ℕ)
    → init_loop n workers i ≡ (if ltb i n then reset i (workers i) else workers i)
unfolding init_loop
init_loop-at zero workers i = ground arith
init_loop-at (suc n) workers i =
    ground (arith, init_loop-at n (update workers n (reset n (workers n))) i)

-- A worker whose thread has started.
abbrev started : ℕ → Slot → Slot
started i w = record (prepare i w) { allocated = true; running = true }

module _ (calloc : ℕ → Bool) (pthread_create : ℕ → ℕ) where
  launch-done :
      (i : ℕ) (workers : ℕ → Slot)
      → i < kthreadmax
      → calloc i ≡ true
      → pthread_create i ≡ 0
      → launch calloc pthread_create i workers ≡ done (update workers i (started i (workers i)))
  unfolding launch
  launch-done i workers lt got created =
      let below : ltb i kthreadmax ≡ true = ground arith in
      let zero_code : (pthread_create i == 0) ≡ true = (==_iff (pthread_create i) 0).1 created in
      rw (below, got, zero_code) refl

  launch_loop-at :
      (left cursor : ℕ) (workers : ℕ → Slot)
      → cursor + left ≤ kthreadmax
      → ((i : ℕ) → i < cursor + left → calloc i ≡ true)
      → ((i : ℕ) → i < cursor + left → pthread_create i ≡ 0)
      → (out : ℕ → Slot) × (launch_loop calloc pthread_create left cursor workers ≡ done out)
        × ((i : ℕ) → cursor ≤ i → i < cursor + left → out i ≡ started i (workers i))
        × ((i : ℕ) → cursor + left ≤ i → out i ≡ workers i)
        × ((i : ℕ) → i < cursor → out i ≡ workers i)
  unfolding launch_loop
  launch_loop-at zero cursor workers few got created =
      (workers, refl, (λ i lo hi. absurd (omega arith)), (λ i hi. refl), (λ i lo. refl))
  launch_loop-at (suc left) cursor workers few got created =
      let next : ℕ → Slot = update workers cursor (started cursor (workers cursor)) in
      let (out, run, inside, above, below) =
        launch_loop-at left (cursor + 1) next (omega arith) (λ i lt. got i (omega arith))
          (λ i lt. created i (omega arith)) in
      (
        out,
        rw
            (launch-done cursor workers (omega arith) (got cursor (omega arith))
              (created cursor (omega arith)))
            run,
        λ i lo hi. elim (ℕ_discrete cursor i) [
          | yes e ↦ ground (arith, below i, e)
          | no e ↦ ground (arith, inside i, e)
        ],
        λ i hi. ground (arith, above i),
        λ i lo. ground (arith, below i),
      )

  -- With a verbosity of at most 5, when every worker of the count gets its buffer and its thread, and
  -- there are at most `kthreadmax` of them, the launch returns. What the launching thread leaves is: each
  -- worker of the count has its own index, the state 'L', its buffer and its thread, and each other one
  -- has its own index, the state 'E', and what it had before of a buffer and a thread.
  pub txlaunchworkers-init_workers :
      (sys : Calls) (gverbose : ℕ) (sfds : List ℤ) (h : sys.Host) (worker_count : ℕ)
      (workers : ℕ → Slot)
      → gverbose ≤ 5
      → worker_count ≤ kthreadmax
      → ((i : ℕ) → i < worker_count → calloc i ≡ true)
      → ((i : ℕ) → i < worker_count → pthread_create i ≡ 0)
      → (out : ℕ → Slot) × (txlaunchworkers calloc pthread_create sys gverbose sfds h worker_count
            (init_workers workers)
          ≡ done out)
        × ((i : ℕ)
            → i < worker_count
            → ((out i).id ≡ i)
              × ((out i).state ≡ launched)
              × ((out i).allocated ≡ true)
              × ((out i).running ≡ true))
        × ((i : ℕ)
            → worker_count ≤ i
            → i < kthreadmax
            → ((out i).id ≡ i)
              × ((out i).state ≡ uninitialized)
              × ((out i).allocated ≡ (workers i).allocated)
              × ((out i).running ≡ (workers i).running))
  unfolding txlaunchworkers init_workers prepare reset
  txlaunchworkers-init_workers sys gverbose sfds h worker_count workers low few got created =
      let (out, run, inside, above, below) =
        launch_loop-at worker_count 0 (init_workers workers) (omega arith)
          (λ i lt. got i (omega arith)) (λ i lt. created i (omega arith)) in
      (
        out,
        rw (run, status_run-quiet sys gverbose 5 sfds h low) refl,
        λ i lt. ground (arith, inside i),
        λ i lo hi. ground (arith, above i, init_loop-at kthreadmax workers i),
      )
