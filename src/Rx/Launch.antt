-- ===== src/Rx/Launch.antt =====
-- `rxlaunchworkers` (rx.c): the socket is set up and the workers of the receiver are started. What
-- pthread_create(3) returns is a parameter. What it prints is left out.
use viamillipede.Prelude.{
  ℕ, zero, suc, ◌+◌, ◌≤◌, ◌<◌, ◌≡◌, refl, sym, ap, subst, ◌∙◌, Bool, true, false, ◌==◌, update,
  arith, ℕ_discrete,
}
use viamillipede.Prelude.Int.{ℤ}
use viamillipede.Wire.{kthreadmax}
use viamillipede.Net.Calls.{
  andthen, Calls, World, returned, M, ◌>>=◌, ◌>>◌, skip, assert, checkperror,
}
use viamillipede.Net.Connect.{tcp_recieve_prep}
use viamillipede.Net.Ends.{Ends, Ends-map, Ends->>=, checked, asserted}
use viamillipede.Net.Listening.{IsListening, tcp_recieve_prep-IsListening}

pub record Place : Type 0 where
  pub id : ℕ
  pub running : Bool

-- What it sets of the `struct rxconf_s`.
pub record Group : Type 0 where
  pub next_leg : ℕ
  pub done_mbox : Bool
  pub socknum : ℤ
  pub workers : ℕ → Place

-- A step that returns at once.
stepped :
    {H X A B : Type 0} (Q : B → World H X → Type 0) (m : M H X A) (k : A → M H X B)
    (w w' : World H X) (a : A)
    → m w ≡ returned a w'
    → Ends Q (k a w')
    → Ends Q ((m >>= k) w)
unfolding ◌>>=◌
stepped Q m k w w' a e p = subst (λ r. Ends Q (andthen r k)) (sym e) p

module _ (sys : Calls) (pthread_create : ℕ → ℕ) where
  open sys use {Host}

  unfoldable pub put_start : M Host Group (Unit {0})
  put_start w = returned tt (record w { own = record w.own { next_leg = 0; done_mbox = false } })

  unfoldable pub put_socknum : ℤ → M Host Group (Unit {0})
  put_socknum fd w = returned tt (record w { own = record w.own { socknum = fd } })

  -- The thread runs if `pthread_create` succeeds; the assertion behind it ends the process if not.
  unfoldable pub put_worker : ℕ → M Host Group (Unit {0})
  put_worker worker_cursor w = returned tt (record w {
    own = record w.own {
      workers = update w.own.workers worker_cursor (record { id = worker_cursor; running = true });
    };
  })

  -- The `do` loop, over the rounds that are left.
  unfoldable pub start_loop : ℕ → ℕ → M Host Group (Unit {0})
  start_loop zero worker_cursor = skip
  start_loop (suc left) worker_cursor = do
    put_worker worker_cursor
    checkperror
    assert (pthread_create worker_cursor == 0)
    start_loop left (worker_cursor + 1)

  unfoldable pub rxlaunchworkers : ℕ → M Host Group (Unit {0})
  rxlaunchworkers port = do
    put_start
    socknum ← tcp_recieve_prep sys port
    put_socknum socknum
    start_loop kthreadmax 0

  -- The workers from the cursor on run, those in front of it and the rest of the group stay.
  abbrev IsStarted : ℕ → ℕ → World Host Group → Unit {0} → World Host Group → Type 0
  IsStarted left cursor w _ w' =
      (w'.own.next_leg ≡ w.own.next_leg)
      × (w'.own.done_mbox ≡ w.own.done_mbox)
      × (w'.own.socknum ≡ w.own.socknum)
      × ((i : ℕ) → i < cursor → w'.own.workers i ≡ w.own.workers i)
      × ((i : ℕ)
          → cursor ≤ i
          → i < cursor + left
          → w'.own.workers i ≡ record { id = i; running = true })

  start_loop-IsStarted :
      (left cursor : ℕ) (w : World Host Group)
      → Ends (IsStarted left cursor w) (start_loop left cursor w)
  unfolding start_loop put_worker
  start_loop-IsStarted zero cursor w =
      (refl, refl, refl, (λ i lo. refl), (λ i lo hi. absurd (omega arith)))
  start_loop-IsStarted (suc left) cursor w =
      let Q = IsStarted (suc left) cursor w in
      stepped Q (put_worker cursor) _ w _ tt refl (
        checked Q _ _ λ clean. asserted Q (pthread_create cursor == 0) _ _ λ created.
          Ends-map Q _ (start_loop-IsStarted left (cursor + 1) _)
            λ _ w' (leg, mbox, sock, before, from_here). (
              leg,
              mbox,
              sock,
              λ i lo. ground (arith, before i),
              λ i lo hi. elim (ℕ_discrete cursor i) [
                | yes e ↦ ground (arith, before i, e)
                | no e ↦ from_here i (omega arith) (omega arith)
              ],
            ))

  abbrev pub at_start : World Host Group → World Host Group
  at_start w = record w { own = record w.own { next_leg = 0; done_mbox = false } }

  -- The sequencer is at leg 0, the socket listens on the port, and every worker runs.
  abbrev pub IsGroup : ℕ → World Host Group → Unit {0} → World Host Group → Type 0
  IsGroup port start _ w =
      (w.own.next_leg ≡ 0)
      × (w.own.done_mbox ≡ false)
      × ((heard : World Host Group) × IsListening sys port (at_start start) w.own.socknum heard)
      × ((i : ℕ) → i < kthreadmax → w.own.workers i ≡ record { id = i; running = true })

  -- Where `errno` is clear, the launch either returns, with the sequencer at leg 0, `done_mbox` not set,
  -- a socket above 0 that is bound to the port and listens, and each of the `kthreadmax` workers running under its own index, or it ends the
  -- process by the status 4 or by a failed assertion: its own exit is never reached.
  pub rxlaunchworkers-IsGroup :
      (port : ℕ) (w : World Host Group)
      → w.errno ≡ 0
      → Ends (IsGroup port w) (rxlaunchworkers port w)
  unfolding rxlaunchworkers put_start put_socknum
  rxlaunchworkers-IsGroup port w start = stepped (IsGroup port w) put_start _ w _ tt refl (
      Ends->>= (IsGroup port w) (tcp_recieve_prep sys port) _ _
        (tcp_recieve_prep-IsListening sys port
          (record w { own = record w.own { next_leg = 0; done_mbox = false } }) start)
        λ fd w₁ heard. stepped (IsGroup port w) (put_socknum fd) _ w₁ _ tt refl (
          Ends-map {P = IsStarted kthreadmax 0 (record w₁ { own = record w₁.own { socknum = fd } })}
            (IsGroup port w) _ (start_loop-IsStarted kthreadmax 0 _)
            λ _ w' (leg, mbox, sock, before, all). (
              leg ∙ ap (λ (g : Group). g.next_leg) heard.kept,
              mbox ∙ ap (λ (g : Group). g.done_mbox) heard.kept,
              (w₁, subst (λ (k : ℤ). IsListening sys port (at_start w) k w₁) (sym sock) heard),
              λ i hi. all i (omega arith) (omega arith),
            )))
