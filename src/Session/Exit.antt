-- ===== src/Session/Exit.antt =====
-- When the transmitter leaves: what `tx_poll` (tx.c) knows of a session when it returns 1, on which
-- `main` (viamillipede.c) ends the process.
use viamillipede.Prelude.{
  ℕ, zero, suc, ◌+◌, ◌^◌, ◌<◌, ◌≤◌, ◌≡◌, ◌≢◌, ◌⊎◌, inl, inr, refl, sym, ap, subst, Bool, true,
  false, Bool-cases, List, [], ◌∙◌, ltb, ltb→lt, le→ltb, if◌then◌else◌, arith,
}
use viamillipede.Prelude.Run.{done}
use native.Mathlib.Nat.{zero-add}
use mathlib.Core.Bool.{false≢true}
use viamillipede.Wire.{Millipacket}
use viamillipede.Plumbing.Source.{Source}
use viamillipede.Tx.Worker.{Txworker, unsent}
use viamillipede.Tx.Poll.{is_busy, tx_poll, poll_pass-quiet, tx_poll-all, tx_poll_returns}
use viamillipede.Tx.Ingest.{
  Config, IngestPc, closing, finished, Txconf, IngestMove, choose, load, shut, load_end,
}
use viamillipede.Session.{
  Session, Step, ingest, transmit, receive, init, Steps, here, next, IsCalmRun,
}
use viamillipede.Session.Threads.{IsAssigned, ThreadsOk, Step-ThreadsOk}
use viamillipede.Session.Watch.{
  IsWatch, states, eofs, IsWatch-kept, IsSettled, Step-IsSettled, Step-finished,
}
use viamillipede.Session.Recovery.{Steps-ThreadsOk}
use viamillipede.Session.Invariant.{is_finished, Inv, Step-Inv, Steps-Inv}

quiet_unsent : (w : Txworker) → is_busy w.state ≡ false → unsent w ≡ []
unfolding is_busy
quiet_unsent w e = ground arith

open_not_done : (pc : IngestPc) (i : ℕ) → pc ≡ closing i → is_finished pc ≡ false
open_not_done pc i e = ground arith

module _ (src : Source) (cfg : Config) where
  IngestMove-input_eof :
      {c c' : Txconf src cfg} {tx tx' : ℕ → Txworker}
      → IngestMove src cfg c tx c' tx'
      → c.input_eof ≡ c.done
      → c'.input_eof ≡ c'.done
  IngestMove-input_eof (choose i e lt q) same = same
  IngestMove-input_eof (load e r) same = same
  IngestMove-input_eof (shut e r) same = refl
  IngestMove-input_eof (load_end e) same = same

  Step-input_eof :
      {s t : Session src cfg}
      → Step src cfg s t
      → s.txconf.input_eof ≡ s.txconf.done
      → t.txconf.input_eof ≡ t.txconf.done
  Step-input_eof (ingest m) same = IngestMove-input_eof m same
  Step-input_eof (transmit i lt m) same = same
  Step-input_eof (receive i lt m) same = same

  -- There is a leg that has been dispatched and not sent, or the last leg has not been dispatched.
  abbrev pub IsOwed : Session src cfg → Type 0
  IsOwed s = ((i : ℕ) × (s.txconf.pc ≡ closing i)) ⊎ ((i : ℕ) × (unsent (s.tx i) ≢ []))

  owed_not_done :
      {s₀ : src.State} {n : ℕ} {s : Session src cfg}
      → Inv src cfg s₀ n s
      → IsOwed s
      → s.rxconf.done_mbox ≡ false
  owed_not_done {s = s} v owed = elim (Bool-cases s.rxconf.done_mbox) [
    | inr going ↦ going
    | inl told ↦ elim owed [
      | inl (i, e) ↦
          absurd (false≢true (sym (open_not_done s.txconf.pc i e) ∙ (v.ordered.mbox told).0))
      | inr (i, full) ↦ absurd (full (v.ordered.drained told i))
    ]
  ]

  -- The reads before the read `c` are made in `s`, the others in `u`.
  abbrev two_states : ℕ → Session src cfg → Session src cfg → ℕ → Session src cfg
  two_states c s u k = if ltb k c then s else u

  two_states-IsWatch :
      (c : ℕ) {m : ℕ} {s u : Session src cfg}
      → Steps src cfg s m u
      → IsWatch src cfg (two_states c s u)
  two_states-IsWatch c {m} {s} {u} more k = elim (Bool-cases (ltb k c)) [
    | inl lo ↦ elim (Bool-cases (ltb (suc k) c)) [
      | inl lo' ↦ rw (lo, lo') (0, here)
      | inr hi ↦ rw (lo, hi) (m, more)
    ]
    | inr hi ↦ rw (hi, le→ltb (suc k) c (ground arith)) (0, here)
  ]

  -- The invariant goes on along a calm run.
  Steps-Inv-from :
      {s₀ : src.State} {n : ℕ} {s : Session src cfg} {m : ℕ} {u : Session src cfg}
      (steps : Steps src cfg s m u) (k : ℕ)
      → n + m ≡ k
      → k < 2 ^ 64
      → IsCalmRun src cfg steps
      → Inv src cfg s₀ n s
      → Inv src cfg s₀ k u
  Steps-Inv-from {s₀} {n} {s} here k e fit calm v =
      subst (λ (j : ℕ). Inv src cfg s₀ j s) (omega arith) v
  Steps-Inv-from (next steps st) zero e fit calm v = absurd (omega arith)
  Steps-Inv-from (next steps st) (suc k) e fit calm v =
      Step-Inv src cfg (omega arith) st calm.1
        (Steps-Inv-from steps k (omega arith) (omega arith) calm.0 v)

  module _ {header : ℕ → Millipacket} {tx_buffer rx_buffer : ℕ → List ℕ} {input : src.State} where
    Steps-input_eof :
        {n : ℕ} {s : Session src cfg}
        → Steps src cfg (init src cfg header tx_buffer rx_buffer input) n s
        → s.txconf.input_eof ≡ s.txconf.done
    Steps-input_eof here = refl
    Steps-input_eof (next steps st) = Step-input_eof st (Steps-input_eof steps)

    -- Whatever steps the other threads take between the reads of `tx_poll`: a call that begins once the
    -- ingest thread is at its end, and that returns, returns 1, and in that state and every later one no
    -- worker has a leg left to send.
    pub tx_poll-sent :
        (at : ℕ → Session src cfg) {n : ℕ} (fuel k m : ℕ) {b : Bool}
        → Steps src cfg (init src cfg header tx_buffer rx_buffer input) n (at 0)
        → IsWatch src cfg at
        → (at k).txconf.pc ≡ finished
        → tx_poll (states src cfg at) (eofs src cfg at) cfg.worker_count fuel k ≡ done (b, m)
        → (b ≡ true) × ((j i : ℕ) → m ≤ j → i < cfg.worker_count → unsent ((at j).tx i) ≡ [])
    tx_poll-sent at fuel k m steps watch over e =
        let (k', le, end, eof, each) =
          tx_poll-all (states src cfg at) (eofs src cfg at) cfg.worker_count fuel k e in
        let ok = λ (j : ℕ).
          IsWatch-kept src cfg (λ s. ThreadsOk src cfg s × (s.txconf.input_eof ≡ s.txconf.done))
            (λ s t st p. (Step-ThreadsOk src cfg st p.0, Step-input_eof st p.1)) at watch 0 j
            (omega arith) (Steps-ThreadsOk src cfg steps, Steps-input_eof steps) in
        let finished_from = λ (j : ℕ) (h : k ≤ j).
          IsWatch-kept src cfg (λ s. s.txconf.pc ≡ finished) (Step-finished src cfg) at watch k j h
            over in
        (
          eof
              ∙ (ok m).1
              ∙ subst (λ p. IsAssigned p (at m).txconf.done (at m).tx)
                  (finished_from m (omega arith)) (ok m).0.assigned,
          λ j i lo lt.
              quiet_unsent ((at j).tx i)
                (IsWatch-kept src cfg (IsSettled src cfg i) (Step-IsSettled src cfg i) at watch
                  (k' + i) j (omega arith)
                  (record {
                    over = finished_from (k' + i) (omega arith);
                    consistent = (ok (k' + i)).0.consistent i;
                    quiet = each i lt;
                  })).quiet,
        )

    -- Whatever steps the other threads take between the reads of `tx_poll`: a call that begins at the
    -- read `k`, once the ingest thread is at its end, returns 1 within `q - k + 1` passes if every worker
    -- is idle or faulted at the read `q`, and from then on no worker has a leg left to send.
    pub tx_poll_ends :
        (at : ℕ → Session src cfg) {n : ℕ} (fuel k q : ℕ)
        → Steps src cfg (init src cfg header tx_buffer rx_buffer input) n (at 0)
        → IsWatch src cfg at
        → (at k).txconf.pc ≡ finished
        → ((i : ℕ) → i < cfg.worker_count → is_busy ((at q).tx i).state ≡ false)
        → k ≤ q
        → q < k + fuel
        → (m : ℕ) × (tx_poll (states src cfg at) (eofs src cfg at) cfg.worker_count fuel k
            ≡ done (true, m))
          × ((j i : ℕ) → m ≤ j → i < cfg.worker_count → unsent ((at j).tx i) ≡ [])
    tx_poll_ends at fuel k q steps watch over quiet le enough =
        let (m, e) =
          tx_poll_returns (states src cfg at) (eofs src cfg at) cfg.worker_count q fuel k
            (omega arith) enough
            (λ k' j lo lt.
              (IsWatch-kept src cfg (IsSettled src cfg j) (Step-IsSettled src cfg j) at watch q k'
                lo
                (record {
                  over =
                      IsWatch-kept src cfg (λ s. s.txconf.pc ≡ finished) (Step-finished src cfg) at
                        watch k q le over;
                  consistent =
                      (IsWatch-kept src cfg (ThreadsOk src cfg)
                          (λ s t st ok. Step-ThreadsOk src cfg st ok) at watch 0 q (omega arith)
                          (Steps-ThreadsOk src cfg steps)).consistent
                        j;
                  quiet = quiet j lt;
                })).quiet) in
        let (one, sent) = tx_poll-sent at fuel k m steps watch over e in
        (m, e ∙ ap (λ (z : Bool). done (z, m)) one, sent)

    -- In a session of fewer than 2 ^ 64 steps in which no worker was given a leg before it had reset
    -- its header, from `s` on to `u`: if the workers below `c` are idle or faulted in `s`, the others in
    -- `u`, and in `u` the input is at its end while a worker has a leg to send or `txshutdown` has not
    -- dispatched the last leg yet, then a pass of `tx_poll` that reads the workers below `c` in `s` and
    -- the others in `u` makes it return 1, though the receiver has not been told that the stream is over.
    pub poll_race :
        {n m : ℕ} {s u : Session src cfg} (c : ℕ)
        (steps : Steps src cfg (init src cfg header tx_buffer rx_buffer input) n s)
        (more : Steps src cfg s m u)
        → IsCalmRun src cfg steps
        → IsCalmRun src cfg more
        → n + m < 2 ^ 64
        → c ≤ cfg.worker_count
        → ((j : ℕ) → j < c → is_busy (s.tx j).state ≡ false)
        → ((j : ℕ) → c ≤ j → j < cfg.worker_count → is_busy (u.tx j).state ≡ false)
        → u.txconf.input_eof ≡ true
        → IsOwed u
        → (at : ℕ → Session src cfg) × IsWatch src cfg at
          × (at 0 ≡ (if ltb 0 c then s else u))
          × (at cfg.worker_count ≡ u)
          × (tx_poll (states src cfg at) (eofs src cfg at) cfg.worker_count 1 0
              ≡ done (true, cfg.worker_count))
          × (u.rxconf.done_mbox ≡ false)
    unfolding tx_poll
    poll_race {n} {m} {s} {u} c steps more calm calm' fit le before behind eof owed =
        let at : ℕ → Session src cfg = two_states c s u in
        let last : at cfg.worker_count ≡ u = rw (le→ltb cfg.worker_count c le) refl in
        let pass =
          poll_pass-quiet (states src cfg at) (eofs src cfg at) cfg.worker_count 0 0 (λ j lt.
            elim (Bool-cases (ltb j c)) [
              | inl lo ↦
                  let e : at (0 + j) ≡ s = rw (zero-add, lo) refl in
                  subst (λ (x : Session src cfg). is_busy (x.tx (0 + j)).state ≡ false) (sym e)
                    (rw zero-add (before j (ltb→lt j c lo)))
              | inr hi ↦
                  let e : at (0 + j) ≡ u = rw (zero-add, hi) refl in
                  subst (λ (x : Session src cfg). is_busy (x.tx (0 + j)).state ≡ false) (sym e)
                    (rw zero-add (behind j (ground arith) lt))
            ]) in
        let v =
          Steps-Inv-from more (n + m) refl fit calm' (Steps-Inv src cfg (omega arith) steps calm) in
        (
          at,
          two_states-IsWatch c more,
          refl,
          last,
          rw pass (
              ap (λ (k : ℕ). done (eofs src cfg at k, k)) (zero-add cfg.worker_count)
              ∙ ap (λ (x : Session src cfg). done (x.txconf.input_eof, cfg.worker_count)) last
              ∙ ap (λ (z : Bool). done (z, cfg.worker_count)) eof),
          owed_not_done v owed,
        )
