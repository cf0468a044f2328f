-- ===== src/Session/Lost.antt =====
-- A leg that is dispatched to a worker whose thread has ended: it stays unsent for good.
use viamillipede.Prelude.{
  ℕ, suc, ◌+◌, ◌^◌, ◌<◌, ◌≡◌, ◌≢◌, zero, subst, Bool, false, Bool-cases, inl, inr, List, [], ◌++◌,
  update, update_all, arith,
}
use viamillipede.Wire.{Leg}
use viamillipede.Plumbing.Source.{Source}
use viamillipede.Tx.Worker.{
  Txworker, TxMove, dispatched, exited, unsent, observe, idle_round, connect, clear, refuse,
  start_push, send, finish_push,
}
use viamillipede.Tx.Consistency.{IsCalmWorker, TxMove-IsCalmWorker}
use viamillipede.Tx.Ingest.{Config, finished, Txconf, IngestMove, choose, load, shut, load_end}
use viamillipede.Session.{Session, Step, ingest, transmit, receive, Steps, here, next, IsCalm}
use viamillipede.Session.Threads.{ThreadsOk}
use viamillipede.Session.Invariant.{Inv, Step-Inv}

dispatched_full : (w : Txworker) → w.state ≡ dispatched → unsent w ≢ []
dispatched_full w e = ground arith

module _ (src : Source) (cfg : Config) where
  -- The thread of worker `i` has ended, with a leg dispatched to it that it has not sent.
  pub record IsLost (i : ℕ) (s : Session src cfg) : Type 0 where
    pub over : s.txconf.pc ≡ finished
    pub gone : (s.tx i).pc ≡ exited
    pub loaded : (s.tx i).state ≡ dispatched

  pub no_move :
      {d : Bool} {w w' : Txworker} {sent : List Leg} → TxMove d w w' sent → w.pc ≡ exited → ⊥
  no_move (connect e) g = cc
  no_move (clear e) g = cc
  no_move (refuse e) g = cc
  no_move (observe e) g = cc
  no_move (idle_round e a) g = cc
  no_move (start_push e a) g = cc
  no_move (send e) g = cc
  no_move (finish_push e) g = cc

  pub no_ingest :
      {c c' : Txconf src cfg} {tx tx' : ℕ → Txworker}
      → IngestMove src cfg c tx c' tx'
      → c.pc ≡ finished
      → ⊥
  no_ingest (choose i e lt q) f = cc
  no_ingest (load e r) f = cc
  no_ingest (shut e r) f = cc
  no_ingest (load_end e) f = cc

  pub Step-IsLost : {i : ℕ} {s t : Session src cfg} → Step src cfg s t → IsLost i s → IsLost i t
  Step-IsLost (ingest m) l = absurd (no_ingest m l.over)
  Step-IsLost {i} {s} (transmit j {w} lt m) l = record {
    over = l.over;
    gone = ground (arith, no_move m, l.gone);
    loaded = ground (arith, no_move m, l.gone, l.loaded);
  }
  Step-IsLost (receive j lt m) l = record { over = l.over; gone = l.gone; loaded = l.loaded }

  pub transmit-IsCalm :
      (s : Session src cfg) (i : ℕ) {d : Bool} {w : Txworker} {sent : List Leg}
      → TxMove d (s.tx i) w sent
      → IsCalm src cfg s
      → IsCalm src cfg
          (record s { tx = update s.tx i w; wire = update s.wire i (s.wire i ++ sent) })
  transmit-IsCalm s i {w = w} m calm =
      update_all (λ _ x. IsCalmWorker x) s.tx i w (TxMove-IsCalmWorker m (calm i)) calm

  -- With the ingest thread at its end no worker is given a leg.
  Step-IsCalm :
      {s t : Session src cfg}
      → Step src cfg s t
      → s.txconf.pc ≡ finished
      → ThreadsOk src cfg s
      → IsCalm src cfg s
      → IsCalm src cfg t
  Step-IsCalm (ingest m) f ok calm = absurd (no_ingest m f)
  Step-IsCalm {s} (transmit j {w} lt m) f ok calm = transmit-IsCalm s j m calm
  Step-IsCalm (receive j lt m) f ok calm = calm

  -- From a state in which a leg is lost, the invariant and the loss stay.
  pub Steps-IsLost :
      {s₀ : src.State} {n i : ℕ} {s : Session src cfg} {m : ℕ} {t : Session src cfg} (k : ℕ)
      → Steps src cfg s m t
      → n + m ≡ k
      → k < 2 ^ 64
      → Inv src cfg s₀ n s
      → IsLost i s
      → IsCalm src cfg s
      → Inv src cfg s₀ k t × IsLost i t × IsCalm src cfg t
  Steps-IsLost {s₀} {n} {i} {s} k here e fit v l calm =
      (subst (λ (j : ℕ). Inv src cfg s₀ j s) (omega arith) v, l, calm)
  Steps-IsLost zero (next steps st) e fit v l calm = absurd (omega arith)
  Steps-IsLost (suc k) (next steps st) e fit v l calm =
      let (v', l', calm') = Steps-IsLost k steps (omega arith) (omega arith) v l calm in
      (
        Step-Inv src cfg (omega arith) st calm' v',
        Step-IsLost st l',
        Step-IsCalm st l'.over v'.threads calm',
      )

  -- While a dispatched leg sits with a thread that has ended, the receiver is not done.
  pub lost_not_done :
      {s₀ : src.State} {n i : ℕ} {s : Session src cfg}
      → Inv src cfg s₀ n s
      → IsLost i s
      → s.rxconf.done_mbox ≡ false
  lost_not_done {i = i} {s} v l = elim (Bool-cases s.rxconf.done_mbox) [
    | inl done ↦ absurd (dispatched_full (s.tx i) l.loaded (v.ordered.drained done i))
    | inr going ↦ going
  ]
