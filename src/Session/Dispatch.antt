-- ===== src/Session/Dispatch.antt =====
-- `dispatch_idle_worker` (tx.c) inside a session: the scan over the workers, each read at another
-- moment, does what the one step `choose` of the session says.
use viamillipede.Prelude.{
  ℕ, zero, suc, ◌+◌, ◌-◌, ◌≤◌, ◌<◌, ◌≡◌, ◌≢◌, subst, ap, ◌∙◌, true, List, arith,
}
use viamillipede.Prelude.Run.{done}
use viamillipede.Wire.{Millipacket, kthreadmax}
use viamillipede.Plumbing.Source.{Source}
use viamillipede.Tx.Worker.{TxState, idle, Txworker}
use viamillipede.Tx.Consistency.{TxMove-idle}
use viamillipede.Prelude.Int.{ℤ}
use viamillipede.Net.Calls.{Calls}
use viamillipede.Tx.Dispatch.{
  is_idle, is_idle-idle, Dispatched, IsFound, dispatch_idle_worker, await_idle_lem,
  dispatch_idle_worker_lem,
}
use viamillipede.Tx.Ingest.{
  Config, scanning, filling, Txconf, IngestMove, choose, load, shut, load_end,
}
use viamillipede.Session.{Session, Step, ingest, transmit, receive, init, Steps}
use viamillipede.Session.Threads.{ThreadsOk, Step-ThreadsOk}
use viamillipede.Session.Recovery.{Steps-ThreadsOk}
use viamillipede.Session.Watch.{states}

idle-is_idle : (q : TxState) → q ≡ idle → is_idle q ≡ true
unfolding is_idle
idle-is_idle q e = ground arith

module _ (src : Source) (cfg : Config) where
  -- Steps of the other threads: the workers of both ends.
  pub data Asides (s : Session src cfg) : Session src cfg → Type 0 where
    none_yet : Asides s s
    aside :
        {t u : Session src cfg} → Asides s t → Step src cfg t u → u.txconf ≡ t.txconf → Asides s u

  -- `at k` is the session at the read `k`, while the ingest thread only reads.
  abbrev pub IsAsideWatch : (ℕ → Session src cfg) → Type 0
  IsAsideWatch at = (k : ℕ) → Asides (at k) (at (suc k))

  -- The ingest thread is in its scan, and worker `i` is idle.
  record IsFree (i : ℕ) (s : Session src cfg) : Type 0 where
    searching : s.txconf.pc ≡ scanning
    threads : ThreadsOk src cfg s
    free : (s.tx i).state ≡ idle

  no_choice :
      {c c' : Txconf src cfg} {tx tx' : ℕ → Txworker}
      → IngestMove src cfg c tx c' tx'
      → c.pc ≡ scanning
      → c' ≡ c
      → ⊥
  no_choice {c = c} (choose i e lt q) p same =
      filling_scanning i (ap (λ (x : Txconf src cfg). x.pc) same ∙ p)
    where
      filling_scanning : (i : ℕ) → filling i ≢ scanning
      filling_scanning i f = cc
  no_choice (load e r) p same = cc
  no_choice (shut e r) p same = cc
  no_choice (load_end e) p same = cc

  aside-threads :
      {s t : Session src cfg}
      → Asides s t
      → s.txconf.pc ≡ scanning
      → ThreadsOk src cfg s
      → (t.txconf.pc ≡ scanning) × ThreadsOk src cfg t
  aside-threads none_yet p ok = (p, ok)
  aside-threads (aside before st same) p ok =
      let (p', ok') = aside-threads before p ok in
      (ap (λ (x : Txconf src cfg). x.pc) same ∙ p', Step-ThreadsOk src cfg st ok')

  Step-free :
      (i : ℕ) {s t : Session src cfg}
      → Step src cfg s t
      → t.txconf ≡ s.txconf
      → IsFree i s
      → (t.tx i).state ≡ idle
  Step-free i (ingest m) same f = absurd (no_choice m f.searching same)
  Step-free i (transmit j {w} lt m) same f =
      ground (arith, TxMove-idle m, f.threads.consistent i, f.free)
  Step-free i (receive j lt m) same f = f.free

  Asides-IsFree : (i : ℕ) {s t : Session src cfg} → Asides s t → IsFree i s → IsFree i t
  Asides-IsFree i none_yet f = f
  Asides-IsFree i (aside before st same) f =
      let g = Asides-IsFree i before f in
      record {
        searching = ap (λ (x : Txconf src cfg). x.pc) same ∙ g.searching;
        threads = Step-ThreadsOk src cfg st g.threads;
        free = Step-free i st same g;
      }

  module _ (at : ℕ → Session src cfg) (watch : IsAsideWatch at) where
    kept-IsFree : (i k j : ℕ) → k ≤ j → IsFree i (at k) → IsFree i (at j)
    kept-IsFree i k j le f = subst (λ (n : ℕ). IsFree i (at n)) (omega arith) (go (j - k))
      where
        go : (d : ℕ) → IsFree i (at (d + k))
        go zero = subst (λ (n : ℕ). IsFree i (at n)) (omega arith) f
        go (suc d) =
            subst (λ (n : ℕ). IsFree i (at n)) (omega arith)
              (Asides-IsFree i (watch (d + k)) (go d))

    kept_scan :
        (j : ℕ)
        → (at 0).txconf.pc ≡ scanning
        → ThreadsOk src cfg (at 0)
        → ((at j).txconf.pc ≡ scanning) × ThreadsOk src cfg (at j)
    kept_scan zero p ok = (p, ok)
    kept_scan (suc j) p ok = let (p', ok') = kept_scan j p ok in aside-threads (watch j) p' ok'

    -- With a verbosity of at most 5, whatever steps the workers of both ends take between the reads of the scan: if worker `i` is idle
    -- at the read `q`, then `dispatch_idle_worker` returns, in at most `q + 1` scans, and what it returns
    -- is a worker of the group that is still idle then: the ingest thread can take the step `choose`
    -- with it. It is the first worker that the last scan has read idle.
    pub dispatch_idle_worker-choose :
        {header : ℕ → Millipacket} {tx_buffer rx_buffer : ℕ → List ℕ} {input : src.State} {n : ℕ}
        (sys : Calls) (gverbose : ℕ) (sfds : List ℤ) (h : sys.Host) (fuel waits i q : ℕ)
        → gverbose ≤ 5
        → Steps src cfg (init src cfg header tx_buffer rx_buffer input) n (at 0)
        → (at 0).txconf.pc ≡ scanning
        → cfg.worker_count ≤ kthreadmax
        → i < cfg.worker_count
        → ((at q).tx i).state ≡ idle
        → q < fuel
        → (r : Dispatched) × (dispatch_idle_worker
              (states src cfg at)
              sys
              gverbose
              sfds
              h
              cfg.worker_count
              fuel
              waits
              0
            ≡ done r)
          × IsFound (states src cfg at) cfg.worker_count 0 r
          × IngestMove src cfg
              (at r.later).txconf
              (at r.later).tx
              (record (at r.later).txconf { pc = filling r.worker })
              (at r.later).tx
    dispatch_idle_worker-choose sys gverbose sfds h fuel waits i q low steps begun few lt free
          enough =
        let ok = Steps-ThreadsOk src cfg steps in
        let free_from = λ (w k : ℕ) (e : ((at k).tx w).state ≡ idle) (j : ℕ) (le : k ≤ j).
          kept-IsFree w k j le (record {
            searching = (kept_scan k begun ok).0;
            threads = (kept_scan k begun ok).1;
            free = e;
          }) in
        let (r, returns, f) =
          await_idle_lem (states src cfg at) cfg.worker_count i q lt few
            (λ k le. idle-is_idle _ (free_from i q free k le).free) fuel waits 0 (omega arith)
            (omega arith) in
        let last =
          free_from r.worker (f.scan_from + r.worker) (is_idle-idle _ f.free) r.later
            (omega (arith, f.end)) in
        (
          r,
          dispatch_idle_worker_lem (states src cfg at) sys gverbose sfds h cfg.worker_count fuel
                waits 0 low
              ∙ returns,
          f,
          choose r.worker last.searching f.member last.free,
        )
