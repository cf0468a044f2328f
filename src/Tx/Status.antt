-- ===== src/Tx/Status.antt =====
-- `txstatus` (tx.c) and `tcp_dumpinfo` (plumbing.c), which call getsockopt(2). What they print is left
-- out, with `tx_state`, which only reads a worker for it under the worker's mutex.
use viamillipede.Prelude.{
  ℕ, suc, ne→==, ◌≤◌, ◌<◌, ◌≡◌, ◌⊎◌, inl, inr, refl, Bool, true, false, Bool-cases, ◌&&◌, List, [],
  ◌∷◌, ltb, ltb→lt, le→ltb, ◌==◌, ==_iff, ap, if◌then◌else◌, arith,
}
use viamillipede.Prelude.Int.{ℤ}
use viamillipede.Prelude.Run.{Run, done, exit, abort, fault, spent}
use viamillipede.Net.Calls.{
  Calls, returns, failed, tcp_info, World, Act, returned, retired, blocked, ended, aborted, faulted,
  M, ◌>>=◌, ◌>>◌, skip, checkperror, call,
}

abbrev pub all_open : (ℤ → Bool) → List ℤ → Bool
all_open is_open [] = true
all_open is_open (sfd ∷ sfds) = is_open sfd && all_open is_open sfds

-- How a piece that ends no thread ends, its variables left out.
abbrev pub run_of : {H X A : Type 0} → Act H X A → Run A
run_of (returned a w) = done a
run_of (retired w) = spent
run_of (blocked w) = spent
run_of (ended code) = exit code
run_of aborted = abort
run_of faulted = fault

module _ (sys : Calls) {X : Type 0} where
  open sys use {Host, getsockopt}

  unfoldable pub tcp_dumpinfo : ℤ → M Host X (Unit {0})
  tcp_dumpinfo sfd = do checkperror; _ ← call (getsockopt sfd tcp_info); checkperror

  -- The loop over the workers, of which the sockets are given.
  unfoldable pub status_loop : ℕ → ℕ → List ℤ → M Host X (Unit {0})
  unfolding tcp_dumpinfo
  status_loop gverbose log_level [] = skip
  status_loop gverbose log_level (sfd ∷ sfds) = do
    checkperror
    checkperror
    if ltb log_level gverbose then tcp_dumpinfo sfd else skip
    checkperror
    status_loop gverbose log_level sfds

  unfoldable pub txstatus : ℕ → ℕ → List ℤ → M Host X (Unit {0})
  unfolding status_loop
  txstatus gverbose log_level sfds = checkperror >> status_loop gverbose log_level sfds

  -- With `errno` clear.
  abbrev pub clear_world : Host → X → World Host X
  clear_world h x = record { errno = 0; host = h; own = x }

  status_loop-quiet :
      (gverbose log_level : ℕ) (sfds : List ℤ) (w : World Host X)
      → (w.errno == 0) ≡ true
      → ltb log_level gverbose ≡ false
      → status_loop gverbose log_level sfds w ≡ returned tt w
  unfolding status_loop ◌>>=◌ checkperror
  status_loop-quiet gverbose log_level [] w clear q = refl
  status_loop-quiet gverbose log_level (sfd ∷ sfds) w clear q =
      rw (clear, clear, q, clear) (status_loop-quiet gverbose log_level sfds w clear q)

  pub txstatus-quiet :
      (gverbose log_level : ℕ) (sfds : List ℤ) (w : World Host X)
      → w.errno ≡ 0
      → gverbose ≤ log_level
      → txstatus gverbose log_level sfds w ≡ returned tt w
  unfolding txstatus ◌>>=◌ checkperror
  txstatus-quiet gverbose log_level sfds w clean low =
      let clear : (w.errno == 0) ≡ true = (==_iff w.errno 0).1 clean in
      rw clear (status_loop-quiet gverbose log_level sfds w clear (le→ltb log_level gverbose low))

  quiet_lem :
      (gverbose log_level : ℕ) (sfds : List ℤ) (h : Host) (x : X)
      → ltb log_level gverbose ≡ false
      → status_loop gverbose log_level sfds (clear_world h x) ≡ returned tt (clear_world h x)
  unfolding status_loop ◌>>=◌ checkperror
  quiet_lem gverbose log_level [] h x q = refl
  quiet_lem gverbose log_level (sfd ∷ sfds) h x q = rw q (quiet_lem gverbose log_level sfds h x q)

  module _ (is_open : ℤ → Bool)
      (works : (sfd : ℤ) (h : Host)
        → is_open sfd ≡ true
        → (n : ℕ) × (h' : Host) × (getsockopt sfd tcp_info h ≡ (returns n, h')))
      (fails : (sfd : ℤ) (h : Host)
        → is_open sfd ≡ false
        → (e : ℕ) × (h' : Host) × (getsockopt sfd tcp_info h ≡ (failed e, h'))) where
    loud_lem :
        (gverbose log_level : ℕ) (sfds : List ℤ) (h : Host) (x : X)
        → ltb log_level gverbose ≡ true
        → ((all_open is_open sfds ≡ true)
            × (h' : Host) × (status_loop gverbose log_level sfds (clear_world h x)
                ≡ returned tt (clear_world h' x)))
          ⊎ ((all_open is_open sfds ≡ false)
              × (status_loop gverbose log_level sfds (clear_world h x) ≡ ended 4))
    unfolding status_loop tcp_dumpinfo ◌>>=◌ checkperror call
    loud_lem gverbose log_level [] h x q = inl (refl, h, refl)
    loud_lem gverbose log_level (sfd ∷ sfds) h x q = elim (Bool-cases (is_open sfd)) [
      | inl open_fd ↦
          let (n, h', e) = works sfd h open_fd in
          elim (loud_lem gverbose log_level sfds h' x q) [
            | inl (all, h'', run) ↦ inl (rw open_fd all, h'', rw (q, e) run)
            | inr (some_shut, run) ↦ inr (rw open_fd some_shut, rw (q, e) run)
          ]
      | inr shut ↦
          let (e, h', r) = fails sfd h shut in
          inr (rw shut refl, rw (q, r, ne→== (suc e) 0 (λ z. omega (arith, z))) refl)
    ]

    -- With `errno` clear: if `gverbose` is not above its level, `txstatus` returns and changes nothing. If it
    -- is, `txstatus` returns, with `errno` clear, if the sockets of all workers are open, and ends the
    -- process with status 4 if one is not.
    pub txstatus-all_open :
        (gverbose log_level : ℕ) (sfds : List ℤ) (h : Host) (x : X)
        → ((gverbose ≤ log_level)
            × (txstatus gverbose log_level sfds (clear_world h x) ≡ returned tt (clear_world h x)))
          ⊎ ((log_level < gverbose)
              × (all_open is_open sfds ≡ true)
              × (h' : Host) × (txstatus gverbose log_level sfds (clear_world h x)
                  ≡ returned tt (clear_world h' x)))
          ⊎ ((log_level < gverbose)
              × (all_open is_open sfds ≡ false)
              × (txstatus gverbose log_level sfds (clear_world h x) ≡ ended 4))
    unfolding txstatus ◌>>=◌ checkperror
    txstatus-all_open gverbose log_level sfds h x = elim (Bool-cases (ltb log_level gverbose)) [
      | inr q ↦ inl (ground arith, quiet_lem gverbose log_level sfds h x q)
      | inl q ↦
          let loud : log_level < gverbose = ltb→lt log_level gverbose q in
          elim (loud_lem gverbose log_level sfds h x q) [
            | inl (all, h', run) ↦ inr (inl (loud, all, h', run))
            | inr (shut, run) ↦ inr (inr (loud, shut, run))
          ]
    ]

-- As a call of `txstatus` ends, with `errno` clear.
abbrev pub status_run : (sys : Calls) → ℕ → ℕ → List ℤ → sys.Host → Run (Unit {0})
status_run sys gverbose log_level sfds h =
    run_of (txstatus sys gverbose log_level sfds (clear_world sys h tt))

pub status_run-quiet :
    (sys : Calls) (gverbose log_level : ℕ) (sfds : List ℤ) (h : sys.Host)
    → gverbose ≤ log_level
    → status_run sys gverbose log_level sfds h ≡ done tt
status_run-quiet sys gverbose log_level sfds h low =
    ap (λ (a : Act sys.Host (Unit {0}) (Unit {0})). run_of a)
      (txstatus-quiet sys gverbose log_level sfds (clear_world sys h tt) refl low)
