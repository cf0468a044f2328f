-- ===== src/Tx/Start.antt =====
-- `tx_start_net` (tx.c): a worker connects to a target, and again where that failed, and exchanges the
-- check phrase. The sleeps and what it prints are left out. `take_done` reads `done`, which the ingest
-- thread sets.
pub mod Once
use viamillipede.Prelude.{
  ℕ, zero, suc, Bool, true, false, List, [], ◌∷◌, take, overwrite, ◌==◌, ◌&&◌, if◌then◌else◌,
}
use viamillipede.Prelude.Int.{ℤ, pos, negsuc}
use viamillipede.Prelude.Run.{Run, done, exit, abort, fault, spent}
use viamillipede.Wire.{kreconnectlimit}
use viamillipede.Tx.Worker.{TxState, connecting, faulted as gone}
use viamillipede.Tx.Targets.{Target, Targets, tx_tcp_connect_next}
use viamillipede.Net.Calls.{
  Calls, Reply, World, Act, returned, retired, blocked, ended, aborted, faulted, M, ◌>>=◌, ◌>>◌,
  pure, skip, assert, checkperror, call, fetch,
}
use viamillipede.Tx.Status.{txstatus}
use viamillipede.Net.Connect.{is_positive, tcp_connect}

-- The worker: `locked` says that the thread holds the worker's mutex.
pub record Dialer : Type 0 where
  pub locked : Bool
  pub state : TxState
  pub sockfd : ℤ
  pub targets : Targets

abbrev pub is_minus_one : ℤ → Bool
is_minus_one (negsuc zero) = true
is_minus_one _ = false

abbrev pub is_four : ℤ → Bool
is_four (pos n) = n == 4
is_four (negsuc n) = false

-- `bcmp(a, b, n) == 0`, for the `n` bytes of `a`
unfoldable pub begins_with : List ℕ → List ℕ → Bool
begins_with [] b = true
begins_with (x ∷ a) [] = false
begins_with (x ∷ a) (y ∷ b) = (x == y) && begins_with a b

abbrev pub okphrase : List ℕ
okphrase = 111 ∷ 107 ∷ []

module _ (sys : Calls) (take_done : sys.Host → Bool × sys.Host) where
  open sys use {Host}

  unfoldable pub lock : M Host Dialer (Unit {0})
  lock w =
      if w.own.locked
      then blocked w
      else returned tt (record w { own = record w.own { locked = true } })

  unfoldable pub unlock : M Host Dialer (Unit {0})
  unlock w = returned tt (record w { own = record w.own { locked = false } })

  unfoldable pub put_state : TxState → M Host Dialer (Unit {0})
  put_state instate w = returned tt (record w { own = record w.own { state = instate } })

  unfoldable pub tx_state_set : TxState → M Host Dialer (Unit {0})
  tx_state_set instate = do lock; put_state instate; unlock

  unfoldable pub put_sockfd : ℤ → M Host Dialer (Unit {0})
  put_sockfd fd w = returned tt (record w { own = record w.own { sockfd = fd } })

  unfoldable pub clear_errno : M Host Dialer (Unit {0})
  clear_errno w = returned tt (record w { errno = 0 })

  unfoldable pub read_done : M Host Dialer Bool
  read_done w = let (d, h) = take_done w.host in returned d (record w { host = h })

  -- The connection to the target that `tx_tcp_connect_next` has chosen.
  unfoldable pub dial : Run (Target × Targets) → M Host Dialer ℤ
  dial (done (x, t)) w =
      tcp_connect sys x.name x.port (record w { own = record w.own { targets = t } })
  dial (exit code) w = ended code
  dial abort w = aborted
  dial fault w = faulted
  dial spent w = faulted

  unfoldable pub connect_next : M Host Dialer ℤ
  connect_next w = dial (tx_tcp_connect_next w.own.targets) w

  -- The state is 'f' and the thread ends.
  unfoldable pub retire : {A : Type 0} → M Host Dialer A
  retire = tx_state_set gone >>= λ _. retired

  -- A round of the loop; `again` is the rest of the loop. A round that connects resets the fuse, and
  -- is the last one.
  unfoldable pub attempt : M Host Dialer ℤ → M Host Dialer Bool → M Host Dialer Bool
  attempt next again = do
    over ← read_done
    if over then retire else skip
    lock
    fd ← next
    put_sockfd fd
    if is_positive fd then (clear_errno >> pure true) else again

  -- The loop, over the fuse; the value is whether the fuse is not 0 behind it.
  unfoldable pub reconnect : M Host Dialer ℤ → ℕ → M Host Dialer Bool
  reconnect next zero w = returned false w
  reconnect next (suc fuse) w =
      if is_minus_one w.own.sockfd then attempt next (reconnect next fuse) w else returned true w

  unfoldable pub settle_net : M Host Dialer ℤ → M Host Dialer (Unit {0})
  settle_net next = do left ← reconnect next kreconnectlimit; if left then skip else retire

  -- The check phrase is sent, and "ok" is expected. `checkphrase` is the four bytes at `gcheckphrase`,
  -- and `readback` what the buffer on the stack holds; `sfds` are the sockets of all workers when
  -- `txstatus` reads them.
  unfoldable pub exchange : ℕ → List ℤ → List ℕ → List ℕ → ℤ → M Host Dialer ℤ
  exchange gverbose sfds checkphrase readback sockfd = do
    sent ← call (sys.write sockfd checkphrase)
    checkperror
    assert (is_four sent)
    got ← fetch (sys.read sockfd 2)
    checkperror
    assert (begins_with okphrase (overwrite readback 0 got.1))
    txstatus sys gverbose 7 sfds
    unlock
    pure got.0

  unfoldable pub greet : ℕ → List ℤ → List ℕ → List ℕ → M Host Dialer ℤ
  greet gverbose sfds checkphrase readback w =
      exchange gverbose sfds checkphrase readback w.own.sockfd w

  unfoldable pub tx_start_net : ℕ → List ℤ → List ℕ → List ℕ → M Host Dialer ℤ
  tx_start_net gverbose sfds checkphrase readback = do
    tx_state_set connecting
    fd ← connect_next
    put_sockfd fd
    settle_net connect_next
    greet gverbose sfds checkphrase readback
