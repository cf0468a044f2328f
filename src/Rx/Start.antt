-- ===== src/Rx/Start.antt =====
-- `rxworker` (rx.c) from `tcp_accept` to its inner loop: a connection is accepted, and the check phrase
-- on it is compared. `edom` and `enotconn` are the numbers of <errno.h>.
pub mod Phrase
pub mod Short
use viamillipede.Prelude.{ℕ, ◌+◌, Bool, true, false, List, [], ◌∷◌, overwrite, ◌==◌, if◌then◌else◌}
use viamillipede.Prelude.Int.{ℤ, pos, negsuc}
use viamillipede.Net.Calls.{
  Calls, World, Act, returned, M, ◌>>=◌, ◌>>◌, skip, assert, exit_with, checkperror, call, fetch,
}
use viamillipede.Net.Connect.{tcp_accept}
use viamillipede.Tx.Start.{begins_with, okphrase, is_four}

-- The worker, its buffer, and `workercount` of the `struct rxconf_s`.
pub record Greeter : Type 0 where
  pub sockfd : ℤ
  pub workercount : ℕ
  pub buffer : List ℕ

abbrev pub is_two : ℤ → Bool
is_two (pos n) = n == 2
is_two (negsuc n) = false

module _ (sys : Calls) (edom enotconn : ℕ) where
  open sys use {Host}

  unfoldable pub put_accepted : ℤ → M Host Greeter (Unit {0})
  put_accepted fd w =
      returned tt
        (record w { own = record w.own { sockfd = fd; workercount = w.own.workercount + 1 } })

  unfoldable pub put_bytes : List ℕ → M Host Greeter (Unit {0})
  put_bytes bs w =
      returned tt (record w { own = record w.own { buffer = overwrite w.own.buffer 0 bs } })

  -- The comparison, with the buffer as the read left it.
  unfoldable pub check_phrase : List ℕ → M Host Greeter (Unit {0})
  check_phrase checkphrase w =
      if begins_with checkphrase w.own.buffer then returned tt w else exit_with edom w

  -- `checkphrase` is the four bytes at `gcheckphrase`.
  unfoldable pub accept_worker : List ℕ → ℤ → M Host Greeter (Unit {0})
  accept_worker checkphrase socknum = do
    fd ← tcp_accept sys socknum
    put_accepted fd
    got ← fetch (sys.read fd 4)
    put_bytes got.1
    assert (is_four got.0)
    check_phrase checkphrase
    checkperror
    sent ← call (sys.write fd okphrase)
    if is_two sent then skip else exit_with enotconn
    checkperror
