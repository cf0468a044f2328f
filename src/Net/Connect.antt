-- ===== src/Net/Connect.antt =====
-- `tcp_geterr`, `tcp_nowait`, `tcp_setbufsize`, `tcp_connect`, `tcp_recieve_prep` and `tcp_accept`
-- (plumbing.c). What they print is left out.
use viamillipede.Prelude.{
  ℕ, zero, ◌*◌, Bool, true, false, Option, none, some, List, ltb, if◌then◌else◌,
}
use viamillipede.Prelude.Int.{ℤ, pos, negsuc}
use viamillipede.Net.Calls.{
  Calls, tcp_nodelay, so_rcvbuf, so_sndbuf, so_error, so_reuseport, World, Act, returned, aborted,
  M, ◌>>=◌, ◌>>◌, pure, skip, assert, checkperror, call,
}

abbrev pub is_zero : ℤ → Bool
is_zero (pos zero) = true
is_zero _ = false

abbrev pub is_positive : ℤ → Bool
is_positive (pos n) = ltb 0 n
is_positive (negsuc n) = false

-- `MEGA_BYTES`
abbrev pub mega_bytes : ℕ
mega_bytes = 1024 * 1024

module _ (sys : Calls) {X : Type 0} where
  open sys use {Host, Address}

  -- The address of a host, behind the assertion on `h_errno`.
  unfoldable pub located : World Host X → Option Address × Host → Act Host X Address
  located w (none, h) = aborted
  located w (some a, h) = returned a (record w { host = h })

  unfoldable pub resolve : List ℕ → M Host X Address
  unfolding located
  resolve host w = located w (sys.gethostbyname host w.host)

  unfoldable pub tcp_geterr : ℤ → M Host X ℤ
  tcp_geterr sfd = do sockerr ← call (sys.getsockopt sfd so_error); checkperror; pure sockerr

  unfoldable pub tcp_nowait : ℤ → M Host X ℤ
  tcp_nowait si = do _ ← call (sys.setsockopt si tcp_nodelay 1); checkperror; pure (pos 1)

  unfoldable pub tcp_setbufsize : ℤ → M Host X ℤ
  tcp_setbufsize si = do
    _ ← call (sys.setsockopt si so_rcvbuf mega_bytes)
    _ ← call (sys.setsockopt si so_sndbuf mega_bytes)
    checkperror
    _ ← tcp_geterr si
    pure (pos mega_bytes)

  -- A new socket, behind `checkperror` and the assertion.
  unfoldable pub open_socket : M Host X ℤ
  open_socket = do fd ← call sys.socket; checkperror; assert (is_positive fd); pure fd

  -- `assert(0 == tcp_geterr(ret_sockfd))`
  unfoldable pub is_sound : ℤ → M Host X (Unit {0})
  is_sound fd = do err ← tcp_geterr fd; assert (is_zero err)

  -- The socket options of a new connection.
  unfoldable pub tune : ℤ → M Host X (Unit {0})
  tune fd = do _ ← tcp_nowait fd; _ ← tcp_setbufsize fd; skip

  -- From `connect` on: the descriptor is replaced by -1 where it failed.
  unfoldable pub attach : ℤ → Address → ℕ → M Host X ℤ
  attach fd address port = do
    retcode ← call (sys.connect fd address port)
    if is_zero retcode then is_sound fd else skip
    let ret_sockfd = if is_zero retcode then fd else negsuc 0
    checkperror
    if is_zero retcode then skip else tune ret_sockfd
    checkperror
    pure ret_sockfd

  unfoldable pub tcp_connect : List ℕ → ℕ → M Host X ℤ
  tcp_connect host port = do address ← resolve host; fd ← open_socket; attach fd address port

  -- The socket is the value, where the code returns 0 and stores it in `socknum`.
  unfoldable pub tcp_recieve_prep : ℕ → M Host X ℤ
  tcp_recieve_prep inport = do
    socknum ← call sys.socket
    assert (is_positive socknum)
    checkperror
    _ ← call (sys.setsockopt socknum so_reuseport 1)
    bound ← call (sys.bind socknum sys.any inport)
    assert (is_zero bound)
    checkperror
    heard ← call (sys.listen socknum 6)
    assert (is_zero heard)
    pure socknum

  unfoldable pub tcp_accept : ℤ → M Host X ℤ
  tcp_accept socknum = do out_sockfd ← call (sys.accept socknum); checkperror; pure out_sockfd
