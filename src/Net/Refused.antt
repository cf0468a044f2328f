-- ===== src/Net/Refused.antt =====
-- `tcp_connect` (plumbing.c) where the target refuses the connection.
use viamillipede.Prelude.{
  ℕ, ◌<◌, ◌≡◌, suc, refl, true, false, ne→==, some, List, ltb, ◌==◌, ==_iff, arith,
}
use viamillipede.Prelude.Int.{pos}
use viamillipede.Net.Calls.{Calls, returns, failed, World, ended, ◌>>=◌, assert, checkperror, call}
use viamillipede.Net.Connect.{located, resolve, open_socket, attach, tcp_connect}

-- When the host name is known and a socket is given, but connect(2) fails, `tcp_connect` does not
-- return -1, as its own code prepares: the process ends with the status 4.
pub tcp_connect-refused :
    (sys : Calls) {X : Type 0} (host : List ℕ) (port n e : ℕ) (w : World sys.Host X)
    (address : sys.Address) (h₁ h₂ h₃ : sys.Host)
    → w.errno ≡ 0
    → 0 < n
    → sys.gethostbyname host w.host ≡ (some address, h₁)
    → sys.socket h₁ ≡ (returns n, h₂)
    → sys.connect (pos n) address port h₂ ≡ (failed e, h₃)
    → tcp_connect sys host port w ≡ ended 4
unfolding tcp_connect resolve located open_socket attach assert checkperror call ◌>>=◌
tcp_connect-refused sys host port n e w address h₁ h₂ h₃ clean lo resolved opened refused =
    let clear : (w.errno == 0) ≡ true = (==_iff w.errno 0).1 clean in
    let positive : ltb 0 n ≡ true = ground arith in
    let set : (suc e == 0) ≡ false = ne→== (suc e) 0 (λ z. omega (arith, z)) in
    rw (resolved, opened, clear, positive, refused, set) refl
