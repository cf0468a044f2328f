-- ===== src/Net/Calls.antt =====
-- The socket calls, which the program makes and does not implement, and `checkperror` (util.h).
use viamillipede.Prelude.{ℕ, suc, ◌≡◌, Bool, true, false, Option, List, [], ◌==◌, if◌then◌else◌}
use viamillipede.Prelude.Int.{ℤ, pos, negsuc}

-- `failed e` returns -1 and sets `errno` to `e + 1`: no call sets it to 0.
pub data Reply : Type 0 where
  returns : ℕ → Reply
  failed : ℕ → Reply

pub data Sockopt : Type 0 where
  tcp_nodelay so_rcvbuf so_sndbuf so_error so_reuseport tcp_info : Sockopt

-- The calls, over the state of the host. Of a call that stores a value the reply is that value.
pub record Calls : Type 1 where
  pub Host : Type 0
  pub Address : Type 0
  pub any : Address  -- INADDR_ANY
  pub gethostbyname : List ℕ → Host → Option Address × Host  -- nothing sets `h_errno`
  pub socket : Host → Reply × Host
  pub connect : ℤ → Address → ℕ → Host → Reply × Host
  pub bind : ℤ → Address → ℕ → Host → Reply × Host
  pub listen : ℤ → ℕ → Host → Reply × Host
  pub accept : ℤ → Host → Reply × Host
  pub setsockopt : ℤ → Sockopt → ℕ → Host → Reply × Host
  pub getsockopt : ℤ → Sockopt → Host → Reply × Host
  pub write : ℤ → List ℕ → Host → Reply × Host
  -- the bytes that are read, or the error
  pub read : ℤ → ℕ → Host → (Reply × List ℕ) × Host
  -- the documented values of success
  pub connect-zero :
      (fd : ℤ) (a : Address) (port : ℕ) (h h' : Host) (n : ℕ)
      → connect fd a port h ≡ (returns n, h')
      → n ≡ 0

-- What a thread works on: its `errno`, the host, and its own variables.
pub record World (H X : Type 0) : Type 0 where
  pub errno : ℕ
  pub host : H
  pub own : X

-- How a piece of a thread ends.
pub data Act (H X A : Type 0) : Type 0 where
  returned : A → World H X → Act H X A
  retired : World H X → Act H X A  -- `pthread_exit`
  blocked : World H X → Act H X A  -- it waits for a mutex that it holds itself
  ended : ℕ → Act H X A  -- `exit(code)`
  aborted : Act H X A  -- a failed `assert`
  faulted : Act H X A  -- an access out of bounds

abbrev pub M : Type 0 → Type 0 → Type 0 → Type 0
M H X A = World H X → Act H X A

abbrev pub andthen : {H X A B : Type 0} → Act H X A → (A → M H X B) → Act H X B
andthen (returned a w) f = f a w
andthen (retired w) f = retired w
andthen (blocked w) f = blocked w
andthen (ended code) f = ended code
andthen aborted f = aborted
andthen faulted f = faulted

infixl 5 ◌>>=◌ ◌>>◌
unfoldable pub ◌>>=◌ : {H X A B : Type 0} → M H X A → (A → M H X B) → M H X B
m >>= f = λ w. andthen (m w) f

abbrev pub ◌>>◌ : {H X B : Type 0} → M H X (Unit {0}) → M H X B → M H X B
m >> k = m >>= λ _. k

abbrev pub pure : {H X A : Type 0} → A → M H X A
pure a w = returned a w

abbrev pub skip : {H X : Type 0} → M H X (Unit {0})
skip w = returned tt w

unfoldable pub assert : {H X : Type 0} → Bool → M H X (Unit {0})
assert true w = returned tt w
assert false w = aborted

unfoldable pub exit_with : {H X A : Type 0} → ℕ → M H X A
exit_with code w = ended code

-- `checkperror` (util.h): it leaves the process if `errno` is set.
unfoldable pub checkperror : {H X : Type 0} → M H X (Unit {0})
checkperror w = if w.errno == 0 then returned tt w else ended 4

-- The value and `errno` behind a reply; a call that returns leaves `errno` as it is.
abbrev pub settle : {H X : Type 0} → World H X → Reply × H → Act H X ℤ
settle w (returns n, h) = returned (pos n) (record w { host = h })
settle w (failed e, h) = returned (negsuc 0) (record w { errno = suc e; host = h })

unfoldable pub call : {H X : Type 0} → (H → Reply × H) → M H X ℤ
call f w = settle w (f w.host)

-- A call that stores bytes.
abbrev pub settle_bytes : {H X : Type 0} → World H X → (Reply × List ℕ) × H → Act H X (ℤ × List ℕ)
settle_bytes w ((returns n, bs), h) = returned (pos n, bs) (record w { host = h })
settle_bytes w ((failed e, bs), h) = returned (negsuc 0, []) (record w { errno = suc e; host = h })

unfoldable pub fetch : {H X : Type 0} → (H → (Reply × List ℕ) × H) → M H X (ℤ × List ℕ)
fetch f w = settle_bytes w (f w.host)
