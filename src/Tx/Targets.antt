-- ===== src/Tx/Targets.antt =====
-- `tx_tcp_connect_next` (tx.c): the next of the targets that were given by `tx <host> <port>`.
-- `tcp_connect` to the chosen target is left to the caller.
pub mod Rotation
use viamillipede.Prelude.{
  ℕ, zero, suc, ◌+◌, ◌-◌, ◌%◌, ◌≤◌, ◌<◌, ◌≡◌, refl, List, [], ◌∷◌, ◌++◌, length, take, drop, ltb,
  ◌==◌, if◌then◌else◌, arith,
}
use viamillipede.Prelude.Run.{Run, done, abort, fault, ◌>>=◌}

-- `struct target_port_s`
pub record Target : Type 0 where
  pub name : List ℕ
  pub port : ℕ

pub record Targets : Type 0 where
  pub target_port_count : ℕ
  pub target_port_cursor : ℕ
  pub target_ports : List Target

unfoldable pub target_at : List Target → ℕ → Run Target
target_at [] i = fault
target_at (x ∷ xs) zero = done x
target_at (x ∷ xs) (suc i) = target_at xs i

-- The target that is connected to, and the targets behind the call; with no target the remainder by 0
-- is a fault.
unfoldable pub tx_tcp_connect_next : Targets → Run (Target × Targets)
unfolding target_at
tx_tcp_connect_next t =
    let cursor = (t.target_port_cursor + 1) % t.target_port_count in
    let chosen = target_at t.target_ports t.target_port_cursor >>= λ target.
    done (target, record t { target_port_cursor = cursor }) in
    if t.target_port_count == 0
    then fault
    else if ltb cursor t.target_port_count
    then chosen
    else abort

-- `n` calls.
unfoldable pub connect_times : ℕ → Targets → Run (List Target × Targets)
unfolding tx_tcp_connect_next
connect_times zero t = done ([], t)
connect_times (suc n) t =
    tx_tcp_connect_next t >>= λ r. connect_times n r.1 >>= λ q. done (r.0 ∷ q.0, q.1)
