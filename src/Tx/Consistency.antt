-- ===== src/Tx/Consistency.antt =====
-- What the state letter of a worker says about where its thread stands.
use viamillipede.Prelude.{◌≡◌, ◌⊎◌, refl, Bool, List, ◌++◌, arith}
use viamillipede.Wire.{Leg}
use viamillipede.Tx.Worker.{
  TxState, launched, idle, dispatched, preamble, pushing, faulted, TxPc, starting, clearing, head,
  seen, in_push, pushed, exited, Txworker, action, announce, come_online, give_up, look, pass,
  begin_push, write_leg, release, unsent, TxMove, connect, clear, refuse, observe, idle_round,
  start_push, send, finish_push,
}

abbrev pub IsParked : TxState → Type 0
IsParked q = (q ≡ idle) ⊎ (q ≡ dispatched)

abbrev pub IsConsistentAt : TxPc → TxState → Type 0
IsConsistentAt starting q = q ≡ launched
IsConsistentAt clearing q = IsParked q
IsConsistentAt head q = IsParked q
IsConsistentAt (seen done l) q = ((l ≡ idle) × IsParked q) ⊎ ((l ≡ dispatched) × (q ≡ dispatched))
IsConsistentAt (in_push done) q = q ≡ preamble
IsConsistentAt (pushed done) q = q ≡ pushing
IsConsistentAt exited q = IsParked q ⊎ (q ≡ faulted)

abbrev pub IsConsistent : Txworker → Type 0
IsConsistent w = IsConsistentAt w.pc w.state

pub TxMove-IsConsistent :
    {d : Bool} {w w' : Txworker} {sent : List Leg}
    → TxMove d w w' sent
    → IsConsistent w
    → IsConsistent w'
unfolding announce come_online give_up look pass begin_push write_leg release action
TxMove-IsConsistent (connect e) ok = ground arith
TxMove-IsConsistent (clear e) ok = ground arith
TxMove-IsConsistent (refuse e) ok = ground arith
TxMove-IsConsistent (observe e) ok = ground arith
TxMove-IsConsistent (idle_round e a) ok = ground arith
TxMove-IsConsistent (start_push e a) ok = ground arith
TxMove-IsConsistent (send e) ok = ground arith
TxMove-IsConsistent (finish_push e) ok = ground arith

-- The worker has not been given a leg before it has reset its header.
abbrev pub IsCalmWorker : Txworker → Type 0
IsCalmWorker w = w.pc ≡ clearing → w.state ≡ idle

-- A worker sends what it had to send, once.
pub TxMove-unsent :
    {d : Bool} {w w' : Txworker} {sent : List Leg}
    → TxMove d w w' sent
    → IsConsistent w
    → IsCalmWorker w
    → sent ++ unsent w' ≡ unsent w
unfolding announce come_online give_up look pass begin_push write_leg release action
TxMove-unsent (connect e) ok calm = ground arith
TxMove-unsent (clear e) ok calm = ground arith
TxMove-unsent (refuse e) ok calm = ground arith
TxMove-unsent (observe e) ok calm = ground arith
TxMove-unsent (idle_round e a) ok calm = ground arith
TxMove-unsent (start_push e a) ok calm = ground arith
TxMove-unsent (send e) ok calm = ground arith
TxMove-unsent (finish_push e) ok calm = ground arith

-- Only the ingest thread can give a worker a leg before it has reset its header.
pub TxMove-IsCalmWorker :
    {d : Bool} {w w' : Txworker} {sent : List Leg}
    → TxMove d w w' sent
    → IsCalmWorker w
    → IsCalmWorker w'
unfolding announce come_online give_up look pass begin_push write_leg release
TxMove-IsCalmWorker (connect e) calm = λ _. refl
TxMove-IsCalmWorker (clear e) calm = λ c. ground arith
TxMove-IsCalmWorker (refuse e) calm = λ c. ground arith
TxMove-IsCalmWorker (observe e) calm = λ c. ground arith
TxMove-IsCalmWorker (idle_round {d} e a) calm = λ c. ground (arith, d)
TxMove-IsCalmWorker (start_push e a) calm = λ c. ground arith
TxMove-IsCalmWorker (send e) calm = λ c. ground arith
TxMove-IsCalmWorker (finish_push e) calm = λ c. ground arith

-- A worker that is idle stays so: only the ingest thread gives it work.
pub TxMove-idle :
    {d : Bool} {w w' : Txworker} {sent : List Leg}
    → TxMove d w w' sent
    → IsConsistent w
    → w.state ≡ idle
    → w'.state ≡ idle
unfolding announce come_online give_up look pass begin_push write_leg release action
TxMove-idle (connect e) ok q = ground arith
TxMove-idle (clear e) ok q = ground arith
TxMove-idle (refuse e) ok q = ground arith
TxMove-idle (observe e) ok q = ground arith
TxMove-idle (idle_round e a) ok q = ground arith
TxMove-idle (start_push e a) ok q = ground arith
TxMove-idle (send e) ok q = ground arith
TxMove-idle (finish_push e) ok q = ground arith
