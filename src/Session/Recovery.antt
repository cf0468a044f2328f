-- ===== src/Session/Recovery.antt =====
-- The recovery that `txworker_sm` (tx.c) has for a dead connection.
use viamillipede.Prelude.{ℕ, ◌≡◌, ◌≢◌, ◌⊎◌, Bool, List, arith}
use viamillipede.Wire.{Millipacket}
use viamillipede.Plumbing.Source.{Source}
use viamillipede.Tx.Worker.{
  TxState, TxPc, starting, clearing, in_push, pushed, exited, dead, seen, action, stay, push,
}
use viamillipede.Tx.Consistency.{IsConsistentAt}
use viamillipede.Tx.Ingest.{Config}
use viamillipede.Session.{Session, init, Steps, here, next}
use viamillipede.Session.Threads.{ThreadsOk, ThreadsOk-init, Step-ThreadsOk}

alive :
    (pc : TxPc) (q : TxState)
    → IsConsistentAt pc q
    → (q ≢ dead)
      × ((d : Bool) (l : TxState) → pc ≡ seen d l → (action l ≡ stay) ⊎ (action l ≡ push))
unfolding action
alive starting q c = (λ e. ground arith, λ d l e. absurd (cc))
alive clearing q c = (λ e. ground arith, λ d l e. absurd (cc))
alive TxPc.head q c = (λ e. ground arith, λ d l e. absurd (cc))
alive (seen d' l') q c = (λ e. ground arith, λ d l e. ground arith)
alive (in_push d') q c = (λ e. ground arith, λ d l e. absurd (cc))
alive (pushed d') q c = (λ e. ground arith, λ d l e. absurd (cc))
alive exited q c = (λ e. ground arith, λ d l e. absurd (cc))

module _ (src : Source) (cfg : Config) where
  pub Steps-ThreadsOk :
      {header : ℕ → Millipacket} {tx_buffer rx_buffer : ℕ → List ℕ} {input : src.State} {n : ℕ}
      {s : Session src cfg}
      → Steps src cfg (init src cfg header tx_buffer rx_buffer input) n s
      → ThreadsOk src cfg s
  Steps-ThreadsOk {header} {tx_buffer} {rx_buffer} {input} here =
      ThreadsOk-init src cfg header tx_buffer rx_buffer input
  Steps-ThreadsOk (next steps st) = Step-ThreadsOk src cfg st (Steps-ThreadsOk steps)

  -- In every state of a session a worker of the transmitter is not marked dead, and its thread has
  -- found it idle or with a leg to push: the branches of `txworker_sm` that reconnect and retry, or
  -- leave, are not reached.
  pub no_recovery :
      {header : ℕ → Millipacket} {tx_buffer rx_buffer : ℕ → List ℕ} {input : src.State} {n : ℕ}
      {s : Session src cfg}
      → Steps src cfg (init src cfg header tx_buffer rx_buffer input) n s
      → (i : ℕ)
      → ((s.tx i).state ≢ dead)
        × ((d : Bool) (l : TxState)
            → (s.tx i).pc ≡ seen d l
            → (action l ≡ stay) ⊎ (action l ≡ push))
  no_recovery steps i = alive _ _ ((Steps-ThreadsOk steps).consistent i)
