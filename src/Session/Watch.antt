-- ===== src/Session/Watch.antt =====
-- What the thread of `main` (viamillipede.c) sees of a session while it polls: it reads one thing at a
-- time, and between two reads the other threads take any number of steps.
use viamillipede.Prelude.{ℕ, zero, suc, ◌+◌, ◌≤◌, ◌-◌, ◌≡◌, subst, Bool, false, List, arith}
use viamillipede.Wire.{Leg}
use viamillipede.Plumbing.Source.{Source}
use viamillipede.Tx.Worker.{
  TxState, Txworker, TxMove, connect, clear, refuse, observe, idle_round, start_push, send,
  finish_push, tx_state, announce, come_online, give_up, look, pass, begin_push, write_leg, release,
  action,
}
use viamillipede.Tx.Consistency.{IsConsistent, TxMove-IsConsistent}
use viamillipede.Tx.Poll.{is_busy}
use viamillipede.Tx.Ingest.{Config, finished}
use viamillipede.Session.{Session, Step, ingest, transmit, receive, Steps, here, next}
use viamillipede.Session.Lost.{no_ingest}

-- A worker that is idle or faulted stays so: only the ingest thread gives it work.
pub TxMove-quiet :
    {d : Bool} {w w' : Txworker} {sent : List Leg}
    → TxMove d w w' sent
    → IsConsistent w
    → is_busy w.state ≡ false
    → is_busy w'.state ≡ false
unfolding is_busy announce come_online give_up look pass begin_push write_leg release action
TxMove-quiet (connect e) ok q = ground arith
TxMove-quiet (clear e) ok q = ground arith
TxMove-quiet (refuse e) ok q = ground arith
TxMove-quiet (observe e) ok q = ground arith
TxMove-quiet (idle_round e a) ok q = ground arith
TxMove-quiet (start_push e a) ok q = ground arith
TxMove-quiet (send e) ok q = ground arith
TxMove-quiet (finish_push e) ok q = ground arith

module _ (src : Source) (cfg : Config) where
  -- `at k` is the session at the read `k`.
  abbrev pub IsWatch : (ℕ → Session src cfg) → Type 0
  IsWatch at = (k : ℕ) → (m : ℕ) × Steps src cfg (at k) m (at (suc k))

  abbrev pub states : (ℕ → Session src cfg) → ℕ → ℕ → TxState
  states at k i = tx_state ((at k).tx i)

  abbrev pub eofs : (ℕ → Session src cfg) → ℕ → Bool
  eofs at k = (at k).txconf.input_eof

  module _ {ℓ} (P : Session src cfg → Type ℓ)
      (kept : (s t : Session src cfg) → Step src cfg s t → P s → P t) where
    pub Steps-kept : {s t : Session src cfg} {m : ℕ} → Steps src cfg s m t → P s → P t
    Steps-kept here p = p
    Steps-kept (next steps st) p = kept _ _ st (Steps-kept steps p)

    watched : (at : ℕ → Session src cfg) → IsWatch at → (k d : ℕ) → P (at k) → P (at (d + k))
    watched at watch k zero p = subst (λ (j : ℕ). P (at j)) (omega arith) p
    watched at watch k (suc d) p =
        let (m, steps) = watch (d + k) in
        subst (λ (j : ℕ). P (at j)) (omega arith) (Steps-kept steps (watched at watch k d p))

    -- What the steps keep holds at every read behind one at which it holds.
    pub IsWatch-kept :
        (at : ℕ → Session src cfg) → IsWatch at → (k j : ℕ) → k ≤ j → P (at k) → P (at j)
    IsWatch-kept at watch k j le p =
        subst (λ (i : ℕ). P (at i)) (omega arith) (watched at watch k (j - k) p)

  -- The ingest thread is at its end, and worker `i` is idle or faulted.
  pub record IsSettled (i : ℕ) (s : Session src cfg) : Type 0 where
    pub over : s.txconf.pc ≡ finished
    pub consistent : IsConsistent (s.tx i)
    pub quiet : is_busy (s.tx i).state ≡ false

  pub Step-IsSettled :
      (i : ℕ) (s t : Session src cfg) → Step src cfg s t → IsSettled i s → IsSettled i t
  Step-IsSettled i s t (ingest m) l = absurd (no_ingest src cfg m l.over)
  Step-IsSettled i s t (transmit j {w} lt m) l = record {
    over = l.over;
    consistent = ground (arith, TxMove-IsConsistent m, l.consistent);
    quiet = ground (arith, TxMove-quiet m, l.consistent, l.quiet);
  }
  Step-IsSettled i s t (receive j lt m) l = record {
    over = l.over;
    consistent = l.consistent;
    quiet = l.quiet;
  }

  pub Step-finished :
      (s t : Session src cfg) → Step src cfg s t → s.txconf.pc ≡ finished → t.txconf.pc ≡ finished
  Step-finished s t (ingest m) e = absurd (no_ingest src cfg m e)
  Step-finished s t (transmit j lt m) e = e
  Step-finished s t (receive j lt m) e = e
