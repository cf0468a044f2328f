-- ===== src/Rx/Start/Phrase.antt =====
-- The exchange of the check phrase, at both ends.
use mathlib.Core.Bool.{false≢true}
use viamillipede.Prelude.{
  ℕ, ◌+◌, ◌≤◌, ◌≡◌, ◌≢◌, ◌⊎◌, subst, ◌∙◌, refl, sym, ap₂, Bool, true, false, Bool-cases, inl, inr,
  List, [], ◌∷◌, ◌++◌, length, overwrite, ◌==◌, ==_iff, ==_refl, arith,
}
use viamillipede.Prelude.Int.{ℤ, pos}
use viamillipede.Net.Calls.{
  Calls, returns, World, returned, ended, aborted, ◌>>=◌, assert, checkperror, call, fetch,
  exit_with,
}
use viamillipede.Net.Connect.{tcp_accept}
use viamillipede.Tx.Status.{txstatus, txstatus-quiet}
use viamillipede.Tx.Start.{Dialer, begins_with, okphrase, unlock, exchange}
use viamillipede.Rx.Start.{Greeter, put_accepted, put_bytes, check_phrase, accept_worker}

begins_with-same : (p rest : List ℕ) → begins_with p (p ++ rest) ≡ true
unfolding begins_with
begins_with-same [] rest = refl
begins_with-same (x ∷ p) rest = rw (==_refl x) (begins_with-same p rest)

begins_with-eq :
    (p s rest : List ℕ) → length p ≡ length s → begins_with p (s ++ rest) ≡ true → p ≡ s
unfolding begins_with
begins_with-eq [] [] rest len e = refl
begins_with-eq [] (y ∷ s) rest len e = absurd (omega (arith, len))
begins_with-eq (x ∷ p) [] rest len e = absurd (omega (arith, len))
begins_with-eq (x ∷ p) (y ∷ s) rest len e = elim (Bool-cases (x == y)) [
  | inl q ↦
      ap₂ (λ (a : ℕ) l. a ∷ l) ((==_iff x y).0 q)
        (begins_with-eq p s rest (omega (arith, len)) (rw q at e))
  | inr q ↦ absurd (false≢true (rw q at e))
]

-- Over a buffer, whatever stands behind what was read.
over_buffer :
    (p s buffer : List ℕ)
    → length p ≡ length s
    → ((s ≡ p) × (begins_with p (overwrite buffer 0 s) ≡ true))
      ⊎ ((s ≢ p) × (begins_with p (overwrite buffer 0 s) ≡ false))
unfolding overwrite
over_buffer p s buffer len = elim (Bool-cases (begins_with p (overwrite buffer 0 s))) [
  | inl hit ↦ inl (sym (begins_with-eq p s _ len hit), hit)
  | inr miss ↦ inr (
    λ e. false≢true (
        sym miss
        ∙ subst (λ l. begins_with p (overwrite buffer 0 l) ≡ true) (sym e) (begins_with-same p _)),
    miss,
  )
]

-- On a connection that the host accepts, and that delivers four bytes: the receiver answers "ok" and
-- goes on, with the four bytes at the front of its buffer, if they are its check phrase, and leaves the
-- process with EDOM if they are not.
pub accept_worker-phrase :
    (sys : Calls) (edom enotconn : ℕ) (checkphrase sent : List ℕ) (socknum : ℤ) (n : ℕ)
    (w : World sys.Host Greeter) (h₁ h₂ h₃ : sys.Host)
    → w.errno ≡ 0
    → length checkphrase ≡ length sent
    → sys.accept socknum w.host ≡ (returns n, h₁)
    → sys.read (pos n) 4 h₁ ≡ ((returns 4, sent), h₂)
    → sys.write (pos n) okphrase h₂ ≡ (returns 2, h₃)
    → ((sent ≡ checkphrase)
        × (accept_worker sys edom enotconn checkphrase socknum w
            ≡ returned tt (record w {
              host = h₃;
              own = record {
                sockfd = pos n;
                workercount = w.own.workercount + 1;
                buffer = overwrite w.own.buffer 0 sent;
              };
            })))
      ⊎ ((sent ≢ checkphrase)
          × (accept_worker sys edom enotconn checkphrase socknum w ≡ ended edom))
unfolding accept_worker tcp_accept put_accepted put_bytes check_phrase assert exit_with checkperror
    call fetch ◌>>=◌
accept_worker-phrase sys edom enotconn checkphrase sent socknum n w h₁ h₂ h₃ clean len accepted
      arrived answered =
    let clear : (w.errno == 0) ≡ true = (==_iff w.errno 0).1 clean in
    elim (over_buffer checkphrase sent w.own.buffer len) [
      | inl (e, hit) ↦ inl (e, rw (accepted, clear, arrived, hit, clear, answered, clear) refl)
      | inr (ne, miss) ↦ inr (ne, rw (accepted, clear, arrived, miss) refl)
    ]

-- With a verbosity of at most 7, on a connection that takes the four bytes of the check phrase, and
-- that delivers two bytes: the
-- transmitter goes on, with the mutex of its worker unlocked, if they are "ok", and fails the assertion
-- if they are not.
pub exchange-reply :
    (sys : Calls) (take_done : sys.Host → Bool × sys.Host) (gverbose : ℕ) (sfds : List ℤ)
    (checkphrase readback reply : List ℕ) (sockfd : ℤ) (w : World sys.Host Dialer)
    (h₁ h₂ : sys.Host)
    → w.errno ≡ 0
    → gverbose ≤ 7
    → length reply ≡ 2
    → sys.write sockfd checkphrase w.host ≡ (returns 4, h₁)
    → sys.read sockfd 2 h₁ ≡ ((returns 2, reply), h₂)
    → ((reply ≡ okphrase)
        × (exchange sys take_done gverbose sfds checkphrase readback sockfd w
            ≡ returned (pos 2) (record w { host = h₂; own = record w.own { locked = false } })))
      ⊎ ((reply ≢ okphrase)
          × (exchange sys take_done gverbose sfds checkphrase readback sockfd w ≡ aborted))
unfolding exchange unlock assert checkperror call fetch ◌>>=◌
exchange-reply sys take_done gverbose sfds checkphrase readback reply sockfd w h₁ h₂ clean low len
      written answered =
    let clear : (w.errno == 0) ≡ true = (==_iff w.errno 0).1 clean in
    let quiet : txstatus sys gverbose 7 sfds (record w { host = h₂ })
        ≡ returned tt (record w { host = h₂ }) =
      txstatus-quiet sys gverbose 7 sfds (record w { host = h₂ }) clean low in
    elim (over_buffer okphrase reply readback (sym len)) [
      | inl (e, hit) ↦ inl (e, rw (written, clear, answered, clear, hit, quiet) refl)
      | inr (ne, miss) ↦ inr (ne, rw (written, clear, answered, clear, miss) refl)
    ]
