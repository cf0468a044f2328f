-- ===== src/Tx/Start/Once.antt =====
-- The connection of a worker that starts.
use viamillipede.Prelude.{ℕ, ◌≡◌, refl, sym, subst, Bool, Bool-cases, inl, inr, List}
use viamillipede.Prelude.Int.{ℤ, pos}
use viamillipede.Prelude.Run.{Run, done, exit, abort, fault, spent}
use viamillipede.Tx.Worker.{connecting}
use viamillipede.Tx.Targets.{Target, Targets, tx_tcp_connect_next}
use viamillipede.Net.Calls.{
  Calls, World, Act, returned, retired, blocked, ended, aborted, faulted, M, ◌>>=◌, andthen,
}
use viamillipede.Net.Ends.{Ends}
use viamillipede.Net.Connected.{tcp_connect-IsConnected}
use viamillipede.Tx.Start.{
  Dialer, lock, unlock, put_state, tx_state_set, put_sockfd, dial, connect_next, reconnect,
  settle_net, greet, tx_start_net,
}

-- Where the piece returns, `P` holds.
abbrev Returns : {H X A : Type 0} → (A → World H X → Type 0) → Act H X A → Type 0
Returns P (returned a w) = P a w
Returns P _ = Unit

Ends-Returns :
    {H X A : Type 0} {P : A → World H X → Type 0} (Q : A → World H X → Type 0) (r : Act H X A)
    → Ends P r
    → ((a : A) (w : World H X) → P a w → Q a w)
    → Returns Q r
Ends-Returns Q (returned a w) p f = f a w p
Ends-Returns Q (retired w) p f = tt
Ends-Returns Q (blocked w) p f = tt
Ends-Returns Q (ended code) p f = tt
Ends-Returns Q aborted p f = tt
Ends-Returns Q faulted p f = tt

>>=-same :
    {H X A B : Type 0} (P : A → World H X → Type 0) (m : M H X A) (k k' : A → M H X B)
    (w : World H X)
    → Returns P (m w)
    → ((a : A) (w' : World H X) → P a w' → k a w' ≡ k' a w')
    → (m >>= k) w ≡ (m >>= k') w
unfolding ◌>>=◌
>>=-same {H} {X} {A} {B} P m k k' w first next = by_end (m w) first
  where
    by_end : (r : Act H X A) → Returns P r → andthen r k ≡ andthen r k'
    by_end (returned a w') p = next a w' p
    by_end (retired w') p = refl
    by_end (blocked w') p = refl
    by_end (ended code) p = refl
    by_end aborted p = refl
    by_end faulted p = refl

module _ (sys : Calls) (take_done : sys.Host → Bool × sys.Host) where
  open sys use {Host}

  tx_state_set-errno :
      (w : World Host Dialer)
      → w.errno ≡ 0
      → Returns (λ _ w'. w'.errno ≡ 0) (tx_state_set sys take_done connecting w)
  unfolding tx_state_set lock unlock put_state ◌>>=◌
  tx_state_set-errno w clean = elim (Bool-cases w.own.locked) [
    | inl e ↦ rw e tt
    | inr e ↦ rw e clean
  ]

  -- What `connect_next` returns is a connected descriptor.
  abbrev IsNumbered : ℤ → World Host Dialer → Type 0
  IsNumbered fd w = (n : ℕ) × (fd ≡ pos n)

  connect_next-IsNumbered :
      (w : World Host Dialer) → w.errno ≡ 0 → Returns IsNumbered (connect_next sys take_done w)
  unfolding connect_next dial
  connect_next-IsNumbered w clean = by_choice (tx_tcp_connect_next w.own.targets)
    where
      by_choice : (r : Run (Target × Targets)) → Returns IsNumbered (dial sys take_done r w)
      by_choice (done (x, t)) =
          Ends-Returns IsNumbered _
            (tcp_connect-IsConnected sys x.name x.port
              (record w { own = record w.own { targets = t } }) clean)
            (λ fd w' c. (c.number, c.numbered))
      by_choice (exit code) = tt
      by_choice abort = tt
      by_choice fault = tt
      by_choice spent = tt

  connected_once :
      (next : M Host Dialer ℤ) (rest : M Host Dialer ℤ) (fd : ℤ) (w : World Host Dialer)
      → IsNumbered fd w
      → (put_sockfd sys take_done fd >>= λ _. settle_net sys take_done next >>= λ _. rest) w
        ≡ (put_sockfd sys take_done fd >>= λ _. rest) w
  unfolding put_sockfd settle_net reconnect ◌>>=◌
  connected_once next rest fd w (n, e) =
      subst
        (λ f.
          (put_sockfd sys take_done f >>= λ _. settle_net sys take_done next >>= λ _. rest) w
          ≡ (put_sockfd sys take_done f >>= λ _. rest) w)
        (sym e) refl

  -- From a state in which `errno` is clear, `tx_start_net` does what one call of `tx_tcp_connect_next`
  -- with `tcp_connect`, and the exchange of the check phrase behind it, do: the loop that is meant to
  -- connect again is never entered and the fuse never pops, whatever the socket calls answer.
  pub tx_start_net-once :
      (gverbose : ℕ) (sfds : List ℤ) (checkphrase readback : List ℕ) (w : World Host Dialer)
      → w.errno ≡ 0
      → tx_start_net sys take_done gverbose sfds checkphrase readback w
        ≡ (tx_state_set sys take_done connecting >>= λ _. connect_next sys take_done >>= λ fd.
              put_sockfd sys take_done fd >>= λ _.
              greet sys take_done gverbose sfds checkphrase readback)
            w
  unfolding tx_start_net
  tx_start_net-once gverbose sfds checkphrase readback w clean =
      >>=-same (λ _ w'. w'.errno ≡ 0) (tx_state_set sys take_done connecting) _ _ w
        (tx_state_set-errno w clean)
        λ _ w' clean'.
          >>=-same IsNumbered (connect_next sys take_done) _ _ w'
            (connect_next-IsNumbered w' clean')
            λ fd w'' numbered.
              connected_once (connect_next sys take_done)
                (greet sys take_done gverbose sfds checkphrase readback) fd w'' numbered
