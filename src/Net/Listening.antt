-- ===== src/Net/Listening.antt =====
-- How `tcp_recieve_prep` (plumbing.c) ends.
use viamillipede.Prelude.{ℕ, ◌<◌, ◌≡◌, refl, sym, ap, ◌∙◌, ltb, ltb→lt, arith}
use viamillipede.Prelude.Int.{ℤ, pos}
use viamillipede.Net.Calls.{Calls, returns, so_reuseport, World}
use viamillipede.Net.Connect.{is_zero, tcp_recieve_prep}
use viamillipede.Net.Ends.{Ends, checked, asserted, failing, called, is_zero_lem}

module _ (sys : Calls) {X : Type 0} where
  open sys use {Host}

  -- The socket is bound to the port and listens.
  pub record IsListening (port : ℕ) (w : World Host X) (fd : ℤ) (w' : World Host X) : Type 0 where
    pub number : ℕ
    pub made : Host
    pub shared : Host
    pub placed : Host
    pub opened : sys.socket w.host ≡ (returns number, made)
    pub reused : (r : ℕ) × (sys.setsockopt fd so_reuseport 1 made ≡ (returns r, shared))
    pub bound : sys.bind fd sys.any port shared ≡ (returns 0, placed)
    pub listens : sys.listen fd 6 placed ≡ (returns 0, w'.host)
    pub numbered : fd ≡ pos number
    pub positive : 0 < number
    pub clean : w'.errno ≡ 0
    pub kept : w'.own ≡ w.own

  -- Where `errno` is clear, `tcp_recieve_prep` either returns with a socket above 0 that is bound to the
  -- port, may be reused and listens, or it ends the process by the status 4 or by a failed assertion.
  pub tcp_recieve_prep-IsListening :
      (port : ℕ) (w : World Host X)
      → w.errno ≡ 0
      → Ends (IsListening port w) (tcp_recieve_prep sys port w)
  unfolding tcp_recieve_prep
  tcp_recieve_prep-IsListening port w start =
      called (IsListening port w) sys.socket _ w
        (λ number made opened. asserted (IsListening port w) (ltb 0 number) _ _ λ positive.
          checked (IsListening port w) _ _ λ clean.
            called (IsListening port w) (sys.setsockopt (pos number) so_reuseport 1) _ _
              (λ r shared reused.
                called (IsListening port w) (sys.bind (pos number) sys.any port) _ _
                  (λ b placed bound. asserted (IsListening port w) (is_zero (pos b)) _ _ λ zero.
                    checked (IsListening port w) _ _ λ clean'.
                      called (IsListening port w) (sys.listen (pos number) 6) _ _
                        (λ l h listens. asserted (IsListening port w) (is_zero (pos l)) _ _ λ zero'.
                          record {
                            number = number;
                            made = made;
                            shared = shared;
                            placed = placed;
                            opened = opened;
                            reused = (r, reused);
                            bound =
                                bound ∙ ap (λ k. (returns k, placed)) (sym (is_zero_lem b zero));
                            listens =
                                listens ∙ ap (λ k. (returns k, h)) (sym (is_zero_lem l zero'));
                            numbered = refl;
                            positive = ltb→lt _ _ positive;
                            clean = clean;
                            kept = refl;
                          })
                        (λ e h listens. failing (IsListening port w) _ _))
                  (λ e h bound. failing (IsListening port w) _ _))
              (λ e shared reused.
                called (IsListening port w) (sys.bind (pos number) sys.any port) _ _
                  (λ b h bound.
                    asserted (IsListening port w) (is_zero (pos b)) _ _
                      λ zero. checked (IsListening port w) _ _ λ bad. absurd (omega (arith, bad)))
                  (λ e' h bound. failing (IsListening port w) _ _)))
        (λ e h opened. failing (IsListening port w) _ _)
