-- ===== src/Net/Connected.antt =====
-- How `tcp_connect` (plumbing.c) ends.
use viamillipede.Prelude.{
  ℕ, ◌<◌, ◌≡◌, refl, sym, subst, ◌∙◌, Option, none, some, List, ltb, ltb→lt, arith,
}
use viamillipede.Prelude.Int.{ℤ, pos}
use viamillipede.Net.Calls.{Calls, returns, so_error, World, M, andthen, ◌>>=◌}
use viamillipede.Net.Connect.{
  is_zero, resolve, located, open_socket, is_sound, tcp_geterr, attach, tcp_connect,
}
use viamillipede.Net.Ends.{
  Ends, Ends->>=, Ends-map, asserted_last, checked, passed, asserted, called, is_zero_lem,
}

module _ (sys : Calls) {X : Type 0} where
  open sys use {Host, Address}

  -- A lookup, a new socket, its connection and a sound state of it are all that the host is asked for:
  -- no option of the socket is set.
  pub record IsConnected (host : List ℕ) (port : ℕ) (w : World Host X) (fd : ℤ) (w' : World Host X)
      : Type 0 where
    pub address : Address
    pub number : ℕ
    pub found : Host
    pub made : Host
    pub joined : Host
    pub resolved : sys.gethostbyname host w.host ≡ (some address, found)
    pub opened : sys.socket found ≡ (returns number, made)
    pub connected : sys.connect fd address port made ≡ (returns 0, joined)
    pub sound : sys.getsockopt fd so_error joined ≡ (returns 0, w'.host)
    pub numbered : fd ≡ pos number
    pub positive : 0 < number
    pub clean : w'.errno ≡ 0
    pub kept : w'.own ≡ w.own

  pub looked_up :
      {B : Type 0} (Q : B → World Host X → Type 0) (host : List ℕ) (k : Address → M Host X B)
      (w : World Host X)
      → ((a : Address) (h : Host)
          → sys.gethostbyname host w.host ≡ (some a, h)
          → Ends Q (k a (record w { host = h })))
      → Ends Q ((resolve sys host >>= k) w)
  unfolding resolve located ◌>>=◌
  looked_up Q host k w good = by_lookup (sys.gethostbyname host w.host) refl
    where
      by_lookup :
          (r : Option Address × Host)
          → sys.gethostbyname host w.host ≡ r
          → Ends Q (andthen (located sys w r) k)
      by_lookup (none, h) e = tt
      by_lookup (some a, h) e = good a h e

  -- A new socket, that the host has just given.
  abbrev pub IsOpened : World Host X → ℤ → World Host X → Type 0
  IsOpened w fd w' =
      (n : ℕ) × (fd ≡ pos n)
      × (0 < n)
      × (sys.socket w.host ≡ (returns n, w'.host))
      × (w'.errno ≡ 0)
      × (w'.own ≡ w.own)

  pub open_socket-Ends : (w : World Host X) → w.errno ≡ 0 → Ends (IsOpened w) (open_socket sys w)
  unfolding open_socket
  open_socket-Ends w start =
      called (IsOpened w) sys.socket _ w
        (λ n h opened. checked (IsOpened w) _ _ λ clean.
          asserted (IsOpened w) (ltb 0 n) _ _
            λ positive. (n, refl, ltb→lt _ _ positive, opened, clean, refl))
        (λ e h opened. checked (IsOpened w) _ _ λ clean. absurd (omega (arith, clean)))

  tcp_geterr-Ends :
      (fd : ℤ) (w : World Host X)
      → Ends
          (λ v w'.
            (n : ℕ) × (v ≡ pos n)
            × (sys.getsockopt fd so_error w.host ≡ (returns n, w'.host))
            × (w'.errno ≡ 0)
            × (w'.own ≡ w.own))
          (tcp_geterr sys fd w)
  unfolding tcp_geterr
  tcp_geterr-Ends fd w =
      called _ (sys.getsockopt fd so_error) _ w
        (λ n h e. checked _ _ _ λ clean. (n, refl, e, clean, refl))
        (λ n h e. checked _ _ _ λ clean. absurd (omega (arith, clean)))

  -- The pending error of the socket is read, and there is none.
  abbrev pub IsSound : ℤ → World Host X → Unit {0} → World Host X → Type 0
  IsSound fd w _ w' =
      (sys.getsockopt fd so_error w.host ≡ (returns 0, w'.host)) × (w'.errno ≡ 0) × (w'.own ≡ w.own)

  is_sound-Ends : (fd : ℤ) (w : World Host X) → Ends (IsSound fd w) (is_sound sys fd w)
  unfolding is_sound
  is_sound-Ends fd w =
      Ends->>= (IsSound fd w) (tcp_geterr sys fd) _ w (tcp_geterr-Ends fd w)
        λ v w' (n, value, e, clean, kept). asserted_last (IsSound fd w) (is_zero v) w' λ zero. (
          subst (λ k. sys.getsockopt fd so_error w.host ≡ (returns k, w'.host))
              (sym (is_zero_lem n (rw value at zero))) e,
          clean,
          kept,
        )

  abbrev pub IsAttached : ℤ → Address → ℕ → World Host X → ℤ → World Host X → Type 0
  IsAttached fd address port w fd' w' =
      (joined : Host) × (fd' ≡ fd)
      × (sys.connect fd address port w.host ≡ (returns 0, joined))
      × (sys.getsockopt fd so_error joined ≡ (returns 0, w'.host))
      × (w'.errno ≡ 0)
      × (w'.own ≡ w.own)

  attach-Ends :
      (fd : ℤ) (address : Address) (port : ℕ) (w : World Host X)
      → w.errno ≡ 0
      → Ends (IsAttached fd address port w) (attach sys fd address port w)
  unfolding attach
  attach-Ends fd address port w start =
      called (IsAttached fd address port w) (sys.connect fd address port) _ w
        (λ n h joined. rw (sys.connect-zero fd address port w.host h n joined) (
          Ends->>= (IsAttached fd address port w) (is_sound sys fd) _ (record w { host = h })
            (is_sound-Ends fd (record w { host = h }))
            λ _ w₁ (sound, clean, kept). checked (IsAttached fd address port w) _ w₁ λ _.
              passed (IsAttached fd address port w) _ w₁ (
                checked (IsAttached fd address port w) _ w₁ λ _. (
                  h,
                  refl,
                  rw (← sys.connect-zero fd address port w.host h n joined) joined,
                  sound,
                  clean,
                  kept,
                ))))
        (λ e h joined.
          passed (IsAttached fd address port w) _ _
            (checked (IsAttached fd address port w) _ _ λ clean. absurd (omega (arith, clean))))

  -- Where `errno` is clear, `tcp_connect` either returns a descriptor above 0 that is connected to the
  -- host and the port, with no pending error and with no option of the socket set, or it ends the
  -- process by the status 4 or by a failed assertion: it never returns -1.
  pub tcp_connect-IsConnected :
      (host : List ℕ) (port : ℕ) (w : World Host X)
      → w.errno ≡ 0
      → Ends (IsConnected host port w) (tcp_connect sys host port w)
  unfolding tcp_connect
  tcp_connect-IsConnected host port w start =
      looked_up (IsConnected host port w) host _ w λ address found resolved.
        Ends->>= (IsConnected host port w) (open_socket sys) _ (record w { host = found })
          (open_socket-Ends (record w { host = found }) start)
          λ fd w₁ (number, numbered, positive, opened, clean, kept).
            Ends-map (IsConnected host port w) _ (attach-Ends fd address port w₁ clean)
              λ fd' w₂ (joined, same, connected, sound, clean', kept'). record {
                address = address;
                number = number;
                found = found;
                made = w₁.host;
                joined = joined;
                resolved = resolved;
                opened = opened;
                connected = rw same connected;
                sound = rw same sound;
                numbered = same ∙ numbered;
                positive = positive;
                clean = clean';
                kept = kept' ∙ kept;
              }
