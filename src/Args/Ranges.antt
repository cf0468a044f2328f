-- ===== src/Args/Ranges.antt =====
-- Every option of `main` (viamillipede.c) keeps the settings in range and goes on in `argv`.
use Prim.Native.String.{String}
use text.Mathlib.Text.{◌==◌}
use viamillipede.Prelude.{
  ℕ, ◌≤◌, ◌<◌, ◌≡◌, refl, true, Option, none, some, List, [], ◌∷◌, length, ltb, arith,
}
use viamillipede.Prelude.Int.{ℤ, pos, negsuc, ◌≤ℤ◌}
use viamillipede.Prelude.Run.{Run, done, abort, ◌>>=◌}
use viamillipede.Wire.{kthreadmax}
use viamillipede.Args.Settings.{Numbers, Settings, port_of, few_workers}
use viamillipede.Args.Handlers.{
  on, value_at, raw_at, port, rx_option, tx_option, threads_option, verbose_option,
  checksums_option, delayus_option, checkphrase_option, terminate_option, initiate_option,
  charmode_option, prbs_option, leglimit_option,
}
use viamillipede.Args.Ends.{Ensures, Ensures-bind, Ensures-on, Ensures-if}
use viamillipede.Args.Loop.{options}

abbrev pub IsPort : ℕ → Type 0
IsPort p = (0 < p) × (p < 65535)

abbrev pub AllPorts : List (String × ℕ) → Type 0
AllPorts [] = Unit {0}
AllPorts ((host, p) ∷ rest) = IsPort p × AllPorts rest

-- The settings are in range.
pub record IsSound (s : Settings) : Type 0 where
  pub workers : s.worker_count ≤ℤ pos 16
  pub few_targets : length s.target_ports ≤ kthreadmax
  pub ports : AllPorts s.target_ports
  pub receives : s.mode_rx ≡ true → IsPort s.rx_port
  pub sends : s.mode_tx ≡ true → 0 < length s.target_ports

-- Sound settings, with at least one and at most `n` arguments left.
pub record IsWithin (n : ℕ) (s : Settings) : Type 0 where
  pub sound : IsSound s
  pub some_left : 0 < length s.args
  pub few_left : length s.args ≤ n

port_of-IsPort : (n : ℤ) (p : ℕ) → port_of n ≡ some p → IsPort p
unfolding port_of
port_of-IsPort (pos n) p h = ground arith
port_of-IsPort (negsuc n) p h = absurd (cc)

Ensures-port :
    (P : Settings → Type 0) (n : ℤ) (use_it : ℕ → Run Settings)
    → ((p : ℕ) → IsPort p → Ensures P (use_it p))
    → Ensures P (port n use_it)
unfolding port
Ensures-port P n use_it h = go (port_of n) refl
  where
    go : (o : Option ℕ) → port_of n ≡ o → Ensures P (elim o [ none ↦ abort | some p ↦ use_it p ])
    go none e = tt
    go (some p) e = h p (port_of-IsPort n p e)

-- The value of an option is an argument further on.
Ensures-value :
    (P : Settings → Type 0) (at : List String) (use_it : String → List String → Run Settings)
    → ((v : String) (at' : List String)
        → 0 < length at'
        → length at' ≤ length at
        → Ensures P (use_it v at'))
    → Ensures P (value_at at use_it) × Ensures P (raw_at at use_it)
unfolding value_at raw_at
Ensures-value P [] use_it h = (tt, tt)
Ensures-value P (a ∷ []) use_it h = (tt, tt)
Ensures-value P (a ∷ v ∷ rest) use_it h =
    (h v (v ∷ rest) (omega arith) (omega arith), h v (v ∷ rest) (omega arith) (omega arith))

few_workers-le : (n : ℤ) → few_workers n ≡ true → n ≤ℤ pos 16
unfolding few_workers
few_workers-le (pos n) h = ground arith
few_workers-le (negsuc n) h = omega arith

module _ (num : Numbers) (n : ℕ) (s : Settings) (w : IsWithin n s) where
  open num use {atoi}

  -- Any other settings than the ones that `IsSound` is about.
  moved :
      (t : Settings) → IsSound t → 0 < length t.args → length t.args ≤ length s.args → IsWithin n t
  moved t ok more few = record {
    sound = ok;
    some_left = more;
    few_left = omega (arith, w.few_left);
  }

  -- An option with one value of any kind.
  one_value :
      (make : String → List String → Settings)
      → ((v : String) (at : List String) → IsSound (make v at) × ((make v at).args ≡ at))
      → Ensures (IsWithin n) (value_at s.args (λ v at. done (make v at)))
  one_value make ok =
      (Ensures-value (IsWithin n) s.args _ (λ v at more few.
        let (sound, here) = ok v at in moved _ sound (rw here more) (rw here few))).0

  rx_lem : Ensures (IsWithin n) (rx_option num s)
  unfolding rx_option
  rx_lem =
      (Ensures-value (IsWithin n) s.args _ (λ v at more few.
        Ensures-port (IsWithin n) (atoi v) _
          (λ p ok. moved _ (ground (arith, w.sound)) more few))).0

  tx_lem : Ensures (IsWithin n) (tx_option num s)
  unfolding tx_option
  tx_lem =
      (Ensures-value (IsWithin n) s.args _ (λ host at more few.
        Ensures-if (IsWithin n) (host == "") _ _ (λ e. tt)
          (λ e.
            Ensures-if (IsWithin n) (ltb (length s.target_ports) kthreadmax) _ _
              (λ room.
                (Ensures-value (IsWithin n) at _ (λ v at' more' few'.
                  Ensures-port (IsWithin n) (atoi v) _
                    (λ p ok. moved _ (ground (arith, w.sound)) more' (omega arith)))).0)
              (λ full. tt)))).0

  threads_lem : Ensures (IsWithin n) (threads_option num s)
  unfolding threads_option
  threads_lem =
      (Ensures-value (IsWithin n) s.args _ (λ v at more few.
        Ensures-if (IsWithin n) (few_workers (atoi v)) _ _
          (λ e. moved _ (ground (arith, w.sound, few_workers-le (atoi v) e)) more few) (λ e. tt))).0

  verbose_lem : Ensures (IsWithin n) (verbose_option num s)
  unfolding verbose_option
  verbose_lem = one_value _ (λ v at. (ground (arith, w.sound), refl))

  delayus_lem : Ensures (IsWithin n) (delayus_option num s)
  unfolding delayus_option
  delayus_lem = one_value _ (λ v at. (ground (arith, w.sound), refl))

  checkphrase_lem : Ensures (IsWithin n) (checkphrase_option num s)
  unfolding checkphrase_option
  checkphrase_lem = one_value _ (λ v at. (ground (arith, w.sound), refl))

  terminate_lem : Ensures (IsWithin n) (terminate_option num s)
  unfolding terminate_option
  terminate_lem = one_value _ (λ v at. (ground (arith, w.sound), refl))

  initiate_lem : Ensures (IsWithin n) (initiate_option num s)
  unfolding initiate_option
  initiate_lem =
      (Ensures-value (IsWithin n) s.args _ (λ host at more few.
        Ensures-if (IsWithin n) (host == "") _ _ (λ e. tt)
          (λ e.
            (Ensures-value (IsWithin n) at _
              (λ v at' more' few'. moved _ (ground (arith, w.sound)) more' (omega arith))).1))).1

  prbs_lem : Ensures (IsWithin n) (prbs_option num s)
  unfolding prbs_option
  prbs_lem = one_value _ (λ v at. (ground (arith, w.sound), refl))

  leglimit_lem : Ensures (IsWithin n) (leglimit_option num s)
  unfolding leglimit_option
  leglimit_lem = one_value _ (λ v at. (ground (arith, w.sound), refl))

  checksums_lem : Ensures (IsWithin n) (checksums_option s)
  unfolding checksums_option
  checksums_lem = moved _ (ground (arith, w.sound)) w.some_left (omega arith)

  charmode_lem : Ensures (IsWithin n) (charmode_option s)
  unfolding charmode_option
  charmode_lem = moved _ (ground (arith, w.sound)) w.some_left (omega arith)

module _ (num : Numbers) where
  -- A round keeps the settings sound and steps past an argument.
  pub options-IsWithin :
      (n : ℕ) (s : Settings) → IsWithin n s → Ensures (IsWithin n) (options num s)
  unfolding options
  options-IsWithin n s w =
      let m = on "rx" (rx_option num) s in
      let e = Ensures-on (IsWithin n) "rx" (rx_option num) s w (rx_lem num n s w) in
      let m0 = m >>= on "tx" (tx_option num) in
      let e0 = run "tx" (tx_option num) m (tx_lem num) e in
      let m1 = m0 >>= on "threads" (threads_option num) in
      let e1 = run "threads" (threads_option num) m0 (threads_lem num) e0 in
      let m2 = m1 >>= on "verbose" (verbose_option num) in
      let e2 = run "verbose" (verbose_option num) m1 (verbose_lem num) e1 in
      let m3 = m2 >>= on "checksums" checksums_option in
      let e3 = run "checksums" checksums_option m2 (checksums_lem num) e2 in
      let m4 = m3 >>= on "delayus" (delayus_option num) in
      let e4 = run "delayus" (delayus_option num) m3 (delayus_lem num) e3 in
      let m5 = m4 >>= on "checkphrase" (checkphrase_option num) in
      let e5 = run "checkphrase" (checkphrase_option num) m4 (checkphrase_lem num) e4 in
      let m6 = m5 >>= on "terminate" (terminate_option num) in
      let e6 = run "terminate" (terminate_option num) m5 (terminate_lem num) e5 in
      let m7 = m6 >>= on "initiate" (initiate_option num) in
      let e7 = run "initiate" (initiate_option num) m6 (initiate_lem num) e6 in
      let m8 = m7 >>= on "charmode" charmode_option in
      let e8 = run "charmode" charmode_option m7 (charmode_lem num) e7 in
      let m9 = m8 >>= on "prbs" (prbs_option num) in
      let e9 = run "prbs" (prbs_option num) m8 (prbs_lem num) e8 in
      run "leglimit" (leglimit_option num) m9 (leglimit_lem num) e9
    where
      run :
          (word : String) (handler : Settings → Run Settings) (m : Run Settings)
          → ((n' : ℕ) (t : Settings) → IsWithin n' t → Ensures (IsWithin n') (handler t))
          → Ensures (IsWithin n) m
          → Ensures (IsWithin n) (m >>= on word handler)
      run word handler m kept before =
          Ensures-bind (IsWithin n) (IsWithin n) m (on word handler) before
            (λ t w'. Ensures-on (IsWithin n) word handler t w' (kept n t w'))
