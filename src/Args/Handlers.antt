-- ===== src/Args/Handlers.antt =====
-- The options of `main` (viamillipede.c), one function each. `chaos` is compiled in under CHAOS only.
use Prim.Native.String.{String}
use text.Mathlib.Text.{◌==◌}
use viamillipede.Prelude.{ℕ, true, none, some, List, [], ◌∷◌, length, ltb, ◌||◌, if◌then◌else◌}
use viamillipede.Prelude.Int.{ℤ}
use viamillipede.Prelude.Run.{Run, done, abort, fault}
use viamillipede.Wire.{kthreadmax}
use viamillipede.Args.Settings.{Numbers, Settings, port_of, few_workers, to_unsigned, to_int}

-- `if (strcmp(argv[arg_cursor], word) == 0) { … }`; `argv[argc]` is a null pointer.
unfoldable pub on_at : List String → String → (Settings → Run Settings) → Settings → Run Settings
on_at [] word handler s = fault
on_at (arg ∷ _) word handler s = if arg == word then handler s else done s

unfoldable pub on : String → (Settings → Run Settings) → Settings → Run Settings
unfolding on_at
on word handler s = on_at s.args word handler s

-- `assert(++arg_cursor < argc)`, and the argument there.
unfoldable pub value_at : List String → (String → List String → Run Settings) → Run Settings
value_at (_ ∷ value ∷ rest) use_it = use_it value (value ∷ rest)
value_at _ use_it = abort

unfoldable pub value : Settings → (String → List String → Run Settings) → Run Settings
unfolding value_at
value s use_it = value_at s.args use_it

-- `arg_cursor++` and the argument there, with no test.
unfoldable pub raw_at : List String → (String → List String → Run Settings) → Run Settings
raw_at (_ ∷ value ∷ rest) use_it = use_it value (value ∷ rest)
raw_at _ use_it = fault

-- `assert(0 < users_input_port && users_input_port < USHRT_MAX)`
unfoldable pub port : ℤ → (ℕ → Run Settings) → Run Settings
port n use_it = elim (port_of n) [ none ↦ abort | some p ↦ use_it p ]

module _ (num : Numbers) where
  open num use {atoi, strtoul}

  unfoldable pub rx_option : Settings → Run Settings
  unfolding value port
  rx_option s =
      value s
        (λ v at. port (atoi v) (λ p. done (record s { args = at; rx_port = p; mode_rx = true })))

  -- `target_ports` has `kthreadmax` entries.
  unfoldable pub tx_option : Settings → Run Settings
  unfolding value value_at port
  tx_option s = value s (λ host at.
      if host == ""
      then abort
      else if ltb (length s.target_ports) kthreadmax
      then value_at at (λ v at'. port (atoi v) (λ p.
        done (record s { args = at'; target_ports = (host, p) ∷ s.target_ports; mode_tx = true })))
      else fault)

  unfoldable pub threads_option : Settings → Run Settings
  unfolding value few_workers
  threads_option s = value s (λ v at.
      if few_workers (atoi v) then done (record s { args = at; worker_count = atoi v }) else abort)

  unfoldable pub verbose_option : Settings → Run Settings
  unfolding value
  verbose_option s = value s (λ v at. done (record s { args = at; gverbose = atoi v }))

  unfoldable pub delayus_option : Settings → Run Settings
  unfolding value
  delayus_option s =
      value s (λ v at. done (record s { args = at; gdelay_us = to_unsigned 64 (atoi v) }))

  unfoldable pub checkphrase_option : Settings → Run Settings
  unfolding value
  checkphrase_option s = value s (λ v at. done (record s { args = at; gcheckphrase = v }))

  unfoldable pub terminate_option : Settings → Run Settings
  unfolding value
  terminate_option s =
      value s (λ v at. done (record s { args = at; terminate_port = to_unsigned 32 (atoi v) }))

  unfoldable pub initiate_option : Settings → Run Settings
  unfolding raw_at
  initiate_option s = raw_at s.args (λ host at.
      if host == ""
      then abort
      else raw_at at (λ v at'.
        done
          (record s { args = at'; initiate_host = host; initiate_port = to_unsigned 16 (atoi v) })))

  unfoldable pub prbs_option : Settings → Run Settings
  unfolding value
  prbs_option s = value s (λ v at. done (record s {
    args = at;
    mode_prbs = true;
    gprbs_seed = (strtoul v).0;
    errno = s.errno || (strtoul v).1;
  }))

  unfoldable pub leglimit_option : Settings → Run Settings
  unfolding value
  leglimit_option s = value s (λ v at. done (record s {
    args = at;
    mode_prbs = true;
    gleg_limit = to_int (strtoul v).0;
    errno = s.errno || (strtoul v).1;
  }))

unfoldable pub checksums_option : Settings → Run Settings
checksums_option s = done (record s { gchecksums = true })

unfoldable pub charmode_option : Settings → Run Settings
charmode_option s = done (record s { gcharmode = true })
