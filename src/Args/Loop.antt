-- ===== src/Args/Loop.antt =====
-- The option loop itself, and what `main` (viamillipede.c) asserts behind it.
use viamillipede.Prelude.{ℕ, zero, suc, ◌&&◌, List, [], ◌∷◌, length, ltb, if◌then◌else◌}
use Prim.Native.String.{String}
use viamillipede.Prelude.Run.{Run, done, exit, abort, spent, ◌>>=◌}
use viamillipede.Args.Settings.{Numbers, Settings, defaults}
use viamillipede.Args.Handlers.{
  on, rx_option, tx_option, threads_option, verbose_option, checksums_option, delayus_option,
  checkphrase_option, terminate_option, initiate_option, charmode_option, prbs_option,
  leglimit_option,
}

-- `arg_cursor++`
abbrev pub step_past : List String → List String
step_past [] = []
step_past (_ ∷ rest) = rest

-- `checkperror`, and `terminate` and `initiate` exclude each other.
unfoldable pub check_settings : Settings → Run Settings
check_settings s =
    if s.errno
    then exit 4
    else if ltb 0 s.terminate_port && ltb 0 s.initiate_port
    then abort
    else done s

module _ (num : Numbers) where
  -- One round, up to `arg_cursor++`: the tests stand one behind the other, with no `else`.
  unfoldable pub options : Settings → Run Settings
  options s =
      on "rx" (rx_option num) s
      >>= on "tx" (tx_option num)
      >>= on "threads" (threads_option num)
      >>= on "verbose" (verbose_option num)
      >>= on "checksums" checksums_option
      >>= on "delayus" (delayus_option num)
      >>= on "checkphrase" (checkphrase_option num)
      >>= on "terminate" (terminate_option num)
      >>= on "initiate" (initiate_option num)
      >>= on "charmode" charmode_option
      >>= on "prbs" (prbs_option num)
      >>= on "leglimit" (leglimit_option num)

  -- The round starts with a `checkperror`.
  unfoldable pub round : Settings → Run Settings
  round s =
      if s.errno
      then exit 4
      else (options s >>= λ s'. done (record s' { args = step_past s'.args }))

  -- `while (arg_cursor < argc)`
  unfoldable pub option_loop : ℕ → Settings → Run Settings
  option_loop zero s = spent
  option_loop (suc fuel) s = elim s.args [ [] ↦ done s | _ ∷ _ ↦ round s >>= option_loop fuel ]

  -- Every round steps past one argument at least, so one round more than arguments is enough.
  unfoldable pub parse_args : List String → Run Settings
  parse_args argv = option_loop (suc (length argv)) (defaults argv) >>= check_settings
