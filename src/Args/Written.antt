-- ===== src/Args/Written.antt =====
-- A command line that is written from a list of options, and what `main` (viamillipede.c) makes of it.
use Prim.Native.String.{String}
use viamillipede.Prelude.{
  ℕ, zero, suc, ◌≤◌, ◌<◌, ◌≡◌, refl, ◌∙◌, false, List, [], ◌∷◌, ◌++◌, length, length-append, ltb,
  ◌&&◌, arith,
}
use viamillipede.Prelude.Run.{done}
use viamillipede.Args.Settings.{Numbers, Settings, defaults}
use viamillipede.Args.Handlers.{on}
use viamillipede.Args.Loop.{options, round, option_loop, check_settings, parse_args}
use viamillipede.Args.Items.{
  Item, tx_item, initiate_item, checksums_item, charmode_item, words, IsPlain, meant, Fits,
}
use viamillipede.Args.Rounds.{round-meant}

check_settings_lem :
    (s : Settings)
    → s.errno ≡ false
    → (ltb 0 s.terminate_port && ltb 0 s.initiate_port) ≡ false
    → check_settings s ≡ done s
unfolding check_settings
check_settings_lem s e one_role = rw (e, one_role) refl

abbrev pub written : List Item → List String
written [] = []
written (i ∷ items) = words i ++ written items

length-words : (i : Item) → 0 < length (words i)
length-words (tx_item h v) = omega arith
length-words (initiate_item h v) = omega arith
length-words checksums_item = omega arith
length-words charmode_item = omega arith
length-words _ = omega arith

length-written : (items : List Item) → length items ≤ length (written items)
length-written [] = omega arith
length-written (i ∷ items) =
    omega (arith, length-words i, length-written items, length-append (words i) (written items))

module _ (num : Numbers) where
  -- The options one after the other.
  abbrev pub meant_all : List Item → Settings → Settings
  meant_all [] s = s
  meant_all (i ∷ items) s = meant_all items (meant num i s)

  abbrev pub AllFit : List Item → Settings → Type 0
  AllFit [] s = Unit {0}
  AllFit (i ∷ items) s = Fits num i s × AllFit items (meant num i s)

  errno-meant : (i : Item) (s : Settings) → (meant num i s).errno ≡ s.errno
  unfolding meant
  errno-meant (tx_item h v) s = refl
  errno-meant (initiate_item h v) s = refl
  errno-meant checksums_item s = refl
  errno-meant charmode_item s = refl
  errno-meant _ s = refl

  errno-meant_all : (items : List Item) (s : Settings) → (meant_all items s).errno ≡ s.errno
  errno-meant_all [] s = refl
  errno-meant_all (i ∷ items) s = errno-meant_all items (meant num i s) ∙ errno-meant i s

  step_lem :
      (fuel : ℕ) (s t : Settings) (a : String) (rest : List String)
      → round num (record s { args = a ∷ rest }) ≡ done t
      → option_loop num (suc fuel) (record s { args = a ∷ rest }) ≡ option_loop num fuel t
  unfolding option_loop
  step_lem fuel s t a rest e = rw e refl

  -- `words i` is not empty, so the loop makes a round.
  item_lem :
      (fuel : ℕ) (i : Item) (s t : Settings) (rest : List String)
      → round num (record s { args = words i ++ rest }) ≡ done t
      → option_loop num (suc fuel) (record s { args = words i ++ rest }) ≡ option_loop num fuel t
  item_lem fuel (tx_item h v) s t rest e = step_lem fuel s t _ _ e
  item_lem fuel (initiate_item h v) s t rest e = step_lem fuel s t _ _ e
  item_lem fuel checksums_item s t rest e = step_lem fuel s t _ _ e
  item_lem fuel charmode_item s t rest e = step_lem fuel s t _ _ e
  item_lem fuel _ s t rest e = step_lem fuel s t _ _ e

  option_loop-written :
      (fuel : ℕ) (items : List Item) (s : Settings)
      → length items < fuel
      → AllFit items s
      → s.errno ≡ false
      → option_loop num fuel (record s { args = written items })
        ≡ done (record (meant_all items s) { args = [] })
  option_loop-written zero items s enough fits ok = absurd (omega arith)
  option_loop-written (suc fuel) [] s enough fits ok = unfold option_loop in refl
  option_loop-written (suc fuel) (i ∷ items) s enough (fit, fits) ok =
      item_lem fuel i s _ (written items) (round-meant num i s (written items) fit ok)
      ∙ option_loop-written fuel items (meant num i s) (omega arith) fits (errno-meant i s ∙ ok)

  -- The name of the program is tested like every other argument.
  round-IsPlain :
      (program : String) (s : Settings) (rest : List String)
      → IsPlain program
      → s.errno ≡ false
      → round num (record s { args = program ∷ rest }) ≡ done (record s { args = rest })
  unfolding round options on
  round-IsPlain program s rest p ok =
      rw
        (
          ok, p.not_rx, p.not_tx, p.not_threads, p.not_verbose, p.not_checksums, p.not_delayus,
          p.not_checkphrase, p.not_terminate, p.not_initiate, p.not_charmode, p.not_prbs,
          p.not_leglimit,
        )
        refl

  -- A command line that is written from options with values that they accept, behind a program name
  -- that is no option, and not with both `terminate` and `initiate`, is accepted, and the settings are
  -- what the options mean, in their order.
  pub parse_args-written :
      (program : String) (items : List Item)
      → IsPlain program
      → AllFit items (defaults [])
      → (ltb 0 (meant_all items (defaults [])).terminate_port
          && ltb 0 (meant_all items (defaults [])).initiate_port)
        ≡ false
      → parse_args num (program ∷ written items)
        ≡ done (record (meant_all items (defaults [])) { args = [] })
  unfolding parse_args
  parse_args-written program items plain fits one_role =
      rw
        (
          step_lem (suc (length (written items))) (defaults []) _ program (written items)
              (round-IsPlain program (defaults []) (written items) plain refl),
          option_loop-written (suc (length (written items))) items (defaults [])
              (omega (arith, length-written items)) fits refl,
        )
        (check_settings_lem _ (errno-meant_all items (defaults [])) one_role)
