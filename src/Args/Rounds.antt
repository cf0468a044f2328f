-- ===== src/Args/Rounds.antt =====
-- One round of the option loop of `main` (viamillipede.c) on an option that is written out.
use Prim.Native.String.{String}
use viamillipede.Prelude.{ℕ, ◌≡◌, refl, true, false, some, List, ◌++◌, length, ltb, arith}
use viamillipede.Prelude.Int.{ℤ}
use viamillipede.Prelude.Run.{Run, done}
use viamillipede.Wire.{kthreadmax}
use viamillipede.Args.Settings.{Numbers, Settings, port_of}
use viamillipede.Args.Handlers.{
  on, port, rx_option, tx_option, threads_option, verbose_option, checksums_option, delayus_option,
  checkphrase_option, terminate_option, initiate_option, charmode_option, prbs_option,
  leglimit_option,
}
use viamillipede.Args.Loop.{options, round}
use viamillipede.Args.Items.{
  Item, rx_item, threads_item, verbose_item, delayus_item, checkphrase_item, terminate_item,
  prbs_item, leglimit_item, tx_item, initiate_item, checksums_item, charmode_item, words,
  port_or_zero, meant, Fits,
}

port_or_zero_lem : (n : ℤ) (p : ℕ) → port_of n ≡ some p → port_or_zero n ≡ p
unfolding port_or_zero
port_or_zero_lem n p e = rw (e, port_or_zero) refl

port_lem :
    (n : ℤ) (p : ℕ) → port_of n ≡ some p → (use_it : ℕ → Run Settings) → port n use_it ≡ use_it p
unfolding port
port_lem n p e use_it = rw (e, port) refl

module _ (num : Numbers) where
  open num use {atoi}

  pub round-meant :
      (i : Item) (s : Settings) (rest : List String)
      → Fits num i s
      → s.errno ≡ false
      → round num (record s { args = words i ++ rest })
        ≡ done (record (meant num i s) { args = rest })
  unfolding round options on meant rx_option tx_option threads_option verbose_option
      checksums_option delayus_option checkphrase_option terminate_option initiate_option
      charmode_option prbs_option leglimit_option
  round-meant checksums_item s rest f ok = rw ok refl
  round-meant charmode_item s rest f ok = rw ok refl
  round-meant (rx_item v) s rest (q, p, e) ok =
      rw
        (
          ok,
          port_lem (atoi v) p e,
          port_or_zero_lem (atoi v) p e,
          q.not_tx,
          q.not_threads,
          q.not_verbose,
          q.not_checksums,
          q.not_delayus,
          q.not_checkphrase,
          q.not_terminate,
          q.not_initiate,
          q.not_charmode,
          q.not_prbs,
          q.not_leglimit,
        )
        refl
  round-meant (tx_item host v) s rest (q, named, room, p, e) ok =
      let below : ltb (length s.target_ports) kthreadmax ≡ true = ground arith in
      rw
        (
          ok,
          named,
          below,
          port_lem (atoi v) p e,
          port_or_zero_lem (atoi v) p e,
          q.not_threads,
          q.not_verbose,
          q.not_checksums,
          q.not_delayus,
          q.not_checkphrase,
          q.not_terminate,
          q.not_initiate,
          q.not_charmode,
          q.not_prbs,
          q.not_leglimit,
        )
        refl
  round-meant (threads_item v) s rest (q, few) ok =
      rw
        (
          ok, few, q.not_verbose, q.not_checksums, q.not_delayus, q.not_checkphrase,
          q.not_terminate, q.not_initiate, q.not_charmode, q.not_prbs, q.not_leglimit,
        )
        refl
  round-meant (verbose_item v) s rest q ok =
      rw
        (
          ok, q.not_checksums, q.not_delayus, q.not_checkphrase, q.not_terminate, q.not_initiate,
          q.not_charmode, q.not_prbs, q.not_leglimit,
        )
        refl
  round-meant (delayus_item v) s rest q ok =
      rw
        (
          ok, q.not_checkphrase, q.not_terminate, q.not_initiate, q.not_charmode, q.not_prbs,
          q.not_leglimit,
        )
        refl
  round-meant (checkphrase_item v) s rest q ok =
      rw (ok, q.not_terminate, q.not_initiate, q.not_charmode, q.not_prbs, q.not_leglimit) refl
  round-meant (terminate_item v) s rest q ok =
      rw (ok, q.not_initiate, q.not_charmode, q.not_prbs, q.not_leglimit) refl
  round-meant (initiate_item host v) s rest (q, named) ok =
      rw (ok, named, q.not_charmode, q.not_prbs, q.not_leglimit) refl
  round-meant (prbs_item v) s rest (q, fine) ok = rw (ok, fine, q.not_leglimit) refl
  round-meant (leglimit_item v) s rest (q, fine) ok = rw (ok, fine) refl
