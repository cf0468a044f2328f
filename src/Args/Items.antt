-- ===== src/Args/Items.antt =====
-- The options as a list: what a command line that is written from it makes of the settings.
use Prim.Native.String.{String}
use text.Mathlib.Text.{◌==◌}
use viamillipede.Prelude.{ℕ, ◌<◌, ◌≡◌, true, false, none, some, List, [], ◌∷◌, length}
use viamillipede.Prelude.Int.{ℤ}
use viamillipede.Wire.{kthreadmax}
use viamillipede.Args.Settings.{Numbers, Settings, port_of, few_workers, to_unsigned, to_int}

pub data Item : Type 0 where
  rx_item threads_item verbose_item delayus_item checkphrase_item terminate_item prbs_item
        leglimit_item :
      String → Item
  tx_item initiate_item : String → String → Item
  checksums_item charmode_item : Item

abbrev pub words : Item → List String
words (rx_item v) = "rx" ∷ v ∷ []
words (tx_item host v) = "tx" ∷ host ∷ v ∷ []
words (threads_item v) = "threads" ∷ v ∷ []
words (verbose_item v) = "verbose" ∷ v ∷ []
words checksums_item = "checksums" ∷ []
words (delayus_item v) = "delayus" ∷ v ∷ []
words (checkphrase_item v) = "checkphrase" ∷ v ∷ []
words (terminate_item v) = "terminate" ∷ v ∷ []
words (initiate_item host v) = "initiate" ∷ host ∷ v ∷ []
words charmode_item = "charmode" ∷ []
words (prbs_item v) = "prbs" ∷ v ∷ []
words (leglimit_item v) = "leglimit" ∷ v ∷ []

-- The argument is no option.
pub record IsPlain (v : String) : Type 0 where
  pub not_rx : (v == "rx") ≡ false
  pub not_tx : (v == "tx") ≡ false
  pub not_threads : (v == "threads") ≡ false
  pub not_verbose : (v == "verbose") ≡ false
  pub not_checksums : (v == "checksums") ≡ false
  pub not_delayus : (v == "delayus") ≡ false
  pub not_checkphrase : (v == "checkphrase") ≡ false
  pub not_terminate : (v == "terminate") ≡ false
  pub not_initiate : (v == "initiate") ≡ false
  pub not_charmode : (v == "charmode") ≡ false
  pub not_prbs : (v == "prbs") ≡ false
  pub not_leglimit : (v == "leglimit") ≡ false

unfoldable pub port_or_zero : ℤ → ℕ
port_or_zero n = elim (port_of n) [ none ↦ 0 | some p ↦ p ]

module _ (num : Numbers) where
  open num use {atoi, strtoul}

  -- What an option means.
  unfoldable pub meant : Item → Settings → Settings
  unfolding port_or_zero
  meant (rx_item v) s = record s { rx_port = port_or_zero (atoi v); mode_rx = true }
  meant (tx_item host v) s = record s {
    target_ports = (host, port_or_zero (atoi v)) ∷ s.target_ports;
    mode_tx = true;
  }
  meant (threads_item v) s = record s { worker_count = atoi v }
  meant (verbose_item v) s = record s { gverbose = atoi v }
  meant checksums_item s = record s { gchecksums = true }
  meant (delayus_item v) s = record s { gdelay_us = to_unsigned 64 (atoi v) }
  meant (checkphrase_item v) s = record s { gcheckphrase = v }
  meant (terminate_item v) s = record s { terminate_port = to_unsigned 32 (atoi v) }
  meant (initiate_item host v) s = record s {
    initiate_host = host;
    initiate_port = to_unsigned 16 (atoi v);
  }
  meant charmode_item s = record s { gcharmode = true }
  meant (prbs_item v) s = record s { mode_prbs = true; gprbs_seed = (strtoul v).0 }
  meant (leglimit_item v) s = record s { mode_prbs = true; gleg_limit = to_int (strtoul v).0 }

  -- The option has values that it accepts.
  abbrev pub Fits : Item → Settings → Type 0
  Fits (rx_item v) s = IsPlain v × (p : ℕ) × (port_of (atoi v) ≡ some p)
  Fits (tx_item host v) s =
      IsPlain v
      × ((host == "") ≡ false)
      × (length s.target_ports < kthreadmax)
      × (p : ℕ) × (port_of (atoi v) ≡ some p)
  Fits (threads_item v) s = IsPlain v × (few_workers (atoi v) ≡ true)
  Fits (initiate_item host v) s = IsPlain v × ((host == "") ≡ false)
  Fits (verbose_item v) s = IsPlain v
  Fits (delayus_item v) s = IsPlain v
  Fits (checkphrase_item v) s = IsPlain v
  Fits (terminate_item v) s = IsPlain v
  Fits (prbs_item v) s = IsPlain v × ((strtoul v).1 ≡ false)
  Fits (leglimit_item v) s = IsPlain v × ((strtoul v).1 ≡ false)
  Fits checksums_item s = Unit {0}
  Fits charmode_item s = Unit {0}
