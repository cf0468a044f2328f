-- ===== src/Args/Missing.antt =====
-- The options of `main` (viamillipede.c) whose value is missing, or not in range.
use Prim.Native.String.{String}
use text.Mathlib.Text.{◌==◌}
use viamillipede.Prelude.{
  ℕ, ◌<◌, ◌≡◌, ◌≢◌, ◌&&◌, arith, refl, false, true, none, List, [], ◌∷◌, length, ltb, Bool-cases,
  inl, inr, if◌then◌else◌,
}
use viamillipede.Prelude.Run.{abort, fault}
use viamillipede.Prelude.Int.{ℤ, pos, negsuc}
use viamillipede.Wire.{kthreadmax}
use viamillipede.Args.Settings.{Numbers, Settings, port_of, few_workers}
use viamillipede.Args.Handlers.{
  on, port, rx_option, tx_option, threads_option, verbose_option, delayus_option,
  checkphrase_option, terminate_option, initiate_option, prbs_option, leglimit_option,
}
use viamillipede.Args.Loop.{options, round}

-- What is no port: a number that is not from 1 to 65534.
abbrev pub IsNoPort : ℤ → Type 0
IsNoPort z = (p : ℕ) → 0 < p → p < 65535 → z ≢ pos p

port_of-IsNoPort : (z : ℤ) → IsNoPort z → port_of z ≡ none
unfolding port_of
port_of-IsNoPort (pos n) bad = elim (Bool-cases (ltb 0 n && ltb n 65535)) [
  | inl fits ↦ absurd (bad n (ground (arith, fits)) (ground (arith, fits)) refl)
  | inr out ↦ rw out refl
]
port_of-IsNoPort (negsuc n) bad = refl

few_workers-many : (z : ℤ) (n : ℕ) → z ≡ pos n → 16 < n → few_workers z ≡ false
unfolding few_workers
few_workers-many z n e many = rw e (ground arith)

-- The options with one value, all but the second value of `tx` and `initiate`.
pub data Valued : Type 0 where
  rx tx threads verbose delayus checkphrase terminate prbs leglimit : Valued

abbrev pub name : Valued → String
name rx = "rx"
name tx = "tx"
name threads = "threads"
name verbose = "verbose"
name delayus = "delayus"
name checkphrase = "checkphrase"
name terminate = "terminate"
name prbs = "prbs"
name leglimit = "leglimit"

module _ (num : Numbers) (s : Settings) (ok : s.errno ≡ false) where
  open num use {atoi}

  -- In a round with no error pending: an option that is the last argument, and (with room for it) a
  -- `tx` with a host and no port, fail an assertion; but an `initiate` that is the last argument, or
  -- the last but one with a host behind it, reads the null pointer behind the arguments.
  pub round_missing :
      (o : Valued) (host : String)
      → (host == "") ≡ false
      → ltb (length s.target_ports) kthreadmax ≡ true
      → (round num (record s { args = name o ∷ [] }) ≡ abort)
        × (round num (record s { args = "tx" ∷ host ∷ [] }) ≡ abort)
        × (round num (record s { args = "initiate" ∷ [] }) ≡ fault)
        × (round num (record s { args = "initiate" ∷ host ∷ [] }) ≡ fault)
  unfolding round options on rx_option tx_option threads_option verbose_option delayus_option
      checkphrase_option terminate_option initiate_option prbs_option leglimit_option
  round_missing o host named room =
      (lone o, rw (ok, named, room) refl, rw ok refl, rw (ok, named) refl)
    where
      lone : (o : Valued) → round num (record s { args = name o ∷ [] }) ≡ abort
      lone rx = rw ok refl
      lone tx = rw ok refl
      lone threads = rw ok refl
      lone verbose = rw ok refl
      lone delayus = rw ok refl
      lone checkphrase = rw ok refl
      lone terminate = rw ok refl
      lone prbs = rw ok refl
      lone leglimit = rw ok refl

  -- A value out of range, in a round with no error pending: a port that is not from 1 to 65534 fails
  -- an assertion, for `rx` and for `tx` with a host, and so do more than 16 threads; but a `tx` behind
  -- 16 others writes past the end of `target_ports` before its port is looked at.
  pub round_refused :
      (v many host : String) (rest : List String) (n : ℕ)
      → IsNoPort (atoi v)
      → atoi many ≡ pos n
      → 16 < n
      → (host == "") ≡ false
      → (round num (record s { args = "rx" ∷ v ∷ rest }) ≡ abort)
        × (round num (record s { args = "threads" ∷ many ∷ rest }) ≡ abort)
        × (round num (record s { args = "tx" ∷ host ∷ v ∷ rest })
            ≡ (if ltb (length s.target_ports) kthreadmax then abort else fault))
  unfolding round options on rx_option tx_option threads_option
  round_refused v many host rest n no_port counted too_many named =
      let bad = port_of-IsNoPort (atoi v) no_port in
      let over = few_workers-many (atoi many) n counted too_many in
      (
        rw (ok, bad, port) refl,
        rw (ok, over) refl,
        elim (Bool-cases (ltb (length s.target_ports) kthreadmax)) [
          | inl room ↦ rw (ok, named, room, bad, port) refl
          | inr full ↦ rw (ok, named, full) refl
        ],
      )
