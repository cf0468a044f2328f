-- ===== src/Args/Tests.antt =====
-- Command lines of the README, with decimal numbers.
use Prim.Native.String.{String}
use Prim.Native.Char.{code}
use text.Mathlib.Text.{◌==◌ as str_eq}
use viamillipede.Prelude.{
  Bool, ℕ, ◌+◌, ◌-◌, ◌*◌, ◌≡◌, ◌&&◌, not, refl, true, false, List, [], ◌∷◌, length, leb, ltb,
  if◌then◌else◌, arith,
}
use viamillipede.Prelude.Int.{pos}
use viamillipede.Prelude.Run.{done, abort, fault}
use viamillipede.Wire.{kthreadmax}
use viamillipede.Args.Settings.{Numbers, defaults, port_of, few_workers}
use viamillipede.Args.Items.{
  Item, IsPlain, rx_item, tx_item, threads_item, checksums_item, checkphrase_item, meant,
}
use viamillipede.Args.Written.{written, meant_all, parse_args-written}
use viamillipede.Args.Missing.{threads, round_missing, round_refused}
use viamillipede.Args.Loop.{round, parse_args, option_loop, check_settings, options}
use viamillipede.Args.Handlers.{on, checkphrase_option, charmode_option}

abbrev codes : String → List ℕ
codes String.[] = []
codes (String.◌∷◌ c s) = code c ∷ codes s

-- The value of the digits in front.
abbrev digits : List ℕ → ℕ → ℕ
digits [] n = n
digits (c ∷ cs) n =
    let next = digits cs (n * 10 + (c - b'0')) in if leb b'0' c && leb c b'9' then next else n

abbrev decimal : Numbers
decimal = record {
  atoi = λ v. pos (digits (codes v) 0);
  strtoul = λ v. (digits (codes v) 0, false);
}

abbrev line : List Item
line =
    rx_item "12323"
    ∷ tx_item "localhost" "12323"
    ∷ threads_item "3"
    ∷ checksums_item
    ∷ checkphrase_item "beef"
    ∷ []

is_plain : String → Bool
is_plain v =
    not (str_eq v "rx")
    && not (str_eq v "tx")
    && not (str_eq v "threads")
    && not (str_eq v "verbose")
    && not (str_eq v "checksums")
    && not (str_eq v "delayus")
    && not (str_eq v "checkphrase")
    && not (str_eq v "terminate")
    && not (str_eq v "initiate")
    && not (str_eq v "charmode")
    && not (str_eq v "prbs")
    && not (str_eq v "leglimit")

is_plain-IsPlain : (v : String) → is_plain v ≡ true → IsPlain v
unfolding is_plain
is_plain-IsPlain v e = ground arith

-- A value that spells a later option is read a second time, as that option.
value_twice :
    parse_args decimal ("viamillipede" ∷ "checkphrase" ∷ "charmode" ∷ [])
    ≡ done (record (defaults []) { gcheckphrase = "charmode"; gcharmode = true })
unfolding parse_args option_loop check_settings round options on checkphrase_option charmode_option
value_twice = refl

parse_args-written_example :
    parse_args decimal ("viamillipede" ∷ written line)
    ≡ done (record (meant_all decimal line (defaults [])) { args = [] })
unfolding port_of few_workers meant is_plain
parse_args-written_example =
    let number = is_plain-IsPlain "12323" refl in
    parse_args-written decimal "viamillipede" line (is_plain-IsPlain "viamillipede" refl)
      (
        (number, 12323, refl),
        (
          (number, refl, omega arith, 12323, refl),
          ((is_plain-IsPlain "3" refl, refl), (tt, (is_plain-IsPlain "beef" refl, tt))),
        ),
      )
      refl

round_missing_example :
    (round decimal (record (defaults []) { args = "threads" ∷ [] }) ≡ abort)
    × (round decimal (record (defaults []) { args = "tx" ∷ "localhost" ∷ [] }) ≡ abort)
    × (round decimal (record (defaults []) { args = "initiate" ∷ [] }) ≡ fault)
    × (round decimal (record (defaults []) { args = "initiate" ∷ "localhost" ∷ [] }) ≡ fault)
round_missing_example = round_missing decimal (defaults []) refl threads "localhost" refl refl

pos_injective : {a b : ℕ} → pos a ≡ pos b → a ≡ b
pos_injective e = cc

round_refused_example :
    (round decimal (record (defaults []) { args = "rx" ∷ "65535" ∷ [] }) ≡ abort)
    × (round decimal (record (defaults []) { args = "threads" ∷ "17" ∷ [] }) ≡ abort)
    × (round decimal (record (defaults []) { args = "tx" ∷ "localhost" ∷ "65535" ∷ [] })
        ≡ (if ltb (length (defaults []).target_ports) kthreadmax then abort else fault))
round_refused_example =
    round_refused decimal (defaults []) refl "65535" "17" "localhost" [] 17
      (λ p lo hi e. omega (arith, pos_injective e)) refl (omega arith) refl
