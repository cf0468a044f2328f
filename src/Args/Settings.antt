-- ===== src/Args/Settings.antt =====
-- What the option loop of `main` (viamillipede.c) reads and sets: the globals, the options of
-- `txconf`, `rxconf` and `ioconf`, and the place in `argv`. atoi(3) and strtoul(3) are parameters.
use Prim.Native.String.{String}
use viamillipede.Prelude.{
  ℕ, ◌-◌, ◌%◌, ◌^◌, Bool, true, false, ◌&&◌, Option, none, some, List, [], leb, ltb, if◌then◌else◌,
}
use viamillipede.Prelude.Int.{ℤ, pos, negsuc}

-- `errno` behind strtoul is ERANGE where the flag is set.
pub record Numbers : Type 0 where
  pub atoi : String → ℤ
  pub strtoul : String → ℕ × Bool

pub record Settings : Type 0 where
  pub args : List String  -- `argv` from `arg_cursor` on
  pub errno : Bool  -- `errno != 0`
  pub mode_tx : Bool
  pub mode_rx : Bool
  pub mode_prbs : Bool
  pub rx_port : ℕ
  pub target_ports : List (String × ℕ)  -- the last one first
  pub worker_count : ℤ
  pub gverbose : ℤ
  pub gchecksums : Bool
  pub gcharmode : Bool
  pub gdelay_us : ℕ
  pub gcheckphrase : String
  pub terminate_port : ℕ
  pub initiate_host : String
  pub initiate_port : ℕ
  pub gprbs_seed : ℕ
  pub gleg_limit : ℤ

-- In front of the loop.
abbrev pub defaults : List String → Settings
defaults argv = record {
  args = argv;
  errno = false;
  mode_tx = false;
  mode_rx = false;
  mode_prbs = false;
  rx_port = 0;
  target_ports = [];
  worker_count = pos 16;
  gverbose = pos 0;
  gchecksums = false;
  gcharmode = false;
  gdelay_us = 0;
  gcheckphrase = "yoes";
  terminate_port = 0;
  initiate_host = "";
  initiate_port = 0;
  gprbs_seed = 0;
  gleg_limit = pos 0;
}

-- `(short)users_input_port` behind its assertion; `none` is a failed assertion.
unfoldable pub port_of : ℤ → Option ℕ
port_of (pos n) = if ltb 0 n && ltb n 65535 then some n else none
port_of (negsuc n) = none

-- `worker_count <= 16`
unfoldable pub few_workers : ℤ → Bool
few_workers (pos n) = leb n 16
few_workers (negsuc n) = true

-- The conversion of an `int` to an unsigned type of `w` bits.
unfoldable pub to_unsigned : ℕ → ℤ → ℕ
to_unsigned w (pos n) = n % 2 ^ w
to_unsigned w (negsuc n) = 2 ^ w - 1 - n % 2 ^ w

-- The conversion of an `unsigned long` to an `int`.
unfoldable pub to_int : ℕ → ℤ
to_int n = if ltb (n % 2 ^ 32) (2 ^ 31) then pos (n % 2 ^ 32) else negsuc (2 ^ 32 - 1 - n % 2 ^ 32)
