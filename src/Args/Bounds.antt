-- ===== src/Args/Bounds.antt =====
-- What the option loop guarantees of the settings that `main` goes on with.
use Prim.Native.String.{String}
use viamillipede.Prelude.{ℕ, ◌<◌, ◌≡◌, ◌⊎◌, false, [], length}
use viamillipede.Args.Settings.{Numbers, Settings}
use viamillipede.Args.Ranges.{IsSound}

-- What `main` goes on with.
pub record IsAccepted (s : Settings) : Type 0 where
  pub sound : IsSound s
  pub all_read : s.args ≡ []
  pub no_error : s.errno ≡ false
  pub one_role : (s.terminate_port ≡ 0) ⊎ (s.initiate_port ≡ 0)

module _ (num : Numbers) where
  -- The settings behind a round that started with `n` arguments left.
  abbrev IsPast : ℕ → Settings → Type 0
  IsPast n s = IsSound s × (length s.args < n)

  abbrev IsRead : Settings → Type 0
  IsRead s = IsSound s × (s.args ≡ [])
