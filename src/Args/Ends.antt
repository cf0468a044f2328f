-- ===== src/Args/Ends.antt =====
-- What holds of the settings wherever a piece of code returns some.
use viamillipede.Prelude.{◌≡◌, refl, Bool, true, false, List, [], ◌∷◌, if◌then◌else◌}
use Prim.Native.String.{String}
use text.Mathlib.Text.{◌==◌}
use viamillipede.Prelude.Run.{Run, done, exit, abort, fault, spent, ◌>>=◌}
use viamillipede.Args.Settings.{Settings}
use viamillipede.Args.Handlers.{on, on_at}

-- The code comes to an end, and where it returns settings, `P` holds of them.
abbrev pub Ensures : (Settings → Type 0) → Run Settings → Type 0
Ensures P (done s) = P s
Ensures P (exit code) = Unit {0}
Ensures P abort = Unit {0}
Ensures P fault = Unit {0}
Ensures P spent = ⊥

pub Ensures-bind :
    (P Q : Settings → Type 0) (m : Run Settings) (k : Settings → Run Settings)
    → Ensures P m
    → ((s : Settings) → P s → Ensures Q (k s))
    → Ensures Q (m >>= k)
Ensures-bind P Q (done s) k h next = next s h
Ensures-bind P Q (exit code) k h next = tt
Ensures-bind P Q abort k h next = tt
Ensures-bind P Q fault k h next = tt
Ensures-bind P Q spent k h next = absurd h

-- An option that keeps `P` keeps it where it is tested for.
pub Ensures-on :
    (P : Settings → Type 0) (word : String) (handler : Settings → Run Settings) (s : Settings)
    → P s
    → Ensures P (handler s)
    → Ensures P (on word handler s)
unfolding on
Ensures-on P word handler s h kept = go s.args
  where
    go : (at : List String) → Ensures P (on_at at word handler s)
    go [] = tt
    go (arg ∷ rest) = elim (arg == word) as (λ b. Ensures P (if b then handler s else done s)) [
      | true ↦ kept
      | false ↦ h
    ]

pub Ensures-if :
    (P : Settings → Type 0) (b : Bool) (x y : Run Settings)
    → (b ≡ true → Ensures P x)
    → (b ≡ false → Ensures P y)
    → Ensures P (if b then x else y)
Ensures-if P true x y h k = h refl
Ensures-if P false x y h k = k refl
