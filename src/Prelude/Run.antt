-- ===== src/Prelude/Run.antt =====
-- How a C function ends: it returns, it leaves the process, or it does what C leaves undefined.
use viamillipede.Prelude.{ℕ, ◌≡◌, refl}

pub data Run {ℓ} (A : Type ℓ) : Type ℓ where
  done : A → Run A
  exit : ℕ → Run A  -- `exit(code)`
  abort : Run A  -- a failed `assert`
  fault : Run A  -- an access out of bounds
  spent : Run A  -- the fuel of the model ran out

infixl 5 ◌>>=◌ ◌>>◌
abbrev pub ◌>>=◌ {ℓ κ} : {A : Type ℓ} {B : Type κ} → Run A → (A → Run B) → Run B
done a >>= k = k a
exit code >>= k = exit code
abort >>= k = abort
fault >>= k = fault
spent >>= k = spent

abbrev pub ◌>>◌ {ℓ} : {B : Type ℓ} → Run (Unit {0}) → Run B → Run B
m >> k = m >>= λ _. k

pub done_injective {ℓ} : {A : Type ℓ} {a b : A} → done a ≡ done b → a ≡ b
done_injective e = cc

-- A sequence that returns has a first part that returns.
pub >>=-eq-done {ℓ κ} :
    {A : Type ℓ} {B : Type κ} (m : Run A) (k : A → Run B) {b : B}
    → (m >>= k) ≡ done b
    → (a : A) × (m ≡ done a) × (k a ≡ done b)
>>=-eq-done (done a) k e = (a, refl, e)
>>=-eq-done (exit code) k e = absurd (cc)
>>=-eq-done abort k e = absurd (cc)
>>=-eq-done fault k e = absurd (cc)
>>=-eq-done spent k e = absurd (cc)
