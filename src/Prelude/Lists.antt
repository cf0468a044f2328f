-- ===== src/Prelude/Lists.antt =====
-- Lists measured and indexed by native numbers, under the library's names.
use Prim.Native.Nat.{ℕ, zero, suc, ◌+◌, ◌-◌, ◌≤◌, min}
use mathlib.Core.Path.{◌≡◌, refl, ap, sym, subst, ◌∙◌}
use mathlib.Core.List.{List, [], ◌∷◌, ◌++◌}
use mathlib.Core.Logic.{ite}
use native.Mathlib.Decide.{ℕ_discrete}
use mathlib.Core.Option.{Option, none, some}
use native.Mathlib.Omega.{arith}

-- A family `ℕ → A`, written at one index.
abbrev pub update {ℓ} : {A : Type ℓ} → (ℕ → A) → ℕ → A → ℕ → A
update f i a j = ite (ℕ_discrete i j) a (f j)

-- What holds of the new value and of each old one holds of the written family.
pub update_all {ℓ κ} :
    {A : Type ℓ} (P : ℕ → A → Type κ) (f : ℕ → A) (i : ℕ) (a : A)
    → P i a
    → ((j : ℕ) → P j (f j))
    → (j : ℕ) → P j (update f i a j)
update_all P f i a new old j = elim (ℕ_discrete i j) as (λ d. P j (ite d a (f j))) [
  | yes e ↦ subst (λ k. P k a) e new
  | no e ↦ old j
]

module _ {ℓ} {A : Type ℓ} where
  abbrev pub length : List A → ℕ
  length [] = 0
  length (x ∷ xs) = suc (length xs)

  abbrev pub get_elem? : List A → ℕ → Option A
  get_elem? [] i = none
  get_elem? (x ∷ xs) zero = some x
  get_elem? (x ∷ xs) (suc i) = get_elem? xs i

  abbrev pub take : ℕ → List A → List A
  take zero xs = []
  take (suc n) [] = []
  take (suc n) (x ∷ xs) = x ∷ take n xs

  abbrev pub drop : ℕ → List A → List A
  drop zero xs = xs
  drop (suc n) [] = []
  drop (suc n) (x ∷ xs) = drop n xs

module _ {ℓ} {A : Type ℓ} where
  pub length-append : (xs ys : List A) → length (xs ++ ys) ≡ length xs + length ys
  length-append [] ys = omega arith
  length-append (x ∷ xs) ys = omega (arith, length-append xs ys)

  pub nothing_left : (xs ys : List A) → xs ++ ys ≡ [] → ys ≡ []
  nothing_left [] ys e = e
  nothing_left (x ∷ xs) ys e = absurd (cc)

  pub nil_of_length : (xs : List A) → length xs ≡ 0 → xs ≡ []
  nil_of_length [] h = refl
  nil_of_length (x ∷ xs) h = absurd (omega arith)

  pub length-take : (n : ℕ) (xs : List A) → length (take n xs) ≡ min n (length xs)
  length-take zero xs = omega arith
  length-take (suc n) [] = omega arith
  length-take (suc n) (x ∷ xs) = omega (arith, length-take n xs)

  pub length-drop : (n : ℕ) (xs : List A) → length (drop n xs) ≡ length xs - n
  length-drop zero xs = omega arith
  length-drop (suc n) [] = omega arith
  length-drop (suc n) (x ∷ xs) = omega (arith, length-drop n xs)

  pub take-append-drop : (n : ℕ) (xs : List A) → take n xs ++ drop n xs ≡ xs
  take-append-drop zero xs = refl
  take-append-drop (suc n) [] = refl
  take-append-drop (suc n) (x ∷ xs) = ap (λ l. x ∷ l) (take-append-drop n xs)

  pub drop-drop : (m n k : ℕ) (xs : List A) → m + n ≡ k → drop n (drop m xs) ≡ drop k xs
  drop-drop zero n k xs e = ap (λ (i : ℕ). drop i xs) (omega arith)
  drop-drop (suc m) zero zero [] e = refl
  drop-drop (suc m) (suc n) zero [] e = refl
  drop-drop (suc m) zero (suc k) [] e = refl
  drop-drop (suc m) (suc n) (suc k) [] e = refl
  drop-drop (suc m) n zero (x ∷ xs) e = absurd (omega arith)
  drop-drop (suc m) n (suc k) (x ∷ xs) e = drop-drop m n k xs (omega arith)

  pub take-length-append : (xs ys : List A) → take (length xs) (xs ++ ys) ≡ xs
  take-length-append [] ys = refl
  take-length-append (x ∷ xs) ys = ap (λ l. x ∷ l) (take-length-append xs ys)

  pub drop-length-append : (xs ys : List A) → drop (length xs) (xs ++ ys) ≡ ys
  drop-length-append [] ys = refl
  drop-length-append (x ∷ xs) ys = drop-length-append xs ys

  pub drop_past : (xs ys : List A) (n : ℕ) → drop (length xs + n) (xs ++ ys) ≡ drop n ys
  drop_past xs ys n =
      sym (drop-drop (length xs) n _ (xs ++ ys) refl) ∙ ap (drop n) (drop-length-append xs ys)

  -- `memcpy(base + cursor, bs, length bs)`: the bytes around the written ones stay.
  unfoldable pub overwrite : List A → ℕ → List A → List A
  overwrite base cursor bs = take cursor base ++ bs ++ drop (cursor + length bs) base

  -- A write just behind a filled prefix extends the prefix.
  pub overwrite-append :
      (filled bs base : List A)
      → overwrite (filled ++ drop (length filled) base) (length filled) bs
        ≡ (filled ++ bs) ++ drop (length (filled ++ bs)) base
  unfolding overwrite
  overwrite-append filled bs base =
      rw
        (
          take-length-append,
          drop_past (filled) (drop (length filled) base) (length bs),
          length-append,
          drop-drop (length filled) (length bs) _ base refl,
        )
        refl

  pub length-overwrite :
      (base : List A) (cursor : ℕ) (bs : List A)
      → cursor + length bs ≤ length base
      → length (overwrite base cursor bs) ≡ length base
  unfolding overwrite
  length-overwrite base cursor bs h = omega (
    arith,
    length-append (take cursor base ++ bs) (drop (cursor + length bs) base),
    length-append (take cursor base) bs,
    length-take cursor base,
    length-drop (cursor + length bs) base,
  )
