-- ===== src/Session/Share.antt =====
-- The legs that one connection carries, and the bytes of the first legs: lists over a numbered history
-- of legs, where `owner k` is the connection that leg `k` was given to.
use native.Mathlib.Numerals.{add-one}
use viamillipede.Prelude.{
  ℕ, zero, suc, ◌+◌, ◌≤◌, ◌<◌, ◌≡◌, ◌≢◌, inl, inr, refl, Bool-cases, List, [], ◌∷◌, ◌++◌, update,
  ◌==◌, if◌then◌else◌, ==_iff, arith,
}
use viamillipede.Wire.{Leg}

-- The legs of connection `i` among the `m` legs from `lo` on.
unfoldable pub share : (ℕ → Leg) → (ℕ → ℕ) → ℕ → ℕ → ℕ → List Leg
share leg owner i lo zero = []
share leg owner i lo (suc m) =
    let rest = share leg owner i (lo + 1) m in if owner lo == i then leg lo ∷ rest else rest

-- The payloads of the first `m` legs.
unfoldable pub delivered : (ℕ → Leg) → ℕ → List ℕ
delivered leg zero = []
delivered leg (suc m) = delivered leg m ++ (leg m).payload

pub delivered-suc :
    (leg : ℕ → Leg) (m : ℕ) → delivered leg (m + 1) ≡ delivered leg m ++ (leg m).payload
unfolding delivered
delivered-suc leg m = rw add-one refl

module _ (leg : ℕ → Leg) (owner : ℕ → ℕ) where
  pub share-suc_self :
      (i lo m : ℕ)
      → owner lo ≡ i
      → share leg owner i lo (suc m) ≡ leg lo ∷ share leg owner i (lo + 1) m
  unfolding share
  share-suc_self i lo m e = ground arith

  pub share-suc_ne :
      (i lo m : ℕ) → owner lo ≢ i → share leg owner i lo (suc m) ≡ share leg owner i (lo + 1) m
  unfolding share
  share-suc_ne i lo m e = ground arith

  -- One more leg at the end.
  pub share-snoc :
      (i lo m k : ℕ)
      → lo + m ≡ k
      → share leg owner i lo (suc m)
        ≡ share leg owner i lo m ++ (if owner k == i then leg k ∷ [] else [])
  unfolding share
  share-snoc i lo zero k e = ground arith
  share-snoc i lo (suc m) k e = ground (arith, share-snoc i (lo + 1) m k)

  pub record First (i lo m : ℕ) (l : Leg) : Type 0 where
    pub at : ℕ
    pub from : lo ≤ at
    pub below : at < lo + m
    pub owned : owner at ≡ i
    pub is_leg : l ≡ leg at

  -- The first leg of a connection is a leg that was given to it.
  pub share-First :
      (i lo m : ℕ) {l : Leg} {rest : List Leg} → share leg owner i lo m ≡ l ∷ rest → First i lo m l
  unfolding share
  share-First i lo zero e = cc
  share-First i lo (suc m) {rest = rest} e = elim (Bool-cases (owner lo == i)) [
    | inl own ↦ record {
      at = lo;
      from = omega arith;
      below = omega arith;
      owned = (==_iff _ _).0 own;
      is_leg = ground arith;
    }
    | inr other ↦
        let f = share-First i (lo + 1) m {rest = rest} (ground arith) in
        record {
          at = f.at;
          from = omega (arith, f.from);
          below = omega (arith, f.below);
          owned = f.owned;
          is_leg = f.is_leg;
        }
  ]

  -- A leg with a new number changes nothing before it.
  pub share-update :
      (l : Leg) (j i lo m k : ℕ)
      → lo + m ≤ k
      → share (update leg k l) (update owner k j) i lo m ≡ share leg owner i lo m
  unfolding share
  share-update l j i lo zero k h = refl
  share-update l j i lo (suc m) k h = ground (arith, share-update l j i (lo + 1) m k)

  pub delivered-update :
      (l : Leg) (m k : ℕ) → m ≤ k → delivered (update leg k l) m ≡ delivered leg m
  unfolding delivered
  delivered-update l zero k h = refl
  delivered-update l (suc m) k h = ground (arith, delivered-update l m k)
