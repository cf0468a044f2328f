-- ===== src/Plumbing/Sink.antt =====
-- `writev(2)`, which the program calls and does not implement.
use viamillipede.Prelude.{ℕ, ◌≤◌, ◌<◌, ◌≡◌, List, [], ◌∷◌, ◌++◌, length, take}

-- `wrote n` returns the number of bytes; `refused e` returns -1 and sets `errno` to `e`.
pub data Written : Type 0 where
  wrote : ℕ → Written
  refused : ℕ → Written

-- The bytes of the vectors of an `iovec`, one behind the other.
abbrev pub gathered : List (List ℕ) → List ℕ
gathered [] = []
gathered (v ∷ vs) = v ++ gathered vs

-- A descriptor that is written to. `sent` is what has been written to it: it is in no program variable.
pub record Sink : Type 1 where
  pub State : Type 0
  pub writev : State → List (List ℕ) → Written × State
  pub sent : State → List ℕ
  -- the front of the vectors, which may be all of it
  pub writev-le :
      (s s' : State) (vs : List (List ℕ)) (n : ℕ)
      → writev s vs ≡ (wrote n, s')
      → n ≤ length (gathered vs)
  pub writev-sent :
      (s s' : State) (vs : List (List ℕ)) (n : ℕ)
      → writev s vs ≡ (wrote n, s')
      → sent s' ≡ sent s ++ take n (gathered vs)
  pub writev-errno :
      (s s' : State) (vs : List (List ℕ)) (e : ℕ) → writev s vs ≡ (refused e, s') → 0 < e
