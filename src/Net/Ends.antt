-- ===== src/Net/Ends.antt =====
-- How the calls of plumbing.c end.
use mathlib.Core.Bool.{false≢true}
use viamillipede.Prelude.{ℕ, zero, suc, ◌≡◌, refl, Bool, true, false, ◌==◌, ==_iff, if◌then◌else◌}
use viamillipede.Prelude.Int.{ℤ, pos, negsuc}
use viamillipede.Net.Calls.{
  Reply, returns, failed, World, Act, returned, retired, blocked, ended, aborted, faulted, M,
  andthen, ◌>>=◌, ◌>>◌, skip, call, settle, checkperror, assert,
}
use viamillipede.Net.Connect.{is_zero}

-- A piece of a thread that returns with `P`, or leaves the process by `checkperror` or an assertion.
abbrev pub Ends : {H X A : Type 0} → (A → World H X → Type 0) → Act H X A → Type 0
Ends P (returned a w) = P a w
Ends P (retired w) = ⊥
Ends P (blocked w) = ⊥
Ends P (ended code) = code ≡ 4
Ends P aborted = Unit
Ends P faulted = ⊥

pub Ends->>= :
    {H X A B : Type 0} {P : A → World H X → Type 0} (Q : B → World H X → Type 0) (m : M H X A)
    (k : A → M H X B) (w : World H X)
    → Ends P (m w)
    → ((a : A) (w' : World H X) → P a w' → Ends Q (k a w'))
    → Ends Q ((m >>= k) w)
unfolding ◌>>=◌
Ends->>= {H} {X} {A} {B} {P} Q m k w first next = by_end (m w) first
  where
    by_end : (r : Act H X A) → Ends P r → Ends Q (andthen r k)
    by_end (returned a w') p = next a w' p
    by_end (retired w') p = p
    by_end (blocked w') p = p
    by_end (ended code) p = p
    by_end aborted p = p
    by_end faulted p = p

pub Ends-map :
    {H X A : Type 0} {P : A → World H X → Type 0} (Q : A → World H X → Type 0) (r : Act H X A)
    → Ends P r
    → ((a : A) (w : World H X) → P a w → Ends Q (returned a w))
    → Ends Q r
Ends-map Q (returned a w) p f = f a w p
Ends-map Q (retired w) p f = p
Ends-map Q (blocked w) p f = p
Ends-map Q (ended code) p f = p
Ends-map Q aborted p f = p
Ends-map Q faulted p f = p

pub asserted_last :
    {H X : Type 0} (P : Unit {0} → World H X → Type 0) (b : Bool) (w : World H X)
    → (b ≡ true → P tt w)
    → Ends P (assert b w)
unfolding assert
asserted_last P true w holds = holds refl
asserted_last P false w holds = tt

-- The rules for what a piece begins with.
module _ {H X B : Type 0} (Q : B → World H X → Type 0) where
  pub checked :
      (k : M H X B) (w : World H X) → (w.errno ≡ 0 → Ends Q (k w)) → Ends Q ((checkperror >> k) w)
  unfolding checkperror ◌>>=◌
  checked k w clean = by_test (w.errno == 0) refl
    where
      by_test :
          (b : Bool)
          → (w.errno == 0) ≡ b
          → Ends Q (andthen (if b then returned tt w else ended 4) (λ _. k))
      by_test true e = clean ((==_iff w.errno 0).0 e)
      by_test false e = refl

  pub passed : (k : M H X B) (w : World H X) → Ends Q (k w) → Ends Q ((skip >> k) w)
  unfolding ◌>>=◌
  passed k w p = p

  pub asserted :
      (b : Bool) (k : M H X B) (w : World H X)
      → (b ≡ true → Ends Q (k w))
      → Ends Q ((assert b >> k) w)
  unfolding assert ◌>>=◌
  asserted true k w holds = holds refl
  asserted false k w holds = tt

  pub failing : (k : M H X B) (w : World H X) → Ends Q ((assert false >> k) w)
  unfolding assert ◌>>=◌
  failing k w = tt

  pub called :
      (f : H → Reply × H) (k : ℤ → M H X B) (w : World H X)
      → ((n : ℕ) (h : H) → f w.host ≡ (returns n, h) → Ends Q (k (pos n) (record w { host = h })))
      → ((e : ℕ) (h : H)
          → f w.host ≡ (failed e, h)
          → Ends Q (k (negsuc 0) (record w { errno = suc e; host = h })))
      → Ends Q ((call f >>= k) w)
  unfolding call ◌>>=◌
  called f k w good bad = by_reply (f w.host) refl
    where
      by_reply : (r : Reply × H) → f w.host ≡ r → Ends Q (andthen (settle w r) k)
      by_reply (returns n, h) e = good n h e
      by_reply (failed n, h) e = bad n h e

pub is_zero_lem : (n : ℕ) → is_zero (pos n) ≡ true → 0 ≡ n
is_zero_lem zero e = refl
is_zero_lem (suc n) e = absurd (false≢true e)
