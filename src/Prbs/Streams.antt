-- ===== src/Prbs/Streams.antt =====
-- What `prbs_gen` writes, and what `prbs_verify` accepts.
use Prim.Native.Nat.{digits, differ, bit_xor-bitwise}
use viamillipede.Prelude.{
  ℕ, zero, suc, ◌+◌, ◌/◌, ◌%◌, ◌≤◌, ◌≡◌, ◌≢◌, ◌↔◌, inl, inr, refl, Bool, true, false, Bool-cases,
  List, [], ◌∷◌, ◌++◌, length, length-append, take, drop, ne→==, bit_xor, arith, ◌==◌,
}
use viamillipede.Prelude.Run.{done, ◌>>=◌}
use viamillipede.Prbs.{prbs_sequence, gen_loop, prbs_gen, verify_loop, prbs_verify}

-- The first `n` words of the stream from index `i` on.
abbrev pub stream : ℕ → ℕ → ℕ → List ℕ
stream permutation zero i = []
stream permutation (suc n) i = prbs_sequence permutation i ∷ stream permutation n (i + 1)

gen_loop-stream :
    (permutation n i : ℕ) (payload : List ℕ)
    → n ≤ length payload
    → gen_loop permutation n i payload ≡ done (stream permutation n i ++ drop n payload)
unfolding gen_loop
gen_loop-stream permutation zero i payload h = refl
gen_loop-stream permutation (suc n) i [] h = absurd (omega arith)
gen_loop-stream permutation (suc n) i (x ∷ payload) h =
    rw (gen_loop-stream permutation n (i + 1) payload (omega arith)) refl

verify_loop_iff :
    (permutation n i : ℕ) (payload : List ℕ)
    → n ≤ length payload
    → (verify_loop permutation n i payload ≡ done true) ↔ (take n payload ≡ stream permutation n i)
unfolding verify_loop
verify_loop_iff permutation zero i payload h = (λ _. refl, λ _. refl)
verify_loop_iff permutation (suc n) i [] h = absurd (omega arith)
verify_loop_iff permutation (suc n) i (x ∷ payload) h =
    ground (arith, verify_loop_iff permutation n (i + 1) payload (omega arith))

verify_loop_returns :
    (permutation n i : ℕ) (payload : List ℕ)
    → n ≤ length payload
    → (b : Bool) × (verify_loop permutation n i payload ≡ done b)
unfolding verify_loop
verify_loop_returns permutation zero i payload h = (true, refl)
verify_loop_returns permutation (suc n) i [] h = absurd (omega arith)
verify_loop_returns permutation (suc n) i (x ∷ payload) h =
    elim (Bool-cases (x == prbs_sequence permutation i)) [
      | inl e ↦ rw e (verify_loop_returns permutation n (i + 1) payload (omega arith))
      | inr e ↦ (false, rw e refl)
    ]

differ-zero : (x : ℕ) → differ x 0 ≡ x
differ-zero zero = refl
differ-zero (suc x) = refl

digits-zero : (fuel a : ℕ) → a ≤ fuel → digits (λ b. b) differ fuel a 0 ≡ a
digits-zero zero a h = omega arith
digits-zero (suc fuel) zero h = refl
digits-zero (suc fuel) (suc a) h =
    omega (arith, digits-zero fuel (suc a / 2) (omega arith), differ-zero (suc a % 2))

bit_xor-zero : (a : ℕ) → bit_xor a 0 ≡ a
bit_xor-zero a = simp bit_xor-bitwise (digits-zero a a (omega arith))

-- The first word of the stream is the permutation itself.
pub prbs_sequence-zero : (permutation : ℕ) → prbs_sequence permutation 0 ≡ permutation
unfolding prbs_sequence
prbs_sequence-zero permutation = bit_xor-zero permutation

length-stream : (permutation n i : ℕ) → length (stream permutation n i) ≡ n
length-stream permutation zero i = refl
length-stream permutation (suc n) i = omega (arith, length-stream permutation n (i + 1))

module _ (payload : List ℕ) (permutation size : ℕ) (fits : size / 8 ≤ length payload) where
  -- On a payload of at least `size / 8` words `prbs_gen` fills the first `size / 8` words with the
  -- stream of the permutation, in order, and leaves the words behind them alone.
  pub prbs_gen-stream :
      prbs_gen payload permutation size
      ≡ done (stream permutation (size / 8) 0 ++ drop (size / 8) payload)
  unfolding prbs_gen
  prbs_gen-stream = gen_loop-stream permutation (size / 8) 0 payload fits

  -- On a payload of at least `size / 8` words `prbs_verify` returns, and returns 1 exactly when the
  -- first `size / 8` words are the stream of the permutation.
  pub prbs_verify_iff :
      ((b : Bool) × (prbs_verify payload permutation size ≡ done b))
      × ((prbs_verify payload permutation size ≡ done true)
          ↔ (take (size / 8) payload ≡ stream permutation (size / 8) 0))
  unfolding prbs_verify
  prbs_verify_iff = (
    verify_loop_returns permutation (size / 8) 0 payload fits,
    verify_loop_iff permutation (size / 8) 0 payload fits,
  )

take-stream :
    (permutation n i : ℕ) (rest : List ℕ)
    → take n (stream permutation n i ++ rest) ≡ stream permutation n i
take-stream permutation zero i rest = refl
take-stream permutation (suc n) i rest = rw (take-stream permutation n (i + 1) rest) refl

generated_fits : (permutation n : ℕ) (rest : List ℕ) → n ≤ length (stream permutation n 0 ++ rest)
generated_fits permutation n rest =
    omega (arith, length-append (stream permutation n 0) rest, length-stream permutation n 0)

-- On a payload of at least `size / 8` words, what was generated with a permutation verifies with
-- it.
pub prbs_verify-prbs_gen :
    (payload : List ℕ) (permutation size : ℕ)
    → size / 8 ≤ length payload
    → (prbs_gen payload permutation size >>= λ out. prbs_verify out permutation size) ≡ done true
prbs_verify-prbs_gen payload permutation size fits =
    rw (prbs_gen-stream payload permutation size fits) (
      (prbs_verify_iff _ permutation size (generated_fits permutation (size / 8) _)).1.1
        (take-stream permutation (size / 8) 0 _))

verify_loop-other :
    (n p q : ℕ) (payload rest : List ℕ)
    → p ≢ q
    → 1 ≤ n
    → verify_loop q n 0 (stream p n 0 ++ rest) ≡ done false
unfolding verify_loop
verify_loop-other zero p q payload rest ne h = absurd (omega arith)
verify_loop-other (suc n) p q payload rest ne h =
    rw (prbs_sequence-zero p, prbs_sequence-zero q, ne→== p q ne) refl

-- On a payload of at least `size / 8` words, for a size of at least 8, what was generated with one
-- permutation is rejected under another.
pub prbs_verify_other :
    (payload : List ℕ) (p q size : ℕ)
    → size / 8 ≤ length payload
    → 8 ≤ size
    → p ≢ q
    → (prbs_gen payload p size >>= λ out. prbs_verify out q size) ≡ done false
prbs_verify_other payload p q size fits whole ne =
    rw (prbs_gen-stream payload p size fits)
      (unfold prbs_verify in verify_loop-other (size / 8) p q payload _ ne (omega arith))
