-- ===== src/Prbs.antt =====
-- prbs.c: the pseudorandom payload of the stress test.
pub mod Streams
pub mod Legs
mod Tests
use viamillipede.Prelude.{
  ℕ, zero, suc, ◌+◌, ◌*◌, ◌/◌, Bool, true, false, List, [], ◌∷◌, ◌==◌, if◌then◌else◌, bit_xor, u64,
}
use viamillipede.Prelude.Run.{Run, done, fault, ◌>>=◌}

abbrev pub salt : ℕ
salt = 0x42F0E1EBA9EA3693

-- `prbs_sequence`, at the index `i` of the loop
unfoldable pub prbs_sequence : ℕ → ℕ → ℕ
prbs_sequence permutation i = bit_xor permutation (u64 (salt * i))

-- `for (i = 0; i < size / 8; i++) payload[i] = prbs_sequence;` with `n` rounds left. The payload is
-- what lies at and behind the index.
unfoldable pub gen_loop : ℕ → ℕ → ℕ → List ℕ → Run (List ℕ)
unfolding prbs_sequence
gen_loop permutation zero i payload = done payload
gen_loop permutation (suc n) i [] = fault
gen_loop permutation (suc n) i (x ∷ payload) =
    gen_loop permutation n (i + 1) payload >>= λ rest. done (prbs_sequence permutation i ∷ rest)

unfoldable pub prbs_gen : List ℕ → ℕ → ℕ → Run (List ℕ)
unfolding gen_loop
prbs_gen payload permutation size = gen_loop permutation (size / 8) 0 payload

unfoldable pub verify_loop : ℕ → ℕ → ℕ → List ℕ → Run Bool
unfolding prbs_sequence
verify_loop permutation zero i payload = done true
verify_loop permutation (suc n) i [] = fault
verify_loop permutation (suc n) i (x ∷ payload) =
    let next = verify_loop permutation n (i + 1) payload in
    if x == prbs_sequence permutation i then next else done false

unfoldable pub prbs_verify : List ℕ → ℕ → ℕ → Run Bool
unfolding verify_loop
prbs_verify payload permutation size = verify_loop permutation (size / 8) 0 payload
