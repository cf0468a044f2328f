-- ===== src/Prbs/Tests.antt =====
-- prbs.c at concrete inputs, and the theorems where their hypotheses hold.
use viamillipede.Prelude.{
  ◌⊎◌, ◌≢◌, ◌==◌, if◌then◌else◌, ℕ, zero, suc, length, ◌/◌, ◌≡◌, false, refl, List, [], ◌∷◌, arith,
}
use viamillipede.Prelude.Run.{done, exit, ◌>>=◌}
use viamillipede.Wire.{kfootsize, feed_more, end_of_millipede}
use viamillipede.Prbs.Legs.{fill_prbs, check_prbs, check_prbs-fill_prbs}
use viamillipede.Prbs.{prbs_gen}

abbrev three : List ℕ
three = 0 ∷ 0 ∷ 7 ∷ []

prbs_gen_two : prbs_gen three 0xfeed 16 ≡ done (0xfeed ∷ 0x42f0e1eba9eac87e ∷ 7 ∷ [])
unfolding prbs_gen
prbs_gen_two = refl

zeros : ℕ → List ℕ
zeros zero = []
zeros (suc n) = 0 ∷ zeros n

length-zeros : (n : ℕ) → length (zeros n) ≡ n
unfolding zeros
length-zeros zero = refl
length-zeros (suc n) = omega (arith, length-zeros n)

-- A transmitter under the seed 7, and a receiver under the seed 8.
check_prbs-fill_prbs_example :
    (◌≡◌ {A = ℕ} 7 8
      × ((fill_prbs 7 3 (zeros (kfootsize / 8)) >>= check_prbs 50 8 false 3 feed_more) ≡ done tt))
    ⊎ (◌≢◌ {A = ℕ} 7 8
        × ((fill_prbs 7 3 (zeros (kfootsize / 8)) >>= check_prbs 50 8 false 3 feed_more)
            ≡ (if feed_more == end_of_millipede then done tt else exit 50)))
check_prbs-fill_prbs_example =
    check_prbs-fill_prbs 50 7 8 3 feed_more (zeros (kfootsize / 8)) (omega arith) (omega arith)
      (omega arith) (omega arith) (omega (arith, length-zeros (kfootsize / 8)))
