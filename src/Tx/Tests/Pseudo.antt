-- ===== src/Tx/Tests/Pseudo.antt =====
-- The pseudorandom mode at concrete inputs.
use viamillipede.Prelude.{
  ℕ, zero, suc, ◌<◌, ◌≡◌, ◌⊎◌, refl, ap, true, false, List, [], ◌∷◌, length, arith,
}
use viamillipede.Prelude.Run.{Run, done, abort, spent, ◌>>=◌}
use viamillipede.Wire.{Millipacket, kfootsize, preamble_cannon_ul, feed_more, leg_of}
use viamillipede.Wire.Frame.{load_ulong-ulong_bytes}
use viamillipede.Plumbing.Mix.{load_ulong}
use viamillipede.Plumbing.Mix.Closed.{mix_closed}
use viamillipede.Plumbing.Pipe.{pipe}
use viamillipede.Tx.Ingest.{Config, leg_checksum}
use viamillipede.Tx.Push.{bytes_of, fill_buffer}
use viamillipede.Tx.Pseudo.{prbs_ingest, full_legs, prbs_ingest-full_legs}
use viamillipede.Tx.Pseudo.Sums.{prbs_sum}
use viamillipede.Rx.Worker.{head, receive, verify_checksum}

abbrev two_legs : Config
two_legs = record { worker_count = 1; gcharmode = false; gchecksums = true; gleg_limit = 2 }

abbrev zero_word : List ℕ
zero_word = 0 ∷ 0 ∷ 0 ∷ 0 ∷ 0 ∷ 0 ∷ 0 ∷ 0 ∷ []

prbs_ingest-full_legs_example :
    ((0 < two_legs.gleg_limit)
      × (prbs_ingest pipe two_legs (λ k. zero_word) [] 3 0 255
          ≡ done (record { legs = full_legs pipe two_legs 0 2; end = 2 })))
    ⊎ ((two_legs.gleg_limit ≡ 0)
        × ((any : ℕ) → prbs_ingest pipe two_legs (λ k. zero_word) [] any 0 255 ≡ spent))
unfolding load_ulong
prbs_ingest-full_legs_example =
    prbs_ingest-full_legs pipe two_legs (λ k. zero_word) [] (λ k. (0, refl)) 3 255 (omega arith)
      (omega arith)

zero_words : ℕ → List ℕ
zero_words zero = []
zero_words (suc n) = 0 ∷ zero_words n

length-zero_words : (n : ℕ) → length (zero_words n) ≡ n
unfolding zero_words
length-zero_words zero = refl
length-zero_words (suc n) = omega (arith, length-zero_words n)

abbrev first_header : Millipacket
first_header = record {
  preamble = preamble_cannon_ul;
  leg_id = 0;
  size = kfootsize;
  checksum = 1048831;
  opcode = feed_more;
}

zero_sum :
    (ws : List ℕ) → leg_checksum true 255 0 (bytes_of (0 ∷ ws)) kfootsize ≡ done (1048831, 1048831)
unfolding leg_checksum bytes_of
zero_sum ws =
    ap (λ (r : Run ℕ). r >>= λ sum. done (sum, sum))
      (mix_closed 255 (bytes_of (0 ∷ ws)) kfootsize 0
        (load_ulong-ulong_bytes 0 (bytes_of ws) (omega arith)) (omega arith))

-- The first leg under the seed 7, in a buffer that calloc(3) gave.
prbs_sum_example :
    (b : List ℕ) × (fill_buffer 7 0 (bytes_of (0 ∷ zero_words 262143)) ≡ done b)
    × ((first_header.checksum ≡ 0)
        ⊎ (verify_checksum 255 first_header
              (receive (leg_of first_header b) (record { pc = head; buffer = [] })).buffer
            ≡ abort))
prbs_sum_example =
    prbs_sum 7 0 0 255 (zero_words 262143) first_header (record { pc = head; buffer = [] })
      (omega arith) (omega (arith, length-zero_words 262143)) (omega arith) (omega arith) refl refl
      (zero_sum (zero_words 262143))
