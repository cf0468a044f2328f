-- ===== src/Plumbing/Tests.antt =====
-- plumbing.c at concrete inputs, and the theorems where their hypotheses hold.
use viamillipede.Prelude.{
  ℕ, zero, suc, ◌<◌, ◌+◌, ◌-◌, ◌/◌, ◌≡◌, refl, false, List, [], ◌∷◌, ◌++◌, leb, if◌then◌else◌,
  overwrite, arith,
}
use viamillipede.Prelude.Run.{done, ◌>>=◌}
use viamillipede.Prelude.Int.{◌+ℤ◌, ◌-ℤ◌}
use viamillipede.Plumbing.Pipe.{pipe}
use viamillipede.Plumbing.Mix.{load_ulong, mix}
use viamillipede.Plumbing.Mix.Closed.{mix_ignores_rest}
use viamillipede.Plumbing.Stopwatch.{Timespec, stopwatch_stop, nanos}
use viamillipede.Plumbing.Stopwatch.Clock.{
  Tick, reading, missed, stopwatch_start, stop_watch, stop_watch_elapsed,
}
use viamillipede.Plumbing.Bufferfill.{bufferfill}
use viamillipede.Plumbing.Bufferfill.Filling.{Fills, bufferfill-Fills}

abbrev word : List ℕ
word = 1 ∷ 2 ∷ 0 ∷ 0 ∷ 0 ∷ 0 ∷ 0 ∷ 0 ∷ []

-- Nine bytes take two rounds: twice the first word, and the cursor 8.
mix_nine : mix 255 (word ++ 7 ∷ []) 9 ≡ done 1289
unfolding mix load_ulong
mix_nine = refl

mix_ignores_rest_example : mix 255 (word ++ 7 ∷ []) 9 ≡ mix 255 (word ++ 8 ∷ []) 9
mix_ignores_rest_example = mix_ignores_rest 255 word (7 ∷ []) (8 ∷ []) 9 refl (omega arith)

abbrev at_2_9 : Timespec
at_2_9 = record { tv_sec = 2; tv_nsec = 900_000_000 }

abbrev at_3_1 : Timespec
at_3_1 = record { tv_sec = 3; tv_nsec = 100_000_000 }

abbrev at_3_9 : Timespec
at_3_9 = record { tv_sec = 3; tv_nsec = 900_000_000 }

-- 0.2 s measure as 0.2 s, and 1 s as 2 s.
stopwatch_readings :
    (stopwatch_stop at_2_9 at_3_1 ≡ 200_000) × (stopwatch_stop at_2_9 at_3_9 ≡ 2_000_000)
unfolding stopwatch_stop ◌+ℤ◌ ◌-ℤ◌
stopwatch_readings = (refl, refl)

-- One interrupted call, and then the reading.
abbrev uneven : ℕ → Tick
uneven zero = reading at_2_9
uneven (suc zero) = missed 4
uneven (suc (suc k)) = reading at_3_9

stop_watch_elapsed_example :
    (stopwatch_start uneven 0 >>= stop_watch uneven 4 2 1 0)
    ≡ done (
      (nanos at_3_9 - nanos at_2_9) / 1000
          + (if leb at_2_9.tv_nsec at_3_9.tv_nsec then 1_000_000 else 0),
      0,
    )
stop_watch_elapsed_example =
    stop_watch_elapsed uneven 4 0 1 1 2 at_2_9 at_3_9 refl (omega arith) (λ j lt. only_one j lt)
      refl (omega arith) (omega arith) (omega arith) (omega arith)
  where
    only_one : (j : ℕ) → j < 1 → uneven (1 + j) ≡ missed 4
    only_one zero lt = refl
    only_one (suc j) lt = absurd (omega arith)

bufferfill_two :
    bufferfill pipe 0 (9 ∷ 9 ∷ 9 ∷ []) 2 false (1 ∷ 2 ∷ 3 ∷ [])
    ≡ done (record { accumulator = 2; dest = 1 ∷ 2 ∷ 9 ∷ []; rest = 3 ∷ [] })
unfolding bufferfill overwrite
bufferfill_two = refl

bufferfill-Fills_example :
    Fills pipe
      (1 ∷ 2 ∷ 3 ∷ [])
      2
      (9 ∷ 9 ∷ 9 ∷ [])
      false
      (bufferfill pipe 0 (9 ∷ 9 ∷ 9 ∷ []) 2 false (1 ∷ 2 ∷ 3 ∷ []))
bufferfill-Fills_example = bufferfill-Fills pipe (9 ∷ 9 ∷ 9 ∷ []) 2 false (1 ∷ 2 ∷ 3 ∷ [])
