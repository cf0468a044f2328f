-- ===== src/Plumbing/Bufferfill.antt =====
-- `bufferfill` (plumbing.c): reads until the buffer is full or the input ends. The sleeps that it
-- puts between short reads change no value and are left out.
pub mod Filling
use viamillipede.Prelude.{
  ℕ, zero, suc, ◌+◌, ◌-◌, min, Bool, ◌||◌, List, length, overwrite, ltb, ◌==◌, if◌then◌else◌,
}
use viamillipede.Prelude.Run.{Run, done, exit, abort, spent}
use viamillipede.Wire.{maxbsize}
use viamillipede.Plumbing.Source.{Reply, got, failed, Source}

module _ (src : Source) where
  open src use {State, read}

  -- The value returned, the buffer and the descriptor behind the call.
  pub record Filled : Type 0 where
    pub accumulator : ℕ
    pub dest : List ℕ
    pub rest : State

  -- The body of the loop behind `read`: `checkperror` leaves the process where `errno` is set.
  unfoldable pub take_reply :
      Bool
      → (List ℕ → ℕ → ℕ → ℕ → State → Run Filled)
      → List ℕ
      → ℕ
      → ℕ
      → ℕ
      → Reply × State
      → Run Filled
  take_reply charmode again dest cursor remainder accumulator (failed errno, s) =
      if errno == 0
      then done (record { accumulator = accumulator; dest = dest; rest = s })
      else exit 4
  take_reply charmode again dest cursor remainder accumulator (got bs, s) =
      let readsize = length bs in
      let dest' = overwrite dest cursor bs in
      let stop = done (record { accumulator = accumulator + readsize; dest = dest'; rest = s }) in
      let more =
        again dest' (cursor + readsize) (remainder - readsize) (accumulator + readsize) s in
      if ltb remainder readsize
      then abort
      else if ltb readsize 1 || charmode
      then stop
      else if ltb 0 (remainder - readsize)
      then more
      else stop

  unfoldable pub bufferfill_loop : ℕ → Bool → List ℕ → ℕ → ℕ → ℕ → State → Run Filled
  unfolding take_reply
  bufferfill_loop zero charmode dest cursor remainder accumulator s = spent
  bufferfill_loop (suc fuel) charmode dest cursor remainder accumulator s =
      take_reply charmode (bufferfill_loop fuel charmode) dest cursor remainder accumulator
        (read s (min maxbsize remainder))

  -- Every round but the last reads at least one byte, so `size + 1` rounds are enough.
  unfoldable pub bufferfill : ℕ → List ℕ → ℕ → Bool → State → Run Filled
  unfolding bufferfill_loop
  bufferfill errno dest size charmode s =
      if errno == 0 then bufferfill_loop (size + 1) charmode dest 0 size 0 s else exit 4
