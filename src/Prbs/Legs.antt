-- ===== src/Prbs/Legs.antt =====
-- The pseudorandom mode of a session: `txpush` (tx.c) fills the buffer of every leg, and `rxworker`
-- (rx.c) checks it. `edoofus` is the number of <errno.h>, or what util.h puts in its place.
use viamillipede.Prelude.{
  ℕ, ◌+◌, ◌/◌, ◌^◌, ◌≤◌, ◌<◌, ◌≡◌, ◌≢◌, refl, Bool, true, false, ◌&&◌, not, List, length, ltb, ◌==◌,
  if◌then◌else◌, u64, arith, subst, ◌⊎◌, inl, inr, ℕ_discrete,
}
use viamillipede.Prelude.Run.{Run, done, exit, ◌>>=◌, >>=-eq-done}
use viamillipede.Wire.{kfootsize, end_of_millipede}
use viamillipede.Prbs.{prbs_gen, prbs_verify}
use viamillipede.Prbs.Streams.{prbs_verify-prbs_gen, prbs_verify_other}

-- The buffer that `txpush` writes, as 64-bit words.
unfoldable pub fill_prbs : ℕ → ℕ → List ℕ → Run (List ℕ)
fill_prbs gprbs_seed leg_id buffer =
    if ltb 0 gprbs_seed then prbs_gen buffer (u64 (gprbs_seed + leg_id)) kfootsize else done buffer

-- The check behind the payload loop.
unfoldable pub check_prbs : ℕ → ℕ → Bool → ℕ → ℕ → List ℕ → Run (Unit {0})
check_prbs edoofus gprbs_seed restartme leg_id opcode buffer =
    let run = prbs_verify buffer (u64 (gprbs_seed + leg_id)) kfootsize >>= λ verified.
    if verified then done tt else if opcode == end_of_millipede then done tt else exit edoofus in
    if ltb 0 gprbs_seed && not restartme then run else done tt

-- What the check does with a verdict on the buffer.
check_prbs-verdict :
    (edoofus seed leg_id opcode : ℕ) (buffer : List ℕ) (verdict : Bool)
    → 0 < seed
    → prbs_verify buffer (u64 (seed + leg_id)) kfootsize ≡ done verdict
    → check_prbs edoofus seed false leg_id opcode buffer
      ≡ (if verdict then done tt else if opcode == end_of_millipede then done tt else exit edoofus)
unfolding check_prbs
check_prbs-verdict edoofus seed leg_id opcode buffer verdict on e =
    let set : ltb 0 seed ≡ true = ground arith in rw (set, e) refl

-- A leg that `txpush` fills in a buffer of the size of a leg, under a seed other than 0, passes the
-- check of a receiver with the same seed, whatever the leg id. Under another seed a data leg, or any
-- that is not the last one, ends the process of the receiver, and the last leg passes.
pub check_prbs-fill_prbs :
    (edoofus seed seed' leg_id opcode : ℕ) (buffer : List ℕ)
    → 0 < seed
    → seed < 2 ^ 64
    → 0 < seed'
    → seed' < 2 ^ 64
    → kfootsize / 8 ≤ length buffer
    → ((seed ≡ seed')
        × ((fill_prbs seed leg_id buffer >>= check_prbs edoofus seed' false leg_id opcode)
            ≡ done tt))
      ⊎ ((seed ≢ seed')
          × ((fill_prbs seed leg_id buffer >>= check_prbs edoofus seed' false leg_id opcode)
              ≡ (if opcode == end_of_millipede then done tt else exit edoofus)))
unfolding fill_prbs
check_prbs-fill_prbs edoofus seed seed' leg_id opcode buffer on fit on' fit' fits =
    let set : ltb 0 seed ≡ true = ground arith in
    elim (ℕ_discrete seed seed') [
      | yes e ↦
          let (out, made, verdict) =
            >>=-eq-done (prbs_gen buffer (u64 (seed + leg_id)) kfootsize) _
              (prbs_verify-prbs_gen buffer (u64 (seed + leg_id)) kfootsize fits) in
          inl (
            e,
            rw (set, made)
                (check_prbs-verdict edoofus seed' leg_id opcode out true on' (
                  subst (λ k. prbs_verify out (u64 (k + leg_id)) kfootsize ≡ done true) e verdict)),
          )
      | no ne ↦
          let (out, made, verdict) = other ne in
          inr (
            ne,
            rw (set, made) (check_prbs-verdict edoofus seed' leg_id opcode out false on' verdict),
          )
    ]
  where
    other :
        seed ≢ seed'
        → (out : List ℕ) × (prbs_gen buffer (u64 (seed + leg_id)) kfootsize ≡ done out)
          × (prbs_verify out (u64 (seed' + leg_id)) kfootsize ≡ done false)
    other ne =
        >>=-eq-done (prbs_gen buffer (u64 (seed + leg_id)) kfootsize)
          (λ out. prbs_verify out (u64 (seed' + leg_id)) kfootsize)
          (prbs_verify_other buffer (u64 (seed + leg_id)) (u64 (seed' + leg_id)) kfootsize fits
            (omega arith) (λ z. ne (omega (arith, z))))
