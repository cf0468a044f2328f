-- ===== src/Tx/Rounds.antt =====
-- What a round of `txingest` takes from the input.
use viamillipede.Prelude.{
  ℕ, ◌≤◌, ◌<◌, ◌≡◌, inl, inr, sym, ap, ap₂, subst, ltb→lt, nil_of_length, ◌∙◌, false, Bool-cases,
  List, [], ◌++◌, take, take-length-append, ltb, arith,
}
use mathlib.Core.Bool.{false≢true}
use viamillipede.Prelude.Run.{Run, >>=-eq-done, done_injective}
use viamillipede.Wire.{kfootsize}
use viamillipede.Plumbing.Source.{Source}
use viamillipede.Plumbing.Bufferfill.{Filled, bufferfill}
use viamillipede.Plumbing.Bufferfill.Filling.{IsFilled, bufferfill-Fills, Fills-done}
use viamillipede.Tx.Ingest.{
  Config, Round, feed, shutdown, limit_reached, leg_checksum, decide_round, ingest_round,
}

module _ (src : Source) (cfg : Config) where
  open src use {State, pending}
  open cfg use {gcharmode, gchecksums, gleg_limit}

  -- What a round does with the input.
  abbrev pub Takes : State → Round src cfg → Type 0
  Takes input (feed readsize saved checksum buffer rest) =
      (0 < readsize)
      × (readsize ≤ kfootsize)
      × (pending input ≡ take readsize buffer ++ pending rest)
  Takes input (shutdown buffer rest) =
      (lost : List ℕ) × (pending input ≡ lost ++ pending rest)
      × (gleg_limit ≡ 0 → (lost ≡ []) × (pending rest ≡ []))

  no_limit : (counter : ℕ) → gleg_limit ≡ 0 → limit_reached gleg_limit counter ≡ false
  unfolding limit_reached
  no_limit counter e = ground arith

  take_bytes :
      {s : State} (r : Filled src) (f : IsFilled src s kfootsize gcharmode r)
      → take r.accumulator r.dest ≡ f.bytes
  take_bytes r f = ap₂ take f.counts f.stored ∙ take-length-append f.bytes f.behind

  empty_round :
      {s : State} (r : Filled src) (f : IsFilled src s kfootsize gcharmode r)
      → ltb 0 r.accumulator ≡ false
      → (f.bytes ≡ []) × (pending r.rest ≡ [])
  empty_round r f e = ground (arith, f.stops, f.counts, nil_of_length f.bytes)

  fed_bytes :
      {s : State} (r : Filled src) (f : IsFilled src s kfootsize gcharmode r)
      → pending s ≡ take r.accumulator r.dest ++ pending r.rest
  fed_bytes r f = f.consumed ∙ ap (λ l. l ++ pending r.rest) (sym (take_bytes r f))

  decide_round-Takes :
      {s : State} (counter saved : ℕ) (r : Filled src) (round : Round src cfg)
      → IsFilled src s kfootsize gcharmode r
      → decide_round src cfg counter saved r ≡ Run.done round
      → Takes s round
  unfolding decide_round
  decide_round-Takes {s} counter saved r round f e =
      elim (Bool-cases (limit_reached gleg_limit counter)) [
        | inl l ↦
            subst (Takes s) (done_injective (rw l at e))
              (f.bytes, f.consumed, λ z. absurd (false≢true (sym (no_limit counter z) ∙ l)))
        | inr l ↦ elim (Bool-cases (ltb 0 r.accumulator)) [
          | inl more ↦
              let (sums, made, e') =
                >>=-eq-done (leg_checksum gchecksums saved counter r.dest r.accumulator)
                  (λ sums. Run.done (feed r.accumulator sums.0 sums.1 r.dest r.rest)) {b = round}
                  (rw (l, more) at e) in
              subst (Takes s) (done_injective e')
                (ltb→lt _ _ more, omega (arith, f.few, f.counts), fed_bytes r f)
          | inr none ↦
              subst (Takes s) (done_injective (rw (l, none) at e))
                (f.bytes, f.consumed, λ z. empty_round r f none)
        ]
      ]

  -- A round that comes to its end: if it makes a leg, it takes from 1 to `kfootsize` bytes, and the
  -- first `readsize` bytes of the buffer are the next bytes of the input. If it ends the stream, it
  -- makes no leg of what it took; with no leg limit it took nothing, and the input is at its end.
  pub ingest_round-Takes :
      (counter saved : ℕ) (buffer : List ℕ) (input : State) (round : Round src cfg)
      → ingest_round src cfg counter saved buffer input ≡ Run.done round
      → Takes input round
  ingest_round-Takes counter saved buffer input round e =
      let (r, filled, decided) =
        >>=-eq-done (bufferfill src 0 buffer kfootsize gcharmode input)
          (decide_round src cfg counter saved) {b = round} (unfold ingest_round in e) in
      decide_round-Takes counter saved r round
        (Fills-done src r (bufferfill-Fills src buffer kfootsize gcharmode input) filled) decided
