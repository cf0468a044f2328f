-- ===== src/Tx/Sums.antt =====
-- The checksum of a leg, as `txingest` (tx.c) makes it and as `rxworker` (rx.c) checks it.
use viamillipede.Prelude.{
  ℕ, ◌+◌, ◌≤◌, ◌≡◌, ◌≢◌, refl, sym, ap, ◌∙◌, subst, Bool, true, false, Bool-cases, inl, inr, List,
  ◌++◌, take, ltb, ne→==, ==_refl, u64, arith,
}
use viamillipede.Prelude.Run.{Run, done, >>=-eq-done, done_injective}
use viamillipede.Wire.{kfootsize, Millipacket}
use viamillipede.Plumbing.Mix.{mix}
use viamillipede.Plumbing.Mix.Front.{mix-take}
use viamillipede.Plumbing.Source.{Source}
use viamillipede.Plumbing.Bufferfill.{Filled, bufferfill}
use viamillipede.Tx.Ingest.{
  Config, Round, feed, shutdown, limit_reached, leg_checksum, decide_round, ingest_round,
}
use viamillipede.Rx.Worker.{verify_checksum}

module _ (src : Source) (cfg : Config) where
  open src use {State}
  open cfg use {gchecksums, gleg_limit}

  -- The checksum of a leg that a round makes.
  abbrev pub IsSummed : ℕ → ℕ → Round src cfg → Type 0
  IsSummed counter saved (feed readsize saved' checksum buffer rest) =
      leg_checksum gchecksums saved counter buffer readsize ≡ Run.done (saved', checksum)
  IsSummed counter saved (shutdown buffer rest) = Unit {0}

  decide_round-IsSummed :
      (counter saved : ℕ) (r : Filled src) (round : Round src cfg)
      → decide_round src cfg counter saved r ≡ Run.done round
      → IsSummed counter saved round
  unfolding decide_round
  decide_round-IsSummed counter saved r round e =
      elim (Bool-cases (limit_reached gleg_limit counter)) [
        | inl l ↦ subst (IsSummed counter saved) (done_injective (rw l at e)) tt
        | inr l ↦ elim (Bool-cases (ltb 0 r.accumulator)) [
          | inl more ↦
              let (sums, made, e') =
                >>=-eq-done (leg_checksum gchecksums saved counter r.dest r.accumulator)
                  (λ sums. Run.done (feed r.accumulator sums.0 sums.1 r.dest r.rest)) {b = round}
                  (rw (l, more) at e) in
              subst (IsSummed counter saved) (done_injective e') made
          | inr none ↦ subst (IsSummed counter saved) (done_injective (rw (l, none) at e)) tt
        ]
      ]

  pub ingest_round-IsSummed :
      (counter saved : ℕ) (buffer : List ℕ) (input : State) (round : Round src cfg)
      → ingest_round src cfg counter saved buffer input ≡ Run.done round
      → IsSummed counter saved round
  ingest_round-IsSummed counter saved buffer input round e =
      let (r, filled, decided) =
        >>=-eq-done (bufferfill src 0 buffer kfootsize cfg.gcharmode input)
          (decide_round src cfg counter saved) {b = round} (unfold ingest_round in e) in
      decide_round-IsSummed counter saved r round decided

-- The receiver's check of a leg: over a buffer with the payload at its front, and with the saved
-- checksum of the transmitter, it accepts the checksum of the transmitter and saves the same.
pub leg_checksum-verify :
    (g : Bool) (saved saved' checksum : ℕ) (pkt : Millipacket) (buffer tail : List ℕ)
    → leg_checksum g saved pkt.leg_id buffer pkt.size ≡ done (saved', checksum)
    → (g ≡ true → (8 ≤ pkt.size) × (checksum ≢ 0))
    → pkt.size ≤ kfootsize
    → pkt.checksum ≡ checksum
    → verify_checksum saved pkt (take pkt.size buffer ++ tail) ≡ done saved'
unfolding leg_checksum verify_checksum
leg_checksum-verify true saved saved' checksum pkt buffer tail e long fits same =
    let (c, made, e') =
      >>=-eq-done (mix (u64 (saved + pkt.leg_id)) buffer pkt.size) (λ sum. done (sum, sum)) e in
    let both = done_injective e' in
    let kept : c ≡ saved' = ap (λ (z : ℕ × ℕ). z.0) both in
    let sent : c ≡ pkt.checksum = ap (λ (z : ℕ × ℕ). z.1) both ∙ sym same in
    let (lo, nonzero) = long refl in
    rw
      (
        ne→== pkt.checksum 0 (λ z. nonzero (sym same ∙ z)),
        mix-take (u64 (saved + pkt.leg_id)) buffer tail pkt.size c lo (omega arith) made,
        sent,
        ==_refl pkt.checksum,
      )
      (ap done (sym sent ∙ kept))
leg_checksum-verify false saved saved' checksum pkt buffer tail e long fits same =
    let both = done_injective e in
    let kept : saved ≡ saved' = ap (λ (z : ℕ × ℕ). z.0) both in
    let none : pkt.checksum ≡ 0 = same ∙ sym (ap (λ (z : ℕ × ℕ). z.1) both) in
    rw none (ap done kept)
