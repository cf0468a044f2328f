-- ===== src/Tx/Pseudo.antt =====
-- `txingest` (tx.c) in the pseudorandom mode, in which nothing is read: every leg has the size of the
-- buffer, and `txpush` fills it. The buffers are those of the workers that the rounds are given.
pub mod Sums
use viamillipede.Prelude.{
  ℕ, zero, suc, ◌+◌, ◌*◌, ◌/◌, ◌%◌, ◌^◌, ◌≤◌, ◌<◌, ◌≡◌, ◌⊎◌, inl, inr, refl, sym, ap, ◌∙◌, Bool,
  true, false, List, [], ◌∷◌, ltb, ◌==◌, ==_refl, ne→==, u64, arith, ℕ_discrete,
}
use native.Mathlib.Nat.{mod-eq_of_lt}
use viamillipede.Prelude.Run.{Run, done, spent, ◌>>=◌}
use viamillipede.Wire.{kfootsize}
use viamillipede.Plumbing.Mix.{load_ulong, mix}
use viamillipede.Plumbing.Mix.Closed.{mix_closed, rounds_of}
use viamillipede.Plumbing.Source.{Source}
use viamillipede.Tx.Ingest.{
  Config, Round, feed, shutdown, limit_reached, leg_checksum, decide_round,
}

module _ (src : Source) (cfg : Config) where
  open src use {State}

  -- `readsize = kfootsize;`
  unfoldable pub prbs_round : ℕ → ℕ → List ℕ → State → Run (Round src cfg)
  prbs_round ingest_leg_counter saved buffer input =
      decide_round src cfg ingest_leg_counter saved
        (record { accumulator = kfootsize; dest = buffer; rest = input })

  -- The legs that are made: the ids and sizes of the data legs, and the id of the last one.
  pub record Made : Type 0 where
    pub legs : List (ℕ × ℕ)
    pub end : ℕ

  -- Behind a round: a leg, and the rounds that follow it, or `txshutdown`.
  unfoldable pub follow : (ℕ → Run Made) → ℕ → Round src cfg → Run Made
  follow again ingest_leg_counter (feed readsize saved checksum buffer rest) = again saved >>= λ m.
      done (record { legs = (ingest_leg_counter, readsize) ∷ m.legs; end = m.end })
  follow again ingest_leg_counter (shutdown buffer rest) =
      done (record { legs = []; end = ingest_leg_counter })

  -- `while (!txconf->done)`, with the buffer of the worker of each round.
  unfoldable pub prbs_ingest : (ℕ → List ℕ) → State → ℕ → ℕ → ℕ → Run Made
  unfolding follow
  prbs_ingest buffers input zero ingest_leg_counter saved = spent
  prbs_ingest buffers input (suc fuel) ingest_leg_counter saved =
      prbs_round ingest_leg_counter saved (buffers ingest_leg_counter) input
      >>= follow (prbs_ingest buffers input fuel (u64 (ingest_leg_counter + 1))) ingest_leg_counter

  -- `n` legs of the full size, with the ids from `k` on.
  abbrev pub full_legs : ℕ → ℕ → List (ℕ × ℕ)
  full_legs k zero = []
  full_legs k (suc n) = (k, kfootsize) ∷ full_legs (k + 1) n

  -- A buffer of at least a word has a checksum.
  leg_checksum_returns :
      (g : Bool) (saved leg w : ℕ) (buffer : List ℕ)
      → load_ulong buffer ≡ done w
      → (sums : ℕ × ℕ) × (leg_checksum g saved leg buffer kfootsize ≡ done sums)
  unfolding leg_checksum
  leg_checksum_returns true saved leg w buffer e =
      let sum =
        (u64 (saved + leg) + rounds_of kfootsize * w + 4 * (rounds_of kfootsize * (kfootsize / 8)))
        % 2 ^ 32 in
      (
        (sum, sum),
        ap (λ (r : Run ℕ). r >>= λ c. done (c, c))
            (mix_closed (u64 (saved + leg)) buffer kfootsize w e (omega arith)),
      )
  leg_checksum_returns false saved leg w buffer e = ((saved, 0), refl)

  module _ (buffers : ℕ → List ℕ) (input : State)
      (words : (k : ℕ) → (w : ℕ) × (load_ulong (buffers k) ≡ done w)) where
    -- A round short of the limit makes a full leg.
    round-full :
        (k saved : ℕ)
        → limit_reached cfg.gleg_limit k ≡ false
        → (saved' checksum : ℕ) × (prbs_round k saved (buffers k) input
            ≡ done (feed kfootsize saved' checksum (buffers k) input))
    unfolding prbs_round decide_round
    round-full k saved short =
        let (sums, e) =
          leg_checksum_returns cfg.gchecksums saved k (words k).0 (buffers k) (words k).1 in
        (sums.0, sums.1, rw (short, e) refl)

    more_legs :
        (fuel k saved : ℕ)
        → limit_reached cfg.gleg_limit k ≡ false
        → (saved' : ℕ) × (prbs_ingest buffers input (suc fuel) k saved ≡ (
            prbs_ingest buffers input fuel (u64 (k + 1)) saved' >>= λ m.
            done (record { legs = (k, kfootsize) ∷ m.legs; end = m.end })))
    unfolding prbs_ingest
    more_legs fuel k saved short =
        let (saved', checksum, e) = round-full k saved short in (saved', rw e refl)

    open_lem :
        (k : ℕ)
        → (cfg.gleg_limit ≡ 0) ⊎ (k < cfg.gleg_limit)
        → limit_reached cfg.gleg_limit k ≡ false
    unfolding limit_reached
    open_lem k e = ground arith

    reached_lem :
        (k : ℕ) → k ≡ cfg.gleg_limit → 0 < cfg.gleg_limit → limit_reached cfg.gleg_limit k ≡ true
    unfolding limit_reached
    reached_lem k e some = ground arith

    to_limit :
        (n fuel k saved : ℕ)
        → k + n ≡ cfg.gleg_limit
        → 0 < cfg.gleg_limit
        → cfg.gleg_limit < 2 ^ 64
        → n < fuel
        → prbs_ingest buffers input fuel k saved
          ≡ done (record { legs = full_legs k n; end = cfg.gleg_limit })
    unfolding prbs_ingest prbs_round decide_round
    to_limit n zero k saved at some fit enough = absurd (omega arith)
    to_limit zero (suc fuel) k saved at some fit enough =
        rw (reached_lem k (omega arith) some)
          (ap (λ (e : ℕ). done (record { legs = []; end = e })) (omega arith))
    to_limit (suc n) (suc fuel) k saved at some fit enough =
        let (saved', e) = more_legs fuel k saved (open_lem k (inr (omega arith))) in
        let next : u64 (k + 1) ≡ k + 1 = mod-eq_of_lt (omega arith) in
        e
        ∙ ap
            (λ (j : ℕ). prbs_ingest buffers input fuel j saved' >>= λ m.
              done (record { legs = (k, kfootsize) ∷ m.legs; end = m.end }))
            next
        ∙ ap
            (λ (r : Run Made).
              r >>= λ m. done (record { legs = (k, kfootsize) ∷ m.legs; end = m.end }))
            (to_limit n fuel (k + 1) saved' (omega arith) some fit (omega arith))

    never_ends :
        (fuel k saved : ℕ) → cfg.gleg_limit ≡ 0 → prbs_ingest buffers input fuel k saved ≡ spent
    unfolding prbs_ingest
    never_ends zero k saved none = refl
    never_ends (suc fuel) k saved none =
        let (saved', e) = more_legs fuel k saved (open_lem k (inl none)) in
        e
        ∙ ap
            (λ (r : Run Made).
              r >>= λ m. done (record { legs = (k, kfootsize) ∷ m.legs; end = m.end }))
            (never_ends fuel (u64 (k + 1)) saved' none)

    -- In the pseudorandom mode, over buffers of at least a word: with a leg limit, which is less than
    -- 2 ^ 64, the ingest thread ends in its round `gleg_limit + 1`, behind exactly `gleg_limit` legs of
    -- the full size with the ids from 0 on, and the last leg has the limit as its id; with none it does
    -- not end after any number of rounds.
    pub prbs_ingest-full_legs :
        (fuel saved : ℕ)
        → cfg.gleg_limit < 2 ^ 64
        → cfg.gleg_limit < fuel
        → ((0 < cfg.gleg_limit)
            × (prbs_ingest buffers input fuel 0 saved
                ≡ done (record { legs = full_legs 0 cfg.gleg_limit; end = cfg.gleg_limit })))
          ⊎ ((cfg.gleg_limit ≡ 0) × ((any : ℕ) → prbs_ingest buffers input any 0 saved ≡ spent))
    prbs_ingest-full_legs fuel saved fit enough = elim (ℕ_discrete cfg.gleg_limit 0) [
      | yes none ↦ inr (none, λ any. never_ends any 0 saved none)
      | no some ↦ inl (
        omega (arith, some),
        to_limit cfg.gleg_limit fuel 0 saved (omega arith) (omega (arith, some)) fit enough,
      )
    ]
