-- ===== src/Tx/Stream.antt =====
-- `txingest` (tx.c) with one worker, which pushes each leg before the next is made: the legs that it
-- makes of the whole input. The wait for the worker is in Tx/Dispatch, and the push in Tx/Push.
use viamillipede.Prelude.{
  ℕ, zero, suc, ◌+◌, ◌^◌, ◌≤◌, ◌<◌, ◌≡◌, ◌⊎◌, inl, inr, refl, sym, ap, ap₂, subst, ◌∙◌, Bool, true,
  false, List, [], ◌∷◌, ◌++◌, length, length-append, take, take-length-append, ltb, u64, arith,
}
use native.Mathlib.Nat.{mod-eq_of_lt}
use viamillipede.Prelude.Run.{Run, done, exit, spent, ◌>>=◌}
use viamillipede.Wire.{kfootsize, Leg, leg_of, end_of_millipede}
use viamillipede.Wire.Frame.{IsSound, IsHeader}
use viamillipede.Plumbing.Source.{Source, ReadsTo, ReadFails, ReadFails-later}
use viamillipede.Plumbing.Bufferfill.{Filled, bufferfill}
use viamillipede.Plumbing.Bufferfill.Filling.{Fills, filled, read_error, bufferfill-Fills}
use viamillipede.Tx.Worker.{Txworker, dispatch_leg, dispatch_end, begin_push, write_leg, release}
use viamillipede.Tx.Ingest.{
  Config, Round, feed, shutdown, limit_reached, leg_checksum, decide_round, ingest_round,
}
use viamillipede.Rx.Loop.Turn.{payloads, IsNext, AreNext}

module _ (src : Source) (cfg : Config) where
  open src use {State, pending}

  -- The end of a round, with the rounds that follow it.
  unfoldable pub emit :
      (ℕ → Txworker → State → Run (List Leg)) → ℕ → Txworker → Round src cfg → Run (List Leg)
  emit again leg w (feed readsize saved checksum buffer rest) =
      let w' = dispatch_leg leg readsize checksum buffer w in
      again saved (release false (write_leg false (begin_push false w'))) rest >>= λ legs.
      done (leg_of w'.pkt w'.buffer ∷ legs)
  emit again leg w (shutdown buffer rest) =
      let w' = dispatch_end leg (record w { buffer = buffer }) in
      done (leg_of w'.pkt w'.buffer ∷ [])

  -- `while (!txconf->done)`: the legs that go out, from the one with the id `leg` on.
  unfoldable pub ingest_stream : ℕ → ℕ → ℕ → Txworker → State → Run (List Leg)
  unfolding emit
  ingest_stream zero leg saved w input = spent
  ingest_stream (suc fuel) leg saved w input =
      ingest_round src cfg leg saved w.buffer input
      >>= emit (ingest_stream fuel (u64 (leg + 1))) leg w

  module _ (plain : cfg.gchecksums ≡ false) (no_limit : cfg.gleg_limit ≡ 0) where
    open_lem : (leg : ℕ) → limit_reached cfg.gleg_limit leg ≡ false
    unfolding limit_reached
    open_lem leg = ground (arith, no_limit)

    fed_lem :
        (leg saved : ℕ) (r : Filled src)
        → ltb 0 r.accumulator ≡ true
        → decide_round src cfg leg saved r ≡ done (feed r.accumulator saved 0 r.dest r.rest)
    unfolding decide_round leg_checksum
    fed_lem leg saved r more =
        let made : ℕ × ℕ → Run (Round src cfg) =
          λ sums. done (feed r.accumulator sums.0 sums.1 r.dest r.rest) in
        rw (open_lem leg, more)
          (ap (λ (g : Bool). leg_checksum g saved leg r.dest r.accumulator >>= made) plain)

    drained_lem :
        (leg saved : ℕ) (r : Filled src)
        → ltb 0 r.accumulator ≡ false
        → decide_round src cfg leg saved r ≡ done (shutdown r.dest r.rest)
    unfolding decide_round
    drained_lem leg saved r none = rw (open_lem leg, none) refl

    -- How a round ends.
    data Rounds (leg saved : ℕ) (input : State) : Run (Round src cfg) → Type 0 where
      fed :
          (bytes dest : List ℕ) (rest : State)
          → 0 < length bytes
          → length bytes ≤ kfootsize
          → pending input ≡ bytes ++ pending rest
          → take (length bytes) dest ≡ bytes
          → ReadsTo src input rest
          → Rounds leg saved input (done (feed (length bytes) saved 0 dest rest))
      drained :
          (dest : List ℕ) (rest : State)
          → pending input ≡ []
          → Rounds leg saved input (done (shutdown dest rest))
      broken : ReadFails src input → Rounds leg saved input (exit 4)

    ingest_round-Rounds :
        (leg saved : ℕ) (buffer : List ℕ) (input : State)
        → Rounds leg saved input (ingest_round src cfg leg saved buffer input)
    unfolding ingest_round
    ingest_round-Rounds leg saved buffer input =
        go (bufferfill src 0 buffer kfootsize cfg.gcharmode input)
          (bufferfill-Fills src buffer kfootsize cfg.gcharmode input)
      where
        go :
            (r : Run (Filled src))
            → Fills src input kfootsize buffer cfg.gcharmode r
            → Rounds leg saved input (r >>= decide_round src cfg leg saved)
        go r (filled [] dest rest few took shape stops reached) =
            subst (Rounds leg saved input)
              (sym
                (drained_lem leg saved (record { accumulator = 0; dest = dest; rest = rest }) refl))
              (drained dest rest (took ∙ ground (arith, stops)))
        go r (filled (x ∷ bs) dest rest few took shape stops reached) =
            subst (Rounds leg saved input)
              (sym (
                fed_lem leg saved
                  (record { accumulator = length (x ∷ bs); dest = dest; rest = rest })
                  (ground arith)))
              (fed (x ∷ bs) dest rest (omega arith) few took
                (ap (take (length (x ∷ bs))) shape ∙ take-length-append (x ∷ bs) _) reached)
        go r (read_error f) = broken f

    -- The legs that carry `bytes`, with the ids from `leg` on, and the last leg behind them.
    pub record IsWhole (leg : ℕ) (bytes : List ℕ) (r : Run (List Leg)) : Type 0 where
      pub legs : List Leg
      pub last : Leg
      pub made : r ≡ done (legs ++ (last ∷ []))
      pub next : AreNext leg legs
      pub carried : payloads legs ≡ bytes
      pub few : length legs ≤ length bytes
      pub sound : IsSound last
      pub ends : last.pkt.opcode ≡ end_of_millipede
      pub id : last.pkt.leg_id ≡ leg + length legs
      pub empty : last.payload ≡ []

    last_lem :
        (leg : ℕ) (w : Txworker) (dest : List ℕ)
        → IsHeader w.pkt
        → leg < 2 ^ 64
        → IsWhole leg [] (
            done (
              leg_of
                (dispatch_end leg (record w { buffer = dest })).pkt
                (dispatch_end leg (record w { buffer = dest })).buffer
              ∷ []))
    unfolding dispatch_end
    last_lem leg w dest ok fit = record {
      legs = [];
      last =
          leg_of (dispatch_end leg (record w { buffer = dest })).pkt
            (dispatch_end leg (record w { buffer = dest })).buffer;
      made = refl;
      next = tt;
      carried = refl;
      few = omega arith;
      sound = record {
        header = record {
          preamble = ok.preamble;
          leg_id = fit;
          size = omega arith;
          checksum = ok.checksum;
          opcode = omega arith;
        };
        fits = omega arith;
        whole = refl;
      };
      ends = refl;
      id = omega arith;
      empty = refl;
    }

    first_lem :
        (leg : ℕ) (w : Txworker) (bytes dest : List ℕ)
        → IsHeader w.pkt
        → leg < 2 ^ 64
        → length bytes ≤ kfootsize
        → take (length bytes) dest ≡ bytes
        → IsNext leg (
            leg_of
              (dispatch_leg leg (length bytes) 0 dest w).pkt
              (dispatch_leg leg (length bytes) 0 dest w).buffer)
    unfolding dispatch_leg
    first_lem leg w bytes dest ok fit few front = record {
      sound = record {
        header = record {
          preamble = ok.preamble;
          leg_id = fit;
          size = omega arith;
          checksum = omega arith;
          opcode = omega arith;
        };
        fits = few;
        whole = ap length front;
      };
      unsummed = refl;
      more = refl;
      id = refl;
    }

    released_lem :
        (leg n : ℕ) (dest : List ℕ) (w : Txworker)
        → IsHeader w.pkt
        → leg < 2 ^ 64
        → n ≤ kfootsize
        → IsHeader
            (release false (write_leg false (begin_push false (dispatch_leg leg n 0 dest w)))).pkt
    unfolding dispatch_leg begin_push write_leg release
    released_lem leg n dest w ok fit few = record {
      preamble = ok.preamble;
      leg_id = fit;
      size = omega arith;
      checksum = omega arith;
      opcode = omega arith;
    }

    payload_lem :
        (leg n : ℕ) (dest : List ℕ) (w : Txworker)
        → take (dispatch_leg leg n 0 dest w).pkt.size (dispatch_leg leg n 0 dest w).buffer
          ≡ take n dest
    unfolding dispatch_leg
    payload_lem leg n dest w = refl

    -- A leg in front.
    more_lem :
        (leg : ℕ) (l : Leg) (bytes rest : List ℕ) (r : Run (List Leg))
        → IsNext leg l
        → l.payload ≡ bytes
        → 0 < length bytes
        → IsWhole (leg + 1) rest r
        → IsWhole leg (bytes ++ rest) (r >>= λ legs. done (l ∷ legs))
    more_lem leg l bytes rest r next same some v = record {
      legs = l ∷ v.legs;
      last = v.last;
      made = ap (λ (x : Run (List Leg)). x >>= λ legs. done (l ∷ legs)) v.made;
      next = (next, v.next);
      carried = ap₂ (λ (a b : List ℕ). a ++ b) same v.carried;
      few = omega (arith, v.few, length-append bytes rest);
      sound = v.sound;
      ends = v.ends;
      id = v.id ∙ omega arith;
      empty = v.empty;
    }

    -- With no checksums and no leg limit, for fewer than 2 ^ 64 legs: the ingest thread comes to its end,
    -- and the legs that it made carry the whole input, in order and with the ids from `leg` on, or a
    -- read of the input fails and the process ends with status 4.
    pub ingest_stream-IsWhole :
        (fuel leg saved : ℕ) (w : Txworker) (input : State)
        → length (pending input) < fuel
        → leg + length (pending input) + 1 < 2 ^ 64
        → IsHeader w.pkt
        → (ReadFails src input × (ingest_stream fuel leg saved w input ≡ exit 4))
          ⊎ IsWhole leg (pending input) (ingest_stream fuel leg saved w input)
    unfolding ingest_stream
    ingest_stream-IsWhole zero leg saved w input enough fit ok = absurd (omega arith)
    ingest_stream-IsWhole (suc fuel) leg saved w input enough fit ok =
        go (ingest_stream-IsWhole fuel) (ingest_round src cfg leg saved w.buffer input)
          (ingest_round-Rounds leg saved w.buffer input)
      where
        go :
            ((leg' saved' : ℕ) (w' : Txworker) (input' : State)
              → length (pending input') < fuel
              → leg' + length (pending input') + 1 < 2 ^ 64
              → IsHeader w'.pkt
              → (ReadFails src input' × (ingest_stream fuel leg' saved' w' input' ≡ exit 4))
                ⊎ IsWhole leg' (pending input') (ingest_stream fuel leg' saved' w' input'))
            → (r : Run (Round src cfg)) → Rounds leg saved input r
            → (ReadFails src input
                × ((r >>= emit (ingest_stream fuel (u64 (leg + 1))) leg w) ≡ exit 4))
              ⊎ IsWhole leg (pending input) (r >>= emit (ingest_stream fuel (u64 (leg + 1))) leg w)
        go ih r (broken f) = inl (f, refl)
        go ih r (drained dest rest none) = inr (
            subst
              (λ (bytes : List ℕ).
                IsWhole leg bytes
                  (done (shutdown dest rest) >>= emit (ingest_stream fuel (u64 (leg + 1))) leg w))
              (sym none) (last_lem leg w dest ok (omega arith)))
        go ih r (fed bytes dest rest some few took front reached) =
            let w' : Txworker =
              release false
                (write_leg false (begin_push false (dispatch_leg leg (length bytes) 0 dest w))) in
            let l : Leg =
              leg_of (dispatch_leg leg (length bytes) 0 dest w).pkt
                (dispatch_leg leg (length bytes) 0 dest w).buffer in
            let step : ingest_stream fuel (u64 (leg + 1)) saved w' rest
                ≡ ingest_stream fuel (leg + 1) saved w' rest =
              ap (λ (k : ℕ). ingest_stream fuel k saved w' rest) (mod-eq_of_lt (omega arith)) in
            let size : length (pending input) ≡ length bytes + length (pending rest) =
              ap length took ∙ length-append bytes (pending rest) in
            elim (ih (leg + 1) saved w' rest (omega (arith, size)) (omega (arith, size))
              (released_lem leg (length bytes) dest w ok (omega arith) few)) [
                | inl (f, ended) ↦ inl (
                  ReadFails-later src reached f,
                  ap (λ (x : Run (List Leg)). x >>= λ legs. done (l ∷ legs)) (step ∙ ended),
                )
                | inr v ↦ inr (
                    subst
                      (λ (b : List ℕ). IsWhole leg b (
                        ingest_stream fuel (u64 (leg + 1)) saved w' rest >>= λ legs.
                        done (l ∷ legs)))
                      (sym took)
                      (more_lem leg l bytes (pending rest)
                        (ingest_stream fuel (u64 (leg + 1)) saved w' rest)
                        (first_lem leg w bytes dest ok (omega arith) few front)
                        (payload_lem leg (length bytes) dest w ∙ front) some
                        (subst (λ (x : Run (List Leg)). IsWhole (leg + 1) (pending rest) x)
                          (sym step) v)))
              ]
