-- ===== src/Rx/Deliver.antt =====
-- `rxworker` (rx.c) behind the wait for its turn: the payload is written to the output, and the opcode
-- of the leg says what becomes of it. `ebadrpc` is the number of <errno.h>, or what util.h puts in its
-- place.
use viamillipede.Prelude.{
  ℕ, ◌+◌, ◌≡◌, ◌≢◌, ◌⊎◌, inl, inr, refl, sym, ap, ap₂, ◌∙◌, true, List, [], ◌∷◌, ◌++◌, length, take,
  take-length-append, ◌==◌, ne→==, ==_refl, if◌then◌else◌, u64, ℕ_discrete,
}
use viamillipede.Prelude.Run.{Run, done, exit, abort, fault, spent, ◌>>=◌}
use viamillipede.Wire.{Millipacket, Leg, feed_more, end_of_millipede}
use viamillipede.Plumbing.Sink.{Written, wrote, refused, Sink}
use viamillipede.Rx.Worker.{
  Rxworker, Rxconf, head, sequenced, verify_checksum, RxMove, put, verify, stop, advance,
}

-- `next_leg++`
abbrev pub next_turn : Rxconf → Rxconf
next_turn c = record c { next_leg = u64 (c.next_leg + 1) }

-- From the test of the opcode to `next_leg++`.
unfoldable pub finish_leg : ℕ → Millipacket → List ℕ → Rxconf → Run Rxconf
finish_leg ebadrpc pkt buffer c =
    if pkt.opcode == end_of_millipede
    then done (next_turn (record c { done_mbox = true }))
    else if pkt.opcode == feed_more
    then (verify_checksum c.grx_saved_checksum pkt buffer >>= λ saved.
        done (next_turn (record c { grx_saved_checksum = saved })))
    else exit ebadrpc

module _ (sink : Sink) where
  open sink use {State, writev, sent, writev-sent, writev-errno}

  -- Behind `writev`: `checkperror`, and the assertion that all of the payload was written.
  unfoldable pub settle_output :
      ℕ → Millipacket → List ℕ → Rxconf → Written × State → Run (Rxconf × State)
  unfolding finish_leg
  settle_output ebadrpc pkt buffer c (refused errno, s) = if errno == 0 then abort else exit 4
  settle_output ebadrpc pkt buffer c (wrote writesize, s) =
      let c' = record c { output = c.output ++ take pkt.size buffer } in
      let run = finish_leg ebadrpc pkt buffer c' >>= λ c''. done (c'', s) in
      if writesize == pkt.size then run else abort

  unfoldable pub deliver : ℕ → State → Millipacket → List ℕ → Rxconf → Run (Rxconf × State)
  unfolding settle_output
  deliver ebadrpc s pkt buffer c =
      settle_output ebadrpc pkt buffer c (writev s (take pkt.size buffer ∷ []))

-- A number of steps of one worker, with nothing new on its connection.
pub data RxMoves (c : Rxconf) (w : Rxworker) (wire : List Leg) : Rxconf → Rxworker → Type 0 where
  no_move : RxMoves c w wire c w
  then_move :
      {c' c'' : Rxconf} {w' w'' : Rxworker}
      → RxMoves c w wire c' w'
      → RxMove c' w' wire c'' w'' wire
      → RxMoves c w wire c'' w''

module _ (c : Rxconf) (w : Rxworker) (wire : List Leg) (l : Leg) (at : w.pc ≡ sequenced l) where
  abbrev c₁ : Rxconf
  c₁ = record c { output = c.output ++ l.payload }

  -- The three steps behind the wait.
  stop_moves :
      l.pkt.opcode ≡ end_of_millipede
      → RxMoves c w wire (next_turn (record c₁ { done_mbox = true })) (record w { pc = head })
  stop_moves o = then_move (then_move (then_move no_move (put at)) (stop refl o)) (advance refl)

  feed_moves :
      (saved : ℕ)
      → l.pkt.opcode ≡ feed_more
      → verify_checksum c.grx_saved_checksum l.pkt w.buffer ≡ done saved
      → RxMoves c w wire
          (next_turn (record c₁ { grx_saved_checksum = saved }))
          (record w { pc = head })
  feed_moves saved o v =
      then_move (then_move (then_move no_move (put at)) (verify refl o v)) (advance refl)

module _ (sink : Sink) where
  open sink use {State, writev, sent, writev-sent, writev-errno}

  -- What the process does with a leg that it has written: it goes on as the steps of the session say,
  -- over an output that has the payload behind what was there, or it ends.
  pub data Delivers (ebadrpc : ℕ) (c : Rxconf) (w : Rxworker) (wire : List Leg) (l : Leg)
      (s' : State) : Run (Rxconf × State) → Type 0 where
    went_on :
        {c' : Rxconf}
        → RxMoves c w wire c' (record w { pc = head })
        → c'.next_leg ≡ u64 (c.next_leg + 1)
        → sent s' ≡ c'.output
        → Delivers ebadrpc c w wire l s' (done (c', s'))
    wrong_sum :
        {r : Run (Rxconf × State)}
        → l.pkt.opcode ≡ feed_more
        → ((saved : ℕ) → verify_checksum c.grx_saved_checksum l.pkt w.buffer ≢ done saved)
        → ((z : Rxconf × State) → r ≢ done z)
        → Delivers ebadrpc c w wire l s' r
    bogus :
        l.pkt.opcode ≢ feed_more
        → l.pkt.opcode ≢ end_of_millipede
        → Delivers ebadrpc c w wire l s' (exit ebadrpc)

  finish-Delivers :
      (ebadrpc : ℕ) (s s' : State) (c : Rxconf) (w : Rxworker) (wire : List Leg) (l : Leg)
      → w.pc ≡ sequenced l
      → sent s' ≡ c.output ++ l.payload
      → Delivers ebadrpc c w wire l s' (
          finish_leg ebadrpc l.pkt w.buffer (record c { output = c.output ++ l.payload }) >>= λ c''.
          done (c'', s'))
  unfolding finish_leg
  finish-Delivers ebadrpc s s' c w wire l at out = elim (ℕ_discrete l.pkt.opcode end_of_millipede) [
    | yes last ↦
        rw (ap (λ (k : ℕ). k == end_of_millipede) last ∙ ==_refl end_of_millipede)
          (went_on (stop_moves c w wire l at last) refl out)
    | no ne ↦ elim (ℕ_discrete l.pkt.opcode feed_more) [
      | yes more ↦
          rw
            (
              ne→== l.pkt.opcode end_of_millipede ne,
              ap (λ (k : ℕ). k == feed_more) more ∙ ==_refl feed_more,
            )
            (summed more (verify_checksum c.grx_saved_checksum l.pkt w.buffer) refl)
      | no other ↦
          rw (ne→== l.pkt.opcode end_of_millipede ne, ne→== l.pkt.opcode feed_more other)
            (bogus other ne)
    ]
  ]
    where
      summed :
          l.pkt.opcode ≡ feed_more
          → (v : Run ℕ) → verify_checksum c.grx_saved_checksum l.pkt w.buffer ≡ v
          → Delivers ebadrpc c w wire l s' (
              (v >>= λ saved.
              done (next_turn (record (c₁ c w wire l at) { grx_saved_checksum = saved })))
              >>= λ c''. done (c'', s'))
      summed more (done saved) e = went_on (feed_moves c w wire l at saved more e) refl out
      summed more (exit code) e = wrong_sum more (λ saved q. cc) (λ z q. cc)
      summed more abort e = wrong_sum more (λ saved q. cc) (λ z q. cc)
      summed more fault e = wrong_sum more (λ saved q. cc) (λ z q. cc)
      summed more spent e = wrong_sum more (λ saved q. cc) (λ z q. cc)

  -- A worker whose turn it is, with the payload of its leg at the front of its buffer, over an output
  -- that takes the payload whole: it does what the steps of the session say, which put out the payload
  -- and move on `next_leg` by one, or it ends the process, for a wrong checksum or an opcode that is
  -- neither of the two. An output that takes less fails the assertion.
  pub deliver-RxMoves :
      (ebadrpc n : ℕ) (s s' : State) (c : Rxconf) (w : Rxworker) (wire : List Leg) (l : Leg)
      → w.pc ≡ sequenced l
      → length l.payload ≡ l.pkt.size
      → take l.pkt.size w.buffer ≡ l.payload
      → sent s ≡ c.output
      → writev s (take l.pkt.size w.buffer ∷ []) ≡ (wrote n, s')
      → ((n ≡ l.pkt.size)
          × Delivers ebadrpc c w wire l s' (deliver sink ebadrpc s l.pkt w.buffer c))
        ⊎ ((n ≢ l.pkt.size) × (deliver sink ebadrpc s l.pkt w.buffer c ≡ abort))
  unfolding deliver
  deliver-RxMoves ebadrpc n s s' c w wire l at len front before e = elim (ℕ_discrete n l.pkt.size) [
    | no short ↦ inr (short, rw (e, ne→== n l.pkt.size short) refl)
    | yes whole ↦
        let out : sent s' ≡ c.output ++ l.payload =
          writev-sent s s' (take l.pkt.size w.buffer ∷ []) n e
          ∙ ap₂ (λ (a : List ℕ) (k : ℕ). a ++ take k (take l.pkt.size w.buffer ++ [])) before
              (whole ∙ sym len)
          ∙ ap (λ (b : List ℕ). c.output ++ take (length l.payload) (b ++ [])) front
          ∙ ap (λ (b : List ℕ). c.output ++ b) (take-length-append l.payload []) in
        inl (
          whole,
          rw (e, ap (λ (k : ℕ). k == l.pkt.size) whole ∙ ==_refl l.pkt.size, front)
              (finish-Delivers ebadrpc s s' c w wire l at out),
        )
  ]
