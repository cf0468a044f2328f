-- ===== src/Rx/Loop/Resume.antt =====
-- A stream whose connection is lost inside a leg, and which is resumed with that leg on another one.
use viamillipede.Prelude.{
  ℕ, suc, ◌+◌, ◌-◌, ◌^◌, ◌≤◌, ◌<◌, ◌≡◌, ◌⊎◌, inl, inr, sym, ap, subst, ◌∙◌, Bool, true, false, List,
  ◌∷◌, ◌++◌, append_assoc, length, overwrite, if◌then◌else◌, arith,
}
use viamillipede.Prelude.Run.{Run, done, exit, ◌>>=◌}
use viamillipede.Wire.{Leg, end_of_millipede}
use viamillipede.Wire.Frame.{header_bytes, frame, frames, IsSound}
use viamillipede.Plumbing.Source.{Source, no_read}
use viamillipede.Plumbing.Sink.{Sink}
use viamillipede.Rx.Worker.{Rxconf}
use viamillipede.Rx.Mishap.{Mishap, Mishap-later}
use viamillipede.Rx.Loop.{
  Ending, over, restarting, is_restart, Progress, inner_loop, after_inner, rxworker,
}
use viamillipede.Rx.Loop.Turn.{payloads, AreNext, IsRoomy}
use viamillipede.Rx.Loop.Rounds.{legs_lem, end_lem, cut_lem}

module _ (src : Source) (sink : Sink) (roomy : IsRoomy sink) (ebadrpc : ℕ)
    (stack : ℕ → List ℕ) where
  open src use {pending}
  open sink use {sent}

  -- Behind `tcp_accept` and the check phrase.
  accepted_lem :
      (checkphrase : List ℕ) (fuel : ℕ) (s : src.State) (ss : List src.State) (buffer : List ℕ)
      (c : Rxconf) (out : sink.State) {r : Run (Progress src sink)}
      → c.done_mbox ≡ false
      → inner_loop src sink ebadrpc stack fuel (overwrite buffer 0 checkphrase) s c out ≡ r
      → rxworker src sink ebadrpc stack fuel checkphrase (s ∷ ss) buffer c out ≡ (
          r
          >>= after_inner src sink ebadrpc stack
              (rxworker src sink ebadrpc stack fuel checkphrase ss))
  unfolding rxworker
  accepted_lem checkphrase fuel s ss buffer c out going e =
      ap
        (λ (b : Bool).
          if b
          then done (record { end = over; conf = c; out = out; buffer = buffer })
          else (inner_loop src sink ebadrpc stack fuel (overwrite buffer 0 checkphrase) s c out
              >>= after_inner src sink ebadrpc stack
                  (rxworker src sink ebadrpc stack fuel checkphrase ss)))
        going
      ∙ ap
          (λ (r : Run (Progress src sink)).
            r
            >>= after_inner src sink ebadrpc stack
                (rxworker src sink ebadrpc stack fuel checkphrase ss))
          e

  pub ended_lem :
      (checkphrase : List ℕ) (fuel : ℕ) (s : src.State) (ss : List src.State) (buffer : List ℕ)
      (c : Rxconf) (out : sink.State)
      → c.done_mbox ≡ false
      → inner_loop src sink ebadrpc stack fuel (overwrite buffer 0 checkphrase) s c out ≡ exit 4
      → rxworker src sink ebadrpc stack fuel checkphrase (s ∷ ss) buffer c out ≡ exit 4
  ended_lem checkphrase fuel s ss buffer c out going e =
      accepted_lem checkphrase fuel s ss buffer c out going e

  restart_lem :
      (checkphrase : List ℕ) (fuel : ℕ) (s : src.State) (ss : List src.State) (buffer : List ℕ)
      (c : Rxconf) (out : sink.State)
      → c.done_mbox ≡ false
      → (b : List ℕ) (c' : Rxconf) (out' : sink.State)
      → inner_loop src sink ebadrpc stack fuel (overwrite buffer 0 checkphrase) s c out
        ≡ done (record { end = restarting; conf = c'; out = out'; buffer = b })
      → rxworker src sink ebadrpc stack fuel checkphrase (s ∷ ss) buffer c out
        ≡ rxworker src sink ebadrpc stack fuel checkphrase ss b c' out'
  unfolding after_inner
  restart_lem checkphrase fuel s ss buffer c out going b c' out' e =
      accepted_lem checkphrase fuel s ss buffer c out going e

  pub over_lem :
      (checkphrase : List ℕ) (fuel : ℕ) (s : src.State) (ss : List src.State) (buffer : List ℕ)
      (c : Rxconf) (out : sink.State)
      → c.done_mbox ≡ false
      → (p : Progress src sink)
      → inner_loop src sink ebadrpc stack fuel (overwrite buffer 0 checkphrase) s c out ≡ done p
      → p.end ≡ over
      → rxworker src sink ebadrpc stack fuel checkphrase (s ∷ ss) buffer c out ≡ done p
  unfolding after_inner
  over_lem checkphrase fuel s ss buffer c out going p e end =
      accepted_lem checkphrase fuel s ss buffer c out going e
      ∙ ap
          (λ (w : Ending).
            if is_restart w
            then rxworker src sink ebadrpc stack fuel checkphrase ss p.buffer p.conf p.out
            else done p)
          end

  -- The end of a stream, reached over one connection.
  pub rest_lem :
      (ls : List Leg) (last : Leg) (more buffer : List ℕ) (fuel : ℕ) (s : src.State) (c : Rxconf)
      (out : sink.State)
      → length ls + 2 ≤ fuel
      → AreNext c.next_leg ls
      → IsSound last
      → last.pkt.opcode ≡ end_of_millipede
      → last.pkt.leg_id ≡ c.next_leg + length ls
      → c.done_mbox ≡ false
      → c.next_leg + length ls < 2 ^ 64
      → pending s ≡ frames ls ++ (frame last ++ more)
      → Mishap src s (inner_loop src sink ebadrpc stack fuel buffer s c out)
        ⊎ ((p : Progress src sink) × (inner_loop src sink ebadrpc stack fuel buffer s c out
              ≡ done p)
            × (p.end ≡ over)
            × (p.conf.done_mbox ≡ true)
            × (sent p.out ≡ sent out ++ (payloads ls ++ last.payload)))
  rest_lem ls last more buffer fuel s c out enough next sound op id going fit holds =
      elim (legs_lem src sink roomy ebadrpc stack ls (frame last ++ more) buffer fuel
        (suc (suc (fuel - (length ls + 2)))) s c out (omega arith) next going fit holds) [
          | inl wrong ↦ inl wrong
          | inr g ↦
              elim (end_lem src sink roomy ebadrpc stack last more g.buffer (fuel - (length ls + 2))
                g.rest g.conf g.out' sound (id ∙ sym g.turn) op g.going g.left) [
                  | inl wrong ↦ inl (Mishap-later src g.reached (λ ended. g.same ∙ ended) wrong)
                  | inr (p, e, end, mbox, put) ↦ inr (
                    p,
                    g.same ∙ e,
                    end,
                    mbox,
                    put
                        ∙ ap (λ (b : List ℕ). b ++ last.payload) g.put
                        ∙ append_assoc (sent out) (payloads ls) last.payload,
                  )
                ]
        ]

  -- Where writes take everything, for data legs without checksums with the ids from `next_leg` on: a worker that gets the legs `before` on its first connection and then a
  -- leg that is cut off inside its payload, and on its second connection the legs `after`, the last
  -- leg behind them, sets `done_mbox`, and puts out `before` and `after` once and in order, and nothing
  -- of the leg that was cut off on the first. Or, on one of the two connections, a read fails and the
  -- process ends with status 4, or a read of a header fails or gives less than a header, for which
  -- nothing is stated.
  pub rxworker_resumes :
      (before after : List Leg) (cut last : Leg) (part more buffer checkphrase : List ℕ) (fuel : ℕ)
      (s s' : src.State) (others : List src.State) (c : Rxconf) (out : sink.State)
      → AreNext c.next_leg before
      → AreNext (c.next_leg + length before) after
      → IsSound cut
      → length part < cut.pkt.size
      → IsSound last
      → last.pkt.opcode ≡ end_of_millipede
      → last.pkt.leg_id ≡ c.next_leg + length before + length after
      → c.next_leg + length before + length after < 2 ^ 64
      → c.done_mbox ≡ false
      → pending s ≡ frames before ++ (header_bytes cut.pkt ++ part)
      → pending s' ≡ frames after ++ (frame last ++ more)
      → length before + 1 ≤ fuel
      → length after + 2 ≤ fuel
      → (Mishap src s
            (rxworker src sink ebadrpc stack fuel checkphrase (s ∷ s' ∷ others) buffer c out)
          ⊎ Mishap src s'
              (rxworker src sink ebadrpc stack fuel checkphrase (s ∷ s' ∷ others) buffer c out))
        ⊎ ((p : Progress src sink) × (rxworker src sink ebadrpc stack fuel checkphrase
                (s ∷ s' ∷ others)
                buffer
                c
                out
              ≡ done p)
            × (p.end ≡ over)
            × (p.conf.done_mbox ≡ true)
            × (sent p.out ≡ sent out ++ (payloads before ++ (payloads after ++ last.payload))))
  rxworker_resumes before after cut last part more buffer checkphrase fuel s s' others c out next
        next' sound few sound' op id fit going holds holds' enough enough' =
      let first = overwrite buffer 0 checkphrase in
      elim (legs_lem src sink roomy ebadrpc stack before (header_bytes cut.pkt ++ part) first fuel
        (suc (fuel - (length before + 1))) s c out (omega arith) next going (omega arith) holds) [
          | inl wrong ↦ inl (
              inl (
                Mishap-later src no_read
                  (ended_lem checkphrase fuel s (s' ∷ others) buffer c out going) wrong))
          | inr g ↦
              elim (cut_lem src sink roomy ebadrpc stack cut.pkt part g.buffer
                (fuel - (length before + 1)) g.rest g.conf g.out' sound.header sound.fits few
                g.going g.left) [
                  | inl wrong ↦ inl (
                      inl (
                        Mishap-later src g.reached
                          (λ ended.
                            ended_lem checkphrase fuel s (s' ∷ others) buffer c out going
                              (g.same ∙ ended))
                          wrong))
                  | inr (b, restarted) ↦
                      let again =
                        restart_lem checkphrase fuel s (s' ∷ others) buffer c out going b g.conf
                          g.out' (g.same ∙ restarted) in
                      elim (rest_lem after last more (overwrite b 0 checkphrase) fuel s' g.conf
                        g.out' enough' (subst (λ (k : ℕ). AreNext k after) (sym g.turn) next')
                        sound' op (id ∙ ap (λ (k : ℕ). k + length after) (sym g.turn)) g.going
                        (omega (arith, g.turn)) holds') [
                          | inl wrong ↦ inl (
                              inr (
                                Mishap-later src no_read
                                  (λ ended.
                                    again
                                    ∙ ended_lem checkphrase fuel s' others b g.conf g.out' g.going
                                        ended)
                                  wrong))
                          | inr (p, e, end, mbox, put) ↦ inr (
                            p,
                            again
                                ∙ over_lem checkphrase fuel s' others b g.conf g.out' g.going p e
                                    end,
                            end,
                            mbox,
                            put
                                ∙ ap (λ (l : List ℕ). l ++ (payloads after ++ last.payload)) g.put
                                ∙ append_assoc (sent out) (payloads before)
                                    (payloads after ++ last.payload),
                          )
                        ]
                ]
        ]
