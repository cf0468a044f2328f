-- ===== src/Rx/Loop/Rounds.antt =====
-- The inner loop of `rxworker` on several legs, on the last one, and on one that is cut off, where
-- writes take everything.
use viamillipede.Prelude.{
  ℕ, zero, suc, ◌+◌, ◌^◌, ◌≤◌, ◌<◌, ◌≡◌, ◌⊎◌, inl, inr, refl, sym, ap, subst, ◌∙◌, true, false,
  List, [], ◌∷◌, ◌++◌, append-nil, append_assoc, length, length-append, overwrite, u64, arith,
}
use native.Mathlib.Nat.{mod-eq_of_lt}
use viamillipede.Prelude.Run.{Run, done}
use viamillipede.Wire.{kfootsize, Millipacket, Leg, end_of_millipede}
use viamillipede.Wire.Frame.{header_bytes, frame, frames, IsSound, IsHeader, length-header_bytes}
use viamillipede.Plumbing.Source.{Source, ReadsTo, no_read, ReadsTo-trans}
use viamillipede.Rx.Mishap.{Mishap, read_fails, short_header, Mishap-later, header_read}
use viamillipede.Plumbing.Sink.{Sink}
use viamillipede.Rx.Worker.{Rxconf}
use viamillipede.Rx.Frame.{read_leg_cut}
use viamillipede.Rx.Deliver.{finish_leg}
use viamillipede.Rx.Loop.{over, restarting, Progress, take_turn, inner_loop}
use viamillipede.Rx.Loop.Turn.{
  payloads, IsNext, AreNext, IsRoomy, finish_feed, finish_end, open_lem, turn_lem,
}

module _ (src : Source) (sink : Sink) (roomy : IsRoomy sink) (ebadrpc : ℕ)
    (stack : ℕ → List ℕ) where
  open src use {pending}
  open sink use {sent}

  -- Where a number of rounds leads: the same run goes on from there, with `fuel` left.
  pub record Goes (s : src.State) (run : Run (Progress src sink)) (fuel : ℕ) (more bytes : List ℕ)
      (k : ℕ) (out : sink.State) : Type 0 where
    pub buffer : List ℕ
    pub rest : src.State
    pub conf : Rxconf
    pub out' : sink.State
    pub reached : ReadsTo src s rest
    pub left : pending rest ≡ more
    pub put : sent out' ≡ sent out ++ bytes
    pub turn : conf.next_leg ≡ k
    pub going : conf.done_mbox ≡ false
    pub same : run ≡ inner_loop src sink ebadrpc stack fuel buffer rest conf out'

  -- A data leg whose turn it is.
  feed_lem :
      (l : Leg) (more buffer : List ℕ) (fuel : ℕ) (s : src.State) (c : Rxconf) (out : sink.State)
      → IsNext c.next_leg l
      → c.done_mbox ≡ false
      → c.next_leg + 1 < 2 ^ 64
      → pending s ≡ frame l ++ more
      → Mishap src s (inner_loop src sink ebadrpc stack (suc fuel) buffer s c out)
        ⊎ Goes s
            (inner_loop src sink ebadrpc stack (suc fuel) buffer s c out)
            fuel
            more
            l.payload
            (c.next_leg + 1)
            out
  feed_lem l more buffer fuel s c out is_next going fit holds =
      let c' = record c { output = c.output ++ l.payload; next_leg = u64 (c.next_leg + 1) } in
      let decided : finish_leg ebadrpc l.pkt (overwrite buffer 0 l.payload)
            (record c { output = c.output ++ l.payload })
          ≡ done c' =
        finish_feed ebadrpc l.pkt (overwrite buffer 0 l.payload)
          (record c { output = c.output ++ l.payload }) is_next.more is_next.unsummed in
      elim (turn_lem src sink roomy ebadrpc stack l more buffer fuel s c c' out is_next.sound
        is_next.id going holds decided) [
          | inl wrong ↦ inl wrong
          | inr (buffer', rest, out', reached, left, put, same) ↦ inr (record {
            buffer = buffer';
            rest = rest;
            conf = c';
            out' = out';
            reached = reached;
            left = left;
            put = put;
            turn = mod-eq_of_lt fit;
            going = going;
            same = same;
          })
        ]

  -- All the data legs in front of `more`.
  pub legs_lem :
      (ls : List Leg) (more buffer : List ℕ) (n fuel : ℕ) (s : src.State) (c : Rxconf)
      (out : sink.State)
      → n ≡ length ls + fuel
      → AreNext c.next_leg ls
      → c.done_mbox ≡ false
      → c.next_leg + length ls < 2 ^ 64
      → pending s ≡ frames ls ++ more
      → Mishap src s (inner_loop src sink ebadrpc stack n buffer s c out)
        ⊎ Goes s
            (inner_loop src sink ebadrpc stack n buffer s c out)
            fuel
            more
            (payloads ls)
            (c.next_leg + length ls)
            out
  legs_lem [] more buffer n fuel s c out e next going fit holds = inr (record {
    buffer = buffer;
    rest = s;
    conf = c;
    out' = out;
    reached = no_read;
    left = holds;
    put = sym (append-nil (sent out));
    turn = omega arith;
    going = going;
    same = ap (λ (k : ℕ). inner_loop src sink ebadrpc stack k buffer s c out) (omega arith);
  })
  legs_lem (l ∷ ls) more buffer zero fuel s c out e next going fit holds = absurd (omega arith)
  legs_lem (l ∷ ls) more buffer (suc n) fuel s c out e next going fit holds =
      elim (feed_lem l (frames ls ++ more) buffer n s c out next.0 going (omega arith)
        (holds ∙ append_assoc (frame l) (frames ls) more)) [
          | inl wrong ↦ inl wrong
          | inr g ↦
              elim (legs_lem ls more g.buffer n fuel g.rest g.conf g.out' (omega arith)
                (subst (λ (k : ℕ). AreNext k ls) (sym g.turn) next.1) g.going
                (omega (arith, g.turn)) g.left) [
                  | inl wrong ↦ inl (Mishap-later src g.reached (λ ended. g.same ∙ ended) wrong)
                  | inr h ↦ inr (record {
                    buffer = h.buffer;
                    rest = h.rest;
                    conf = h.conf;
                    out' = h.out';
                    reached = ReadsTo-trans src g.reached h.reached;
                    left = h.left;
                    put =
                        h.put
                        ∙ ap (λ (b : List ℕ). b ++ payloads ls) g.put
                        ∙ append_assoc (sent out) l.payload (payloads ls);
                    turn = h.turn ∙ omega (arith, g.turn);
                    going = h.going;
                    same = g.same ∙ h.same;
                  })
                ]
        ]

  -- The last leg: `done_mbox` is set, and the loop is left.
  pub end_lem :
      (l : Leg) (more buffer : List ℕ) (fuel : ℕ) (s : src.State) (c : Rxconf) (out : sink.State)
      → IsSound l
      → l.pkt.leg_id ≡ c.next_leg
      → l.pkt.opcode ≡ end_of_millipede
      → c.done_mbox ≡ false
      → pending s ≡ frame l ++ more
      → Mishap src s (inner_loop src sink ebadrpc stack (suc (suc fuel)) buffer s c out)
        ⊎ ((p : Progress src sink) × (inner_loop src sink ebadrpc stack
                (suc (suc fuel))
                buffer
                s
                c
                out
              ≡ done p)
            × (p.end ≡ over)
            × (p.conf.done_mbox ≡ true)
            × (sent p.out ≡ sent out ++ l.payload))
  unfolding inner_loop
  end_lem l more buffer fuel s c out sound id last going holds =
      let c' = record c {
        output = c.output ++ l.payload;
        next_leg = u64 (c.next_leg + 1);
        done_mbox = true;
      } in
      let decided : finish_leg ebadrpc l.pkt (overwrite buffer 0 l.payload)
            (record c { output = c.output ++ l.payload })
          ≡ done c' =
        finish_end ebadrpc l.pkt (overwrite buffer 0 l.payload)
          (record c { output = c.output ++ l.payload }) last in
      elim (turn_lem src sink roomy ebadrpc stack l more buffer (suc fuel) s c c' out sound id going
        holds decided) [
          | inl wrong ↦ inl wrong
          | inr (buffer', rest, out', reached, left, put, same) ↦ inr (
            record { end = over; conf = c'; out = out'; buffer = buffer' },
            same,
            refl,
            refl,
            put,
          )
        ]

  -- A leg that is cut off: the loop is left to start again.
  pub cut_lem :
      (pkt : Millipacket) (part buffer : List ℕ) (fuel : ℕ) (s : src.State) (c : Rxconf)
      (out : sink.State)
      → IsHeader pkt
      → pkt.size ≤ kfootsize
      → length part < pkt.size
      → c.done_mbox ≡ false
      → pending s ≡ header_bytes pkt ++ part
      → Mishap src s (inner_loop src sink ebadrpc stack (suc fuel) buffer s c out)
        ⊎ ((b : List ℕ) × (inner_loop src sink ebadrpc stack (suc fuel) buffer s c out
              ≡ done (record { end = restarting; conf = c; out = out; buffer = b })))
  unfolding take_turn
  cut_lem pkt part buffer fuel s c out ok fits few going holds =
      elim (header_read src s (
        omega (
          arith,
          ap length holds,
          length-append (header_bytes pkt) part,
          length-header_bytes pkt,
        ))) [
          | inl short ↦ inl (short_header short)
          | inr (bs, s', r, full) ↦
              elim (read_leg_cut src pkt part (stack fuel) bs buffer s s' ok fits few holds r
                full) [
                  | inl (f, ended) ↦ inl (
                      read_fails f
                        (open_lem src sink roomy ebadrpc stack fuel buffer s c out going ended))
                  | inr (b, rest, q) ↦
                      inr (b, open_lem src sink roomy ebadrpc stack fuel buffer s c out going q)
                ]
        ]
