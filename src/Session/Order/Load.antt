-- ===== src/Session/Order/Load.antt =====
-- A new leg keeps the order of the legs.
use mathlib.Core.Bool.{false≢true}
use viamillipede.Prelude.{
  ℕ, suc, ◌+◌, ◌≡◌, refl, sym, ◌∙◌, subst, Bool, true, false, [], ◌∷◌, ◌++◌, append-nil, update,
  arith, dec_lt,
}
use viamillipede.Wire.{Leg, end_of_millipede}
use viamillipede.Tx.Worker.{Txworker, unsent}
use viamillipede.Rx.Worker.{RxPc, head, reading, holding, sequenced, written, checked, ended, held}
use viamillipede.Rx.Effects.{IsGated, put_out}
use viamillipede.Session.Share.{
  share, delivered, share-snoc, share-update, delivered-update, delivered-suc,
}
use viamillipede.Session.Order.{View, IsOrdered, turn_lem}

-- At a sequencer that waits for a leg that is not made yet no worker is behind the gate.
module _ {n : ℕ} {v : View} (o : IsOrdered n v) (all : v.next_leg ≡ v.counter) where
  silent : (j : ℕ) (pc : RxPc) → (v.rx j).pc ≡ pc → put_out pc ≡ []
  silent j head e = refl
  silent j reading e = refl
  silent j (holding x) e = refl
  silent j (sequenced x) e = refl
  silent j (written x) e = absurd (
      omega (
        arith,
        all,
        (turn_lem o j x (ground arith) (subst (IsGated v.next_leg) e (o.gated j))).below,
      ))
  silent j (checked x) e = absurd (
      omega (
        arith,
        all,
        (turn_lem o j x (ground arith) (subst (IsGated v.next_leg) e (o.gated j))).below,
      ))
  silent j ended e = refl

-- The leg `l` is made from `bs` and given to worker `i`.
pub load-IsOrdered :
    {n : ℕ} {v : View} (i : ℕ) (w : Txworker) (l : Leg) (fin : Bool)
    → unsent (v.tx i) ≡ []
    → unsent w ≡ l ∷ []
    → l.pkt.leg_id ≡ v.counter
    → (l.pkt.opcode ≡ end_of_millipede → fin ≡ true)
    → v.fin ≡ false
    → IsOrdered n v
    → IsOrdered (suc n) (record v {
      tx = update v.tx i w;
      counter = v.counter + 1;
      taken = v.taken ++ l.payload;
      fin = fin;
    })
load-IsOrdered {n} {v} i w l fin eu ew el ef nf o = record {
  leg = update o.leg v.counter l;
  owner = update o.owner v.counter i;
  open_legs = suc o.open_legs;
  counted = omega (arith, o.counted);
  span = omega (arith, o.span);
  ids = λ k lt. ground (arith, o.ids k, el);
  ends = λ k lt op. ground (arith, o.ends k, nf, ef);
  queued = λ j. ground (
    arith,
    o.queued j,
    share-snoc (update o.leg v.counter l) (update o.owner v.counter i) j v.next_leg o.open_legs
        v.counter o.span,
    share-update o.leg o.owner l i j v.next_leg o.open_legs v.counter (omega (arith, o.span)),
    append-nil (held (v.rx j) ++ v.wire j),
    append-nil (share o.leg o.owner j v.next_leg o.open_legs),
  );
  gated = o.gated;
  put = put_lem;
  carried = ground (
    arith,
    o.carried,
    delivered-suc (update o.leg v.counter l) v.counter,
    delivered-update o.leg o.owner l v.counter v.counter (omega arith),
  );
  mbox = λ m. ground (arith, o.mbox m, nf);
  drained = λ m. absurd (false≢true (sym nf ∙ (o.mbox m).0));
}
  where
    put_lem :
        v.output
        ≡ delivered (update o.leg v.counter l) v.next_leg
          ++ put_out (v.rx (update o.owner v.counter i v.next_leg)).pc
    put_lem = elim (dec_lt v.next_leg v.counter) [
      | yes lt ↦ ground (
        arith,
        o.put,
        delivered-update o.leg o.owner l v.next_leg v.counter (omega (arith, o.span)),
      )
      | no ge ↦
          let all : v.next_leg ≡ v.counter = omega (arith, o.span) in
          ground (
            arith,
            o.put,
            delivered-update o.leg o.owner l v.next_leg v.counter (omega (arith, o.span)),
            silent o all (o.owner v.next_leg) _ refl,
            silent o all i _ refl,
          )
    ]
