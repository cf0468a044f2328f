-- ===== src/Session/Order/Receive.antt =====
-- A step of the receiver's worker keeps the order of the legs.
use native.Mathlib.Nat.{mod-eq_of_lt}
use viamillipede.Prelude.{
  ◌∷◌, nothing_left, append_assoc, ℕ, suc, ◌+◌, ◌-◌, ◌^◌, ◌<◌, ◌≡◌, ◌≢◌, refl, sym, subst, ap, ◌∙◌,
  update_all, true, List, [], ◌++◌, append-nil, update, u64, arith, ℕ_discrete,
}
use mathlib.Core.Logic.{ite}
use viamillipede.Wire.{Leg, end_of_millipede}
use viamillipede.Tx.Worker.{unsent}
use viamillipede.Rx.Worker.{
  RxPc, Rxworker, Rxconf, head, reading, holding, sequenced, written, checked, ended, held,
}
use viamillipede.Rx.Effects.{IsGated, put_out, Effect, kept, gave, stopped, passed}
use viamillipede.Session.Share.{share, delivered, share-suc_self, share-suc_ne, delivered-suc}
use viamillipede.Session.Order.{queue, View, IsOrdered, Turn, turn_lem}

kept-IsOrdered :
    {n : ℕ} {v : View} (i : ℕ) (c : Rxconf) (w : Rxworker) (rest : List Leg)
    → held w ++ rest ≡ held (v.rx i) ++ v.wire i
    → c.next_leg ≡ v.next_leg
    → c.output ≡ v.output
    → put_out w.pc ≡ put_out (v.rx i).pc
    → IsGated v.next_leg w.pc
    → c.done_mbox ≡ v.done_mbox
    → IsOrdered n v
    → IsOrdered n (record v { rxconf = c; rx = update v.rx i w; wire = update v.wire i rest })
kept-IsOrdered {v = v} i c w rest eq en eo ep g em o = record {
  leg = o.leg;
  owner = o.owner;
  open_legs = o.open_legs;
  counted = o.counted;
  span = ap (λ (k : ℕ). k + o.open_legs) en ∙ o.span;
  ids = o.ids;
  ends = o.ends;
  queued = λ j. ground (arith, o.queued j, ap (λ l. l ++ unsent (v.tx i)) eq);
  gated = rw en (update_all (λ _ x. IsGated v.next_leg x.pc) v.rx i w g o.gated);
  put = rw (eo, en) (ground (arith, o.put));
  carried = o.carried;
  mbox = λ m. ground (arith, o.mbox (sym em ∙ m));
  drained = λ m. o.drained (sym em ∙ m);
}

module _ {n : ℕ} {v : View} (o : IsOrdered n v) (i : ℕ) (l : Leg) where
  gate : (pc : RxPc) → (v.rx i).pc ≡ pc → IsGated v.next_leg pc
  gate pc e = subst (IsGated v.next_leg) e (o.gated i)

  -- The hand of the worker at the gate has put out what its state says.
  put_at :
      Turn o i l
      → (pc : RxPc) → (v.rx i).pc ≡ pc
      → v.output ≡ delivered o.leg v.next_leg ++ put_out pc
  put_at t pc e = ground (arith, o.put, t.owned, ap put_out e)

  delivered_next :
      Turn o i l → delivered o.leg (v.next_leg + 1) ≡ delivered o.leg v.next_leg ++ l.payload
  delivered_next t =
      delivered-suc o.leg v.next_leg
      ∙ ap (λ (x : Leg). delivered o.leg v.next_leg ++ x.payload) (sym t.is_leg)

  gave-IsOrdered :
      (w : Rxworker)
      → Turn o i l
      → (v.rx i).pc ≡ sequenced l
      → w.pc ≡ written l
      → l.pkt.leg_id ≡ v.next_leg
      → IsOrdered n (record v {
        rxconf = record v.rxconf { output = v.output ++ l.payload };
        rx = update v.rx i w;
        wire = update v.wire i (v.wire i);
      })
  gave-IsOrdered w t e e' g = record {
    leg = o.leg;
    owner = o.owner;
    open_legs = o.open_legs;
    counted = o.counted;
    span = o.span;
    ids = o.ids;
    ends = o.ends;
    queued = λ j. ground (arith, o.queued j);
    gated =
        update_all (λ _ x. IsGated v.next_leg x.pc) v.rx i w (subst (IsGated v.next_leg) (sym e') g)
          o.gated;
    put =
        ground (arith, put_at t (sequenced l) e, append-nil (delivered o.leg v.next_leg), t.owned);
    carried = o.carried;
    mbox = λ m. ground (
      arith,
      o.mbox m,
      put_at t (sequenced l) e,
      append-nil (delivered o.leg v.next_leg),
      delivered_next t,
      t.below,
    );
    drained = o.drained;
  }

  -- With the last leg in hand, nothing is left on any connection.
  end_drained :
      Turn o i l
      → held (v.rx i) ≡ l ∷ []
      → l.pkt.opcode ≡ end_of_millipede
      → (j : ℕ) → unsent (v.tx j) ≡ []
  unfolding share
  end_drained t h op j =
      let (last, fin) =
        o.ends v.next_leg t.below (ap (λ (x : Leg). x.pkt.opcode) (sym t.is_leg) ∙ op) in
      let one : o.open_legs ≡ 1 = omega (arith, o.span) in
      let all : queue (held (v.rx j)) (v.wire j) (unsent (v.tx j))
          ≡ share o.leg o.owner j v.next_leg 1 =
        o.queued j ∙ ap (share o.leg o.owner j v.next_leg) one in
      elim (ℕ_discrete i j) [
        | yes q ↦ nothing_left (v.wire j) (unsent (v.tx j)) (
            ground (
              arith,
              append_assoc (held (v.rx j)) (v.wire j) (unsent (v.tx j)),
              share-suc_self o.leg o.owner j v.next_leg 0,
              h,
              t.owned,
            ))
        | no q ↦
            nothing_left (held (v.rx j) ++ v.wire j) (unsent (v.tx j))
              (ground (arith, share-suc_ne o.leg o.owner j v.next_leg 0, t.owned))
      ]

  stopped-IsOrdered :
      (w : Rxworker)
      → Turn o i l
      → (v.rx i).pc ≡ written l
      → w.pc ≡ checked l
      → l.pkt.leg_id ≡ v.next_leg
      → l.pkt.opcode ≡ end_of_millipede
      → IsOrdered n (record v {
        rxconf = record v.rxconf { done_mbox = true };
        rx = update v.rx i w;
        wire = update v.wire i (v.wire i);
      })
  stopped-IsOrdered w t e e' g op = record {
    leg = o.leg;
    owner = o.owner;
    open_legs = o.open_legs;
    counted = o.counted;
    span = o.span;
    ids = o.ids;
    ends = o.ends;
    queued = λ j. ground (arith, o.queued j);
    gated =
        update_all (λ _ x. IsGated v.next_leg x.pc) v.rx i w (subst (IsGated v.next_leg) (sym e') g)
          o.gated;
    put = ground (arith, put_at t (written l) e, t.owned);
    carried = o.carried;
    mbox = λ m. ground (
      arith,
      put_at t (written l) e,
      delivered_next t,
      t.below,
      o.ends v.next_leg t.below,
      t.is_leg,
    );
    drained = λ m j. end_drained t (ground arith) op j;
  }

  -- The other workers are in front of the gate.
  other_gate :
      Turn o i l
      → (j : ℕ) → i ≢ j
      → (pc : RxPc) → (v.rx j).pc ≡ pc
      → ((k : ℕ) → IsGated k pc) × (put_out pc ≡ [])
  other_gate t j ne head e = (λ k. tt, refl)
  other_gate t j ne reading e = (λ k. tt, refl)
  other_gate t j ne (holding x) e = (λ k. tt, refl)
  other_gate t j ne (sequenced x) e = absurd (
      ne (
        sym t.owned
        ∙ (turn_lem o j x (ground arith) (subst (IsGated v.next_leg) e (o.gated j))).owned))
  other_gate t j ne (written x) e = absurd (
      ne (
        sym t.owned
        ∙ (turn_lem o j x (ground arith) (subst (IsGated v.next_leg) e (o.gated j))).owned))
  other_gate t j ne (checked x) e = absurd (
      ne (
        sym t.owned
        ∙ (turn_lem o j x (ground arith) (subst (IsGated v.next_leg) e (o.gated j))).owned))
  other_gate t j ne ended e = (λ k. tt, refl)

  others_silent :
      (w : Rxworker) → Turn o i l → w.pc ≡ head → (k : ℕ) → put_out (update v.rx i w k).pc ≡ []
  others_silent w t e' k = elim (ℕ_discrete i k) as (λ d. put_out (ite d w (v.rx k)).pc ≡ []) [
    | yes q ↦ ap put_out e'
    | no q ↦ (other_gate t k q (v.rx k).pc refl).1
  ]

  passed-IsOrdered :
      (w : Rxworker) (m : ℕ)
      → Turn o i l
      → (v.rx i).pc ≡ checked l
      → w.pc ≡ head
      → o.open_legs ≡ suc m
      → IsOrdered n (record v {
        rxconf = record v.rxconf { next_leg = v.next_leg + 1 };
        rx = update v.rx i w;
        wire = update v.wire i (v.wire i);
      })
  passed-IsOrdered w m t e e' em = record {
    leg = o.leg;
    owner = o.owner;
    open_legs = m;
    counted = o.counted;
    span = omega (arith, o.span);
    ids = o.ids;
    ends = o.ends;
    queued = λ j. ground (
      arith,
      o.queued j,
      share-suc_self o.leg o.owner j v.next_leg m,
      share-suc_ne o.leg o.owner j v.next_leg m,
      ap (share o.leg o.owner j v.next_leg) em,
      t.owned,
      t.is_leg,
    );
    gated = λ j. elim (ℕ_discrete i j) as (λ d. IsGated (v.next_leg + 1) (ite d w (v.rx j)).pc) [
      | yes q ↦ subst (IsGated (v.next_leg + 1)) (sym e') tt
      | no q ↦ (other_gate t j q (v.rx j).pc refl).0 (v.next_leg + 1)
    ];
    put = ground (
      arith,
      put_at t (checked l) e,
      delivered_next t,
      append-nil (delivered o.leg (v.next_leg + 1)),
      others_silent w t e' (o.owner (v.next_leg + 1)),
    );
    carried = o.carried;
    mbox = λ b. ground (arith, o.mbox b);
    drained = o.drained;
  }

-- A step of the receiver's worker keeps the order.
pub receive-IsOrdered :
    {n : ℕ} {v : View} (i : ℕ) (c : Rxconf) (w : Rxworker) (rest : List Leg)
    → n < 2 ^ 64
    → Effect v.rxconf c (v.rx i) w (v.wire i) rest
    → IsOrdered n v
    → IsOrdered n (record v { rxconf = c; rx = update v.rx i w; wire = update v.wire i rest })
receive-IsOrdered i c w rest fit (kept eq en eo ep g em) o =
    kept-IsOrdered i c w rest eq en eo ep g em o
receive-IsOrdered i c w rest fit (gave l e e' ec er) o =
    let g = gate o i l (sequenced l) e in
    rw (ec, er) (gave-IsOrdered o i l w (turn_lem o i l (ground arith) g) e e' g)
receive-IsOrdered i c w rest fit (stopped l e e' ec er op) o =
    let g = gate o i l (written l) e in
    rw (ec, er) (stopped-IsOrdered o i l w (turn_lem o i l (ground arith) g) e e' g op)
receive-IsOrdered {v = v} i c w rest fit (passed l e e' ec er) o =
    let t = turn_lem o i l (ground arith) (gate o i l (checked l) e) in
    let fits : u64 (v.next_leg + 1) ≡ v.next_leg + 1 =
      mod-eq_of_lt (omega (arith, t.below, o.counted)) in
    rw (ec, er, fits)
      (passed-IsOrdered o i l w (v.counter - (v.next_leg + 1)) t e e'
        (omega (arith, o.span, t.below)))
