-- ===== src/Session/Sums/Receive.antt =====
-- A step of the receiver keeps the chain of the checksums.
use mathlib.Core.Bool.{false≢true}
use native.Mathlib.Nat.{mod-eq_of_lt}
use viamillipede.Prelude.{
  ℕ, ◌+◌, ◌^◌, ◌<◌, ◌≡◌, ◌≢◌, ◌⊎◌, inl, inr, refl, sym, subst, ap, ◌∙◌, true, false, Bool-cases,
  List, ◌++◌, update, update_all, u64, arith, ℕ_discrete,
}
use viamillipede.Prelude.Run.{done, done_injective}
use mathlib.Core.Logic.{ite}
use viamillipede.Wire.{Leg, feed_more, end_of_millipede, feed_more-ne-end}
use viamillipede.Plumbing.Source.{Source}
use viamillipede.Tx.Worker.{unsent}
use viamillipede.Tx.Ingest.{Config}
use viamillipede.Rx.Worker.{
  RxPc, head, reading, holding, sequenced, written, checked, ended, Rxworker, Rxconf, held, RxMove,
  enter, leave, take_leg, pass_gate, put, verify, stop, advance, verify_checksum, receive,
}
use viamillipede.Rx.Effects.{IsGated, Effect, kept, gave, stopped, passed, RxMove-Effect}
use viamillipede.Session.{Session}
use viamillipede.Session.Order.{queue, turn_lem}
use viamillipede.Session.Delivery.{past_gate, one_past}
use viamillipede.Session.Invariant.{Inv}
use viamillipede.Session.Sums.{
  IsLinked, AllLegs, is_checked, IsSavedAt, IsBufferedAt, RxMove-IsBufferedAt, SumsOk,
}

-- A step of the receiver makes no leg.
Effect-AllLegs :
    {c c' : Rxconf} {w w' : Rxworker} {wire rest : List Leg} (P : Leg → Type 0) (back : List Leg)
    → Effect c c' w w' wire rest
    → AllLegs P (queue (held w) wire back)
    → AllLegs P (queue (held w') rest back)
Effect-AllLegs P back (kept eq en eo ep g em) all = subst (λ q. AllLegs P (q ++ back)) (sym eq) all
Effect-AllLegs P back (gave l e e' ec er) all = rw (er, e') (rw e at all)
Effect-AllLegs P back (stopped l e e' ec er op) all = rw (er, e') (rw e at all)
Effect-AllLegs P back (passed l e e' ec er) all = rw (er, e') ((rw e at all).1)

unchecked_saved :
    (sum : ℕ → ℕ) (saved next_leg : ℕ) (pc : RxPc)
    → is_checked pc ≡ false
    → IsSavedAt sum saved next_leg pc
unchecked_saved sum saved next_leg (checked l) e = absurd (false≢true (sym e))
unchecked_saved sum saved next_leg head e = tt
unchecked_saved sum saved next_leg reading e = tt
unchecked_saved sum saved next_leg (holding l) e = tt
unchecked_saved sum saved next_leg (sequenced l) e = tt
unchecked_saved sum saved next_leg (written l) e = tt
unchecked_saved sum saved next_leg ended e = tt

checked-past_gate : (pc : RxPc) → is_checked pc ≡ true → past_gate pc ≡ true
checked-past_gate (checked l) e = refl
checked-past_gate _ e = absurd (cc)

module _ (src : Source) (cfg : Config) {s₀ : src.State} {n : ℕ} {s : Session src cfg}
    (v : Inv src cfg s₀ n s) (ok : SumsOk src cfg s) (i : ℕ) where
  -- With worker `i` past the gate no other one is behind the check.
  others_unchecked : past_gate (s.rx i).pc ≡ true → (j : ℕ) → i ≢ j → is_checked (s.rx j).pc ≡ false
  others_unchecked p j ne = elim (Bool-cases (is_checked (s.rx j).pc)) [
    | inl c ↦ absurd (ne (one_past v.ordered i j p (checked-past_gate (s.rx j).pc c)))
    | inr c ↦ c
  ]

  alone-hands :
      (saved next_leg : ℕ) (w : Rxworker)
      → past_gate (s.rx i).pc ≡ true
      → IsSavedAt ok.sum saved next_leg w.pc
      → (j : ℕ) → IsSavedAt ok.sum saved next_leg (update s.rx i w j).pc
  alone-hands saved next_leg w p new j =
      elim (ℕ_discrete i j) as (λ d. IsSavedAt ok.sum saved next_leg (ite d w (s.rx j)).pc) [
        | yes q ↦ new
        | no q ↦ unchecked_saved ok.sum saved next_leg (s.rx j).pc (others_unchecked p j q)
      ]

  all_unchecked :
      past_gate (s.rx i).pc ≡ true
      → is_checked (s.rx i).pc ≡ false
      → (j : ℕ) → is_checked (s.rx j).pc ≡ false
  all_unchecked p e j = elim (ℕ_discrete i j) [
    | yes q ↦ ap (λ k. is_checked (s.rx k).pc) (sym q) ∙ e
    | no q ↦ others_unchecked p j q
  ]

  unchecked_before :
      (w : Rxworker)
      → is_checked (s.rx i).pc ≡ false
      → ((j : ℕ) → is_checked (update s.rx i w j).pc ≡ false)
      → (j : ℕ) → is_checked (s.rx j).pc ≡ false
  unchecked_before w e all j = elim (ℕ_discrete i j) [
    | yes q ↦ ap (λ k. is_checked (s.rx k).pc) (sym q) ∙ e
    | no q ↦ ground (arith, all j)
  ]

  still_checked :
      (w : Rxworker) (l : Leg)
      → w.pc ≡ checked l
      → ((j : ℕ) → is_checked (update s.rx i w j).pc ≡ false)
      → ⊥
  still_checked w l e all = false≢true (sym (ground (arith, all i)))

  -- The leg behind `writev` is the next leg, and the checksum in front of it is saved.
  at_written :
      (l : Leg)
      → (s.rx i).pc ≡ written l
      → (s.rxconf.grx_saved_checksum ≡ ok.sum s.rxconf.next_leg)
        × (l.pkt.leg_id ≡ s.rxconf.next_leg)
        × IsLinked ok.sum s.txconf.ingest_leg_counter l
  at_written l e = (
    ok.between (all_unchecked (ap past_gate e) (ap is_checked e)),
    subst (IsGated s.rxconf.next_leg) e (v.ordered.gated i),
    (rw e at (ok.legs i)).0,
  )

  -- The check accepts the leg and saves the checksum behind it.
  pub written_passes :
      (l : Leg)
      → (s.rx i).pc ≡ written l
      → ((l.pkt.opcode ≡ feed_more)
          × (verify_checksum s.rxconf.grx_saved_checksum l.pkt (s.rx i).buffer
              ≡ done (ok.sum (s.rxconf.next_leg + 1))))
        ⊎ ((l.pkt.opcode ≡ end_of_millipede)
            × (ok.sum (s.rxconf.next_leg + 1) ≡ ok.sum s.rxconf.next_leg))
  written_passes l e =
      let (saved, id, linked) = at_written l e in
      let (tail, eb) : (tail : List ℕ) × ((s.rx i).buffer ≡ l.payload ++ tail) =
        subst (λ pc. IsBufferedAt pc (s.rx i).buffer) e (ok.buffers i) in
      elim linked.1 [
        | inl (op, accepts) ↦ inl (op, rw (saved, eb, ← id) (accepts tail))
        | inr (op, same) ↦ inr (op, rw (← id) same)
      ]

  moved_SumsOk :
      {c : Rxconf} {w : Rxworker} {rest : List Leg}
      → RxMove s.rxconf (s.rx i) (s.wire i) c w rest
      → ((j : ℕ) → IsSavedAt ok.sum c.grx_saved_checksum c.next_leg (update s.rx i w j).pc)
      → (((j : ℕ) → is_checked (update s.rx i w j).pc ≡ false)
          → c.grx_saved_checksum ≡ ok.sum c.next_leg)
      → SumsOk src cfg (record s { rxconf = c; rx = update s.rx i w; wire = update s.wire i rest })
  moved_SumsOk {c} {w} {rest} m hands between = record {
    sum = ok.sum;
    legs = λ j.
        elim (ℕ_discrete i j)
          as (λ d.
            AllLegs (IsLinked ok.sum s.txconf.ingest_leg_counter)
              (queue (held (ite d w (s.rx j))) (ite d rest (s.wire j)) (unsent (s.tx j)))) [
                | yes q ↦
                    subst
                      (λ k.
                        AllLegs (IsLinked ok.sum s.txconf.ingest_leg_counter)
                          (queue (held w) rest (unsent (s.tx k))))
                      q
                      (Effect-AllLegs (IsLinked ok.sum s.txconf.ingest_leg_counter)
                        (unsent (s.tx i)) (RxMove-Effect m (v.ordered.gated i)) (ok.legs i))
                | no q ↦ ok.legs j
              ];
    saved = ok.saved;
    hands = hands;
    between = between;
    buffers =
        update_all (λ _ x. IsBufferedAt x.pc x.buffer) s.rx i w
          (RxMove-IsBufferedAt m (ok.buffers i)) ok.buffers;
  }

  -- The worker changes, and the checksums do not.
  quiet-SumsOk :
      {c : Rxconf} {w : Rxworker} {rest : List Leg}
      → RxMove s.rxconf (s.rx i) (s.wire i) c w rest
      → c.grx_saved_checksum ≡ s.rxconf.grx_saved_checksum
      → c.next_leg ≡ s.rxconf.next_leg
      → is_checked (s.rx i).pc ≡ false
      → is_checked w.pc ≡ false
      → SumsOk src cfg (record s { rxconf = c; rx = update s.rx i w; wire = update s.wire i rest })
  quiet-SumsOk {c} {w} {rest} m eg en e e' =
      moved_SumsOk m
        (λ j.
          update_all (λ _ x. IsSavedAt ok.sum c.grx_saved_checksum c.next_leg x.pc) s.rx i w
            (unchecked_saved ok.sum _ _ w.pc e') (rw (eg, en) ok.hands) j)
        (λ all. eg ∙ ok.between (unchecked_before w e all) ∙ ap ok.sum (sym en))

  pub receive-SumsOk :
      {c : Rxconf} {w : Rxworker} {rest : List Leg}
      → n < 2 ^ 64
      → RxMove s.rxconf (s.rx i) (s.wire i) c w rest
      → SumsOk src cfg (record s { rxconf = c; rx = update s.rx i w; wire = update s.wire i rest })
  unfolding receive
  receive-SumsOk fit (enter e m) = quiet-SumsOk (enter e m) refl refl (ap is_checked e) refl
  receive-SumsOk fit (leave e m) = quiet-SumsOk (leave e m) refl refl (ap is_checked e) refl
  receive-SumsOk fit (take_leg e q) = quiet-SumsOk (take_leg e q) refl refl (ap is_checked e) refl
  receive-SumsOk fit (pass_gate e q) = quiet-SumsOk (pass_gate e q) refl refl (ap is_checked e) refl
  receive-SumsOk fit (put e) = quiet-SumsOk (put e) refl refl (ap is_checked e) refl
  receive-SumsOk fit (verify {l} {saved} e op v') =
      let behind : saved ≡ ok.sum (s.rxconf.next_leg + 1) = elim (written_passes l e) [
        | inl (op', passes) ↦ done_injective (sym v' ∙ passes)
        | inr (op', same) ↦ absurd (feed_more-ne-end (sym op ∙ op'))
      ] in
      moved_SumsOk (verify e op v') (alone-hands saved s.rxconf.next_leg _ (ap past_gate e) behind)
        (λ all. absurd (still_checked _ l refl all))
  receive-SumsOk fit (stop {l} e op) =
      let (saved, id, linked) = at_written l e in
      let behind : s.rxconf.grx_saved_checksum ≡ ok.sum (s.rxconf.next_leg + 1) =
        elim (written_passes l e) [
          | inl (op', passes) ↦ absurd (feed_more-ne-end (sym op' ∙ op))
          | inr (op', same) ↦ saved ∙ sym same
        ] in
      moved_SumsOk (stop e op)
        (alone-hands s.rxconf.grx_saved_checksum s.rxconf.next_leg _ (ap past_gate e) behind)
        (λ all. absurd (still_checked _ l refl all))
  receive-SumsOk fit (advance {l} e) =
      let t =
        turn_lem v.ordered i l (ground arith)
          (subst (IsGated s.rxconf.next_leg) e (v.ordered.gated i)) in
      let fits : u64 (s.rxconf.next_leg + 1) ≡ s.rxconf.next_leg + 1 =
        mod-eq_of_lt (omega (arith, t.below, v.ordered.counted)) in
      moved_SumsOk (advance e)
        (alone-hands s.rxconf.grx_saved_checksum (u64 (s.rxconf.next_leg + 1)) _ (ap past_gate e)
          tt)
        (λ all.
          subst (λ pc. IsSavedAt ok.sum s.rxconf.grx_saved_checksum s.rxconf.next_leg pc) e
            (ok.hands i)
          ∙ ap ok.sum (sym fits))
