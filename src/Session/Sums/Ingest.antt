-- ===== src/Session/Sums/Ingest.antt =====
-- A step of the transmitter keeps the chain of the checksums.
use native.Mathlib.Nat.{mod-eq_of_lt}
use viamillipede.Prelude.{
  ℕ, ◌+◌, ◌^◌, ◌≤◌, ◌<◌, ◌≡◌, inl, inr, refl, sym, subst, ap, ◌∙◌, List, [], ◌∷◌, ◌++◌, update,
  update_all, u64, arith,
}
use viamillipede.Wire.{Leg, leg_of}
use viamillipede.Plumbing.Source.{Source}
use viamillipede.Tx.Worker.{Txworker, unsent, dispatch_leg, dispatch_end}
use viamillipede.Tx.Ingest.{Config, IngestMove, Txconf, choose, load, shut, load_end, feed}
use viamillipede.Tx.Rounds.{ingest_round-Takes}
use viamillipede.Tx.Sums.{ingest_round-IsSummed, leg_checksum-verify}
use viamillipede.Rx.Worker.{RxPc, head, reading, holding, sequenced, written, checked, ended, held}
use viamillipede.Rx.Effects.{IsGated}
use viamillipede.Session.{Session, ingest}
use viamillipede.Session.Order.{queue, View, IsOrdered, turn_lem}
use viamillipede.Session.Order.Transmit.{regroup}
use viamillipede.Session.Threads.{IsAssigned}
use viamillipede.Session.Invariant.{unsent_idle, view, Inv}
use viamillipede.Session.Sums.{IsLinked, AllLegs, IsSavedAt, IsLongMove, SumsOk}

AllLegs-map :
    {P Q : Leg → Type 0}
    → ((l : Leg) → P l → Q l)
    → (legs : List Leg) → AllLegs P legs
    → AllLegs Q legs
AllLegs-map f [] all = tt
AllLegs-map f (l ∷ legs) (p, all) = (f l p, AllLegs-map f legs all)

AllLegs-snoc :
    (P : Leg → Type 0) (legs : List Leg) (l : Leg)
    → AllLegs P (legs ++ [])
    → P l
    → AllLegs P (legs ++ (l ∷ []))
AllLegs-snoc P [] l all p = (p, tt)
AllLegs-snoc P (x ∷ legs) l (q, all) p = (q, AllLegs-snoc P legs l all p)

-- The checksums that are known stay when the next one is made.
module _ (sum : ℕ → ℕ) (counter value : ℕ) where
  known : (k : ℕ) → k ≤ counter → update sum (counter + 1) value k ≡ sum k
  known k le = ground (arith, le)

  made : update sum (counter + 1) value (counter + 1) ≡ value
  made = ground arith

  relink :
      (l : Leg) → IsLinked sum counter l → IsLinked (update sum (counter + 1) value) (counter + 1) l
  relink l (lt, inl (op, accepts)) = (
    omega (arith, lt),
    inl (
      op,
      λ tail.
          rw (known l.pkt.leg_id (omega (arith, lt)), known (l.pkt.leg_id + 1) (omega (arith, lt)))
            (accepts tail),
    ),
  )
  relink l (lt, inr (op, same)) = (
    omega (arith, lt),
    inr (
      op,
      known (l.pkt.leg_id + 1) (omega (arith, lt))
          ∙ same
          ∙ sym (known l.pkt.leg_id (omega (arith, lt))),
    ),
  )

  -- A worker behind the check has a leg that is made.
  resave :
      {n : ℕ} {v : View} (o : IsOrdered n v) (i : ℕ) (pc : RxPc)
      → counter ≡ v.counter
      → (v.rx i).pc ≡ pc
      → IsSavedAt sum v.rxconf.grx_saved_checksum v.next_leg pc
      → IsSavedAt (update sum (counter + 1) value) v.rxconf.grx_saved_checksum v.next_leg pc
  resave {v = v} o i (checked l) c e saved =
      let t = turn_lem o i l (ground arith) (subst (IsGated v.next_leg) e (o.gated i)) in
      saved ∙ sym (known (v.next_leg + 1) (omega (arith, t.below, c)))
  resave o i head c e saved = tt
  resave o i reading c e saved = tt
  resave o i (holding l) c e saved = tt
  resave o i (sequenced l) c e saved = tt
  resave o i (written l) c e saved = tt
  resave o i ended c e saved = tt

module _ (src : Source) (cfg : Config) where
  -- The leg `l` is given to worker `i`, and `value` is the checksum saved behind it.
  new_leg-SumsOk :
      {n : ℕ} {s : Session src cfg} {taken : List ℕ} (c : Txconf src cfg) (i : ℕ) (w : Txworker)
      (l : Leg) (value : ℕ)
      → IsOrdered n (view src cfg s taken)
      → (ok : SumsOk src cfg s) → unsent (s.tx i) ≡ []
      → unsent w ≡ l ∷ []
      → c.ingest_leg_counter ≡ s.txconf.ingest_leg_counter + 1
      → c.saved_checksum ≡ value
      → IsLinked
          (update ok.sum (s.txconf.ingest_leg_counter + 1) value)
          (s.txconf.ingest_leg_counter + 1)
          l
      → SumsOk src cfg (record s { txconf = c; tx = update s.tx i w })
  new_leg-SumsOk {s = s} c i w l value o ok none one ec es link = record {
    sum = sum';
    legs = λ j.
        subst
          (λ k.
            AllLegs (IsLinked sum' k)
              (queue (held (s.rx j)) (s.wire j) (unsent (update s.tx i w j))))
          (sym ec)
          (update_all
            (λ k x.
              AllLegs (IsLinked sum' (counter + 1)) (queue (held (s.rx k)) (s.wire k) (unsent x)))
            s.tx i w added moved j);
    saved = es ∙ sym (made ok.sum counter value) ∙ ap sum' (sym ec);
    hands = λ j. resave ok.sum counter value o j (s.rx j).pc refl refl (ok.hands j);
    between = λ calm.
        ok.between calm
        ∙ sym (known ok.sum counter value s.rxconf.next_leg (omega (arith, o.span)));
    buffers = ok.buffers;
  }
    where
      counter : ℕ
      counter = s.txconf.ingest_leg_counter

      sum' : ℕ → ℕ
      sum' = update ok.sum (counter + 1) value

      moved :
          (j : ℕ)
          → AllLegs
              (IsLinked sum' (counter + 1))
              (queue (held (s.rx j)) (s.wire j) (unsent (s.tx j)))
      moved j = AllLegs-map (relink ok.sum counter value) _ (ok.legs j)

      added : AllLegs (IsLinked sum' (counter + 1)) (queue (held (s.rx i)) (s.wire i) (unsent w))
      added = rw one (
          AllLegs-snoc (IsLinked sum' (counter + 1)) (held (s.rx i) ++ s.wire i) l
            (subst (λ u. AllLegs (IsLinked sum' (counter + 1)) (queue (held (s.rx i)) (s.wire i) u))
              none (moved i))
            link)

  -- The worker and the input change, and no leg is made.
  relabel-SumsOk :
      {s : Session src cfg} (c : Txconf src cfg) (i : ℕ) (w : Txworker)
      → unsent w ≡ unsent (s.tx i)
      → c.ingest_leg_counter ≡ s.txconf.ingest_leg_counter
      → c.saved_checksum ≡ s.txconf.saved_checksum
      → (ok : SumsOk src cfg s) → SumsOk src cfg (record s { txconf = c; tx = update s.tx i w })
  relabel-SumsOk {s = s} c i w same ec es ok = record {
    sum = ok.sum;
    legs = λ j.
        subst
          (λ k.
            AllLegs (IsLinked ok.sum k)
              (queue (held (s.rx j)) (s.wire j) (unsent (update s.tx i w j))))
          (sym ec)
          (update_all
            (λ k x.
              AllLegs (IsLinked ok.sum s.txconf.ingest_leg_counter)
                (queue (held (s.rx k)) (s.wire k) (unsent x)))
            s.tx i w
            (subst
              (λ u.
                AllLegs (IsLinked ok.sum s.txconf.ingest_leg_counter)
                  (queue (held (s.rx i)) (s.wire i) u))
              (sym same) (ok.legs i))
            ok.legs j);
    saved = es ∙ ok.saved ∙ ap ok.sum (sym ec);
    hands = ok.hands;
    between = ok.between;
    buffers = ok.buffers;
  }

  pub ingest-SumsOk :
      {s₀ : src.State} {n : ℕ} {s : Session src cfg} {c : Txconf src cfg} {tx : ℕ → Txworker}
      → n + 1 < 2 ^ 64
      → (m : IngestMove src cfg s.txconf s.tx c tx) → IsLongMove src cfg {s = s} (ingest m)
      → Inv src cfg s₀ n s
      → SumsOk src cfg s
      → SumsOk src cfg (record s { txconf = c; tx = tx })
  unfolding dispatch_leg dispatch_end
  ingest-SumsOk fit (choose i e lt q) long v ok = record {
    sum = ok.sum;
    legs = ok.legs;
    saved = ok.saved;
    hands = ok.hands;
    between = ok.between;
    buffers = ok.buffers;
  }
  ingest-SumsOk {s = s} fit (load {i} {readsize} {saved} {checksum} {buffer} {rest} e r) long v ok =
      let (more, few, took) =
        ingest_round-Takes src cfg s.txconf.ingest_leg_counter s.txconf.saved_checksum
          (s.tx i).buffer s.txconf.input (feed readsize saved checksum buffer rest) r in
      let summed =
        ingest_round-IsSummed src cfg s.txconf.ingest_leg_counter s.txconf.saved_checksum
          (s.tx i).buffer s.txconf.input (feed readsize saved checksum buffer rest) r in
      let (going, free) = subst (λ pc. IsAssigned pc s.txconf.done s.tx) e v.threads.assigned in
      let fits : u64 (s.txconf.ingest_leg_counter + 1) ≡ s.txconf.ingest_leg_counter + 1 =
        mod-eq_of_lt (omega (arith, v.ordered.counted)) in
      let w : Txworker =
        dispatch_leg s.txconf.ingest_leg_counter readsize checksum buffer (s.tx i) in
      new_leg-SumsOk _ i w (leg_of w.pkt buffer) saved v.ordered ok (unsent_idle (s.tx i) free) refl
        fits refl
        (
          omega arith,
          inl (
            refl,
            λ tail.
                rw
                  (
                    known ok.sum s.txconf.ingest_leg_counter saved s.txconf.ingest_leg_counter
                        (omega arith),
                    made ok.sum s.txconf.ingest_leg_counter saved,
                    ← ok.saved,
                  )
                  (leg_checksum-verify cfg.gchecksums s.txconf.saved_checksum saved checksum w.pkt
                    buffer tail summed long few refl),
          ),
        )
  ingest-SumsOk {s = s} fit (shut {i} {buffer} e r) long v ok =
      let (going, free) = subst (λ pc. IsAssigned pc s.txconf.done s.tx) e v.threads.assigned in
      let w : Txworker = record (s.tx i) { buffer = buffer } in
      relabel-SumsOk _ i w (unsent_idle w free ∙ sym (unsent_idle (s.tx i) free)) refl refl ok
  ingest-SumsOk {s = s} fit (load_end {i} e) long v ok =
      let (ending, free) = subst (λ pc. IsAssigned pc s.txconf.done s.tx) e v.threads.assigned in
      let fits : u64 (s.txconf.ingest_leg_counter + 1) ≡ s.txconf.ingest_leg_counter + 1 =
        mod-eq_of_lt (omega (arith, v.ordered.counted)) in
      let w : Txworker = dispatch_end s.txconf.ingest_leg_counter (s.tx i) in
      new_leg-SumsOk _ i w (leg_of w.pkt w.buffer) (ok.sum s.txconf.ingest_leg_counter) v.ordered ok
        (unsent_idle (s.tx i) free) refl fits ok.saved
        (
          omega arith,
          inr (
            refl,
            made ok.sum s.txconf.ingest_leg_counter (ok.sum s.txconf.ingest_leg_counter)
                ∙ sym (
                    known ok.sum s.txconf.ingest_leg_counter (ok.sum s.txconf.ingest_leg_counter)
                      s.txconf.ingest_leg_counter (omega arith)),
          ),
        )

  pub transmit-SumsOk :
      {s : Session src cfg} (i : ℕ) (w : Txworker) (sent : List Leg)
      → sent ++ unsent w ≡ unsent (s.tx i)
      → SumsOk src cfg s
      → SumsOk src cfg
          (record s { tx = update s.tx i w; wire = update s.wire i (s.wire i ++ sent) })
  transmit-SumsOk {s = s} i w sent e ok = record {
    sum = ok.sum;
    legs = λ j.
        subst (AllLegs (IsLinked ok.sum s.txconf.ingest_leg_counter))
          (sym (
            ground (arith, regroup (held (s.rx i)) (s.wire i) sent (unsent w) (unsent (s.tx i)) e)))
          (ok.legs j);
    saved = ok.saved;
    hands = ok.hands;
    between = ok.between;
    buffers = ok.buffers;
  }
