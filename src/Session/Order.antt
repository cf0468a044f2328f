-- ===== src/Session/Order.antt =====
-- The invariant of the sequencer: every leg that the ingest thread made and the receiver has not passed
-- lies on the connection that it was given to, once and in the order of the leg ids.
pub mod Transmit
pub mod Receive
pub mod Load
use native.Mathlib.Nat.{mod-eq_of_lt}
use viamillipede.Prelude.{
  ℕ, zero, suc, ◌+◌, ◌-◌, ◌^◌, ◌≤◌, ◌<◌, ◌≡◌, ◌≢◌, ◌⊎◌, inl, inr, refl, sym, subst, ap, ap₂, ◌∙◌,
  update_all, Bool, true, false, List, [], ◌∷◌, ◌++◌, append_assoc, append-nil, update, ◌==◌,
  if◌then◌else◌, u64, arith, ℕ_discrete, dec_lt,
}
use mathlib.Core.Logic.{ite}
use viamillipede.Wire.{Leg, feed_more, end_of_millipede}
use viamillipede.Tx.Worker.{Txworker, unsent}
use viamillipede.Rx.Worker.{
  RxPc, Rxworker, Rxconf, head, reading, holding, sequenced, written, checked, ended, held,
}
use viamillipede.Rx.Effects.{IsGated, put_out, Effect, kept, gave, stopped, passed}
use viamillipede.Session.Share.{
  share, delivered, share-suc_self, share-suc_ne, share-snoc, First, share-First, share-update,
  delivered-update, delivered-suc,
}

-- What the sequencer depends on. `taken` is what the legs carry that the ingest thread has made.
pub record View : Type 0 where
  pub tx : ℕ → Txworker
  pub wire : ℕ → List Leg
  pub rx : ℕ → Rxworker
  pub rxconf : Rxconf
  pub open rxconf use {next_leg, output, done_mbox}
  pub counter : ℕ
  pub fin : Bool
  pub taken : List ℕ

abbrev pub queue : List Leg → List Leg → List Leg → List Leg
queue hand wire back = hand ++ wire ++ back

-- `leg k` is the leg with the id `k`, given to the connection `owner k`; `open_legs` of them are still
-- to be passed.
pub record IsOrdered (n : ℕ) (v : View) : Type 0 where
  pub leg : ℕ → Leg
  pub owner : ℕ → ℕ
  pub open_legs : ℕ
  pub counted : v.counter ≤ n
  pub span : v.next_leg + open_legs ≡ v.counter
  pub ids : (k : ℕ) → k < v.counter → (leg k).pkt.leg_id ≡ k
  pub ends :
      (k : ℕ)
      → k < v.counter
      → (leg k).pkt.opcode ≡ end_of_millipede
      → (suc k ≡ v.counter) × (v.fin ≡ true)
  pub queued :
      (i : ℕ)
      → queue (held (v.rx i)) (v.wire i) (unsent (v.tx i)) ≡ share leg owner i v.next_leg open_legs
  pub gated : (i : ℕ) → IsGated v.next_leg (v.rx i).pc
  pub put : v.output ≡ delivered leg v.next_leg ++ put_out (v.rx (owner v.next_leg)).pc
  pub carried : v.taken ≡ delivered leg v.counter
  pub mbox :
      v.done_mbox ≡ true
      → (v.fin ≡ true) × (v.counter ≤ v.next_leg + 1) × (v.output ≡ delivered leg v.counter)
  pub drained : v.done_mbox ≡ true → (i : ℕ) → unsent (v.tx i) ≡ []

pub record Turn {n : ℕ} {v : View} (o : IsOrdered n v) (i : ℕ) (l : Leg) : Type 0 where
  pub owned : o.owner v.next_leg ≡ i
  pub is_leg : l ≡ o.leg v.next_leg
  pub below : v.next_leg < v.counter

-- A leg in hand whose id is `next_leg` is the next leg, and in the hand of its connection alone.
pub turn_lem :
    {n : ℕ} {v : View} (o : IsOrdered n v) (i : ℕ) (l : Leg)
    → held (v.rx i) ≡ l ∷ []
    → l.pkt.leg_id ≡ v.next_leg
    → Turn o i l
turn_lem {v = v} o i l h g = record {
  owned = ap o.owner (sym e) ∙ f.owned;
  is_leg = f.is_leg ∙ ap o.leg e;
  below = omega (arith, e, f.below, o.span);
}
  where
    f : First o.leg o.owner i v.next_leg o.open_legs l
    f =
        share-First o.leg o.owner i v.next_leg o.open_legs {rest = v.wire i ++ unsent (v.tx i)}
          (sym (o.queued i) ∙ ap (λ hand. queue hand (v.wire i) (unsent (v.tx i))) h)

    e : f.at ≡ v.next_leg
    e =
        sym (o.ids f.at (omega (arith, f.below, o.span)))
        ∙ ap (λ (k : Leg). k.pkt.leg_id) (sym f.is_leg)
        ∙ g
