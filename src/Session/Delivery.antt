-- ===== src/Session/Delivery.antt =====
-- What the sessions of the program guarantee.
use viamillipede.Prelude.{
  ℕ, zero, suc, ◌+◌, ◌-◌, ◌^◌, ◌≤◌, ◌<◌, ◌≡◌, ◌⊎◌, inl, inr, refl, sym, ap, ap₂, ◌∙◌, subst, Bool,
  true, false, Bool-cases, List, [], ◌∷◌, ◌++◌, append-nil, append_assoc, arith,
}
use mathlib.Core.Bool.{false≢true}
use viamillipede.Wire.{Millipacket, Leg}
use viamillipede.Plumbing.Source.{Source}
use viamillipede.Tx.Worker.{unsent, Txworker}
use viamillipede.Tx.Ingest.{IngestPc, scanning, filling, closing, finished}
use viamillipede.Session.Threads.{IsAssigned}
use viamillipede.Tx.Ingest.{Config}
use viamillipede.Rx.Worker.{RxPc, head, reading, holding, sequenced, written, checked, ended, held}
use viamillipede.Rx.Effects.{IsGated, put_out}
use viamillipede.Session.{Session, init, Steps, IsCalmRun}
use viamillipede.Session.Share.{share, delivered, delivered-suc, share-suc_self}
use viamillipede.Session.Order.{View, IsOrdered, Turn, turn_lem}
use viamillipede.Session.Invariant.{is_finished, Inv, Steps-Inv}

-- The first legs carry the front of what all legs carry.
delivered-front :
    (leg : ℕ → Leg) (m k : ℕ) → (rest : List ℕ) × (delivered leg (m + k) ≡ delivered leg m ++ rest)
delivered-front leg m zero =
    ([], ap (delivered leg) (omega arith) ∙ sym (append-nil (delivered leg m)))
delivered-front leg m (suc k) =
    let (rest, e) = delivered-front leg m k in
    (
      rest ++ (leg (m + k)).payload,
      ap (delivered leg) (omega arith)
          ∙ delivered-suc leg (m + k)
          ∙ ap (λ l. l ++ (leg (m + k)).payload) e
          ∙ append_assoc (delivered leg m) rest (leg (m + k)).payload,
    )

delivered-le :
    (leg : ℕ → Leg) (m k : ℕ)
    → m ≤ k
    → (rest : List ℕ) × (delivered leg k ≡ delivered leg m ++ rest)
delivered-le leg m k h =
    let (rest, e) = delivered-front leg m (k - m) in (rest, ap (delivered leg) (omega arith) ∙ e)

-- The worker is between the wait for its turn and `next_leg++`.
abbrev pub past_gate : RxPc → Bool
past_gate (sequenced l) = true
past_gate (written l) = true
past_gate (checked l) = true
past_gate _ = false

module _ {n : ℕ} {v : View} (o : IsOrdered n v) where
  past_gate-held :
      (i : ℕ) (pc : RxPc)
      → (v.rx i).pc ≡ pc
      → past_gate pc ≡ true
      → (l : Leg) × (held (v.rx i) ≡ l ∷ []) × Turn o i l
  past_gate-held i head e p = absurd (cc)
  past_gate-held i reading e p = absurd (cc)
  past_gate-held i (holding l) e p = absurd (cc)
  past_gate-held i (sequenced l) e p =
      (l, ground arith, turn_lem o i l (ground arith) (subst (IsGated v.next_leg) e (o.gated i)))
  past_gate-held i (written l) e p =
      (l, ground arith, turn_lem o i l (ground arith) (subst (IsGated v.next_leg) e (o.gated i)))
  past_gate-held i (checked l) e p =
      (l, ground arith, turn_lem o i l (ground arith) (subst (IsGated v.next_leg) e (o.gated i)))
  past_gate-held i ended e p = absurd (cc)

  -- One worker at most is past the gate.
  pub one_past : (i j : ℕ) → past_gate (v.rx i).pc ≡ true → past_gate (v.rx j).pc ≡ true → i ≡ j
  one_past i j p q =
      let (l, h, t) = past_gate-held i (v.rx i).pc refl p in
      let (l', h', t') = past_gate-held j (v.rx j).pc refl q in sym t.owned ∙ t'.owned

  put_out_past : (pc : RxPc) → past_gate pc ≡ false → put_out pc ≡ []
  put_out_past (written l) p = absurd (false≢true (sym p))
  put_out_past (checked l) p = absurd (false≢true (sym p))
  put_out_past _ p = refl

  put_out_turn :
      (i : ℕ) (pc : RxPc) (l : Leg)
      → (v.rx i).pc ≡ pc
      → held (v.rx i) ≡ l ∷ []
      → (put_out pc ≡ []) ⊎ (put_out pc ≡ l.payload)
  put_out_turn i (written x) l e h = inr (ground arith)
  put_out_turn i (checked x) l e h = inr (ground arith)
  put_out_turn i _ l e h = inl refl

  -- The output is what a number of first legs carry.
  output_at : (m : ℕ) × (m ≤ v.counter) × (v.output ≡ delivered o.leg m)
  output_at = elim (Bool-cases (past_gate hand)) [
    | inr before ↦ (
      v.next_leg,
      omega (arith, o.span),
      o.put ∙ ap (λ q. delivered o.leg v.next_leg ++ q) (put_out_past hand before) ∙ append-nil _,
    )
    | inl past ↦
        let (l, h, t) = past_gate-held (o.owner v.next_leg) hand refl past in
        elim (put_out_turn (o.owner v.next_leg) hand l refl h) [
          | inl none ↦ (
            v.next_leg,
            omega (arith, o.span),
            o.put ∙ ap (λ q. delivered o.leg v.next_leg ++ q) none ∙ append-nil _,
          )
          | inr all ↦ (
            v.next_leg + 1,
            omega (arith, t.below),
            o.put
                ∙ ap (λ q. delivered o.leg v.next_leg ++ q)
                    (all ∙ ap (λ (x : Leg). x.payload) t.is_leg)
                ∙ sym (delivered-suc o.leg v.next_leg),
          )
        ]
  ]
    where
      hand : RxPc
      hand = (v.rx (o.owner v.next_leg)).pc

  output-taken : (rest : List ℕ) × (v.taken ≡ v.output ++ rest)
  output-taken =
      let (m, le, out) = output_at in
      let (rest, e) = delivered-le o.leg m v.counter le in
      (rest, o.carried ∙ e ∙ ap (λ l. l ++ rest) (sym out))

finished_done :
    (tx : ℕ → Txworker) {done : Bool} (pc : IngestPc)
    → IsAssigned pc done tx
    → is_finished pc ≡ true
    → done ≡ true
finished_done tx scanning a f = absurd (false≢true f)
finished_done tx (filling i) a f = absurd (false≢true f)
finished_done tx (closing i) a f = absurd (false≢true f)
finished_done tx finished a f = a

-- A session of `n` steps from the start, over the descriptor `input`, in which no worker was given a
-- leg before it had reset its header.
module _ (src : Source) (cfg : Config) (header : ℕ → Millipacket) (tx_buffer rx_buffer : ℕ → List ℕ)
    (input : src.State) {n : ℕ} {s : Session src cfg} (fit : n < 2 ^ 64)
    (steps : Steps src cfg (init src cfg header tx_buffer rx_buffer input) n s)
    (calm : IsCalmRun src cfg steps) where
  inv : Inv src cfg input n s
  inv = Steps-Inv src cfg fit steps calm

  -- In every state of a session of fewer than 2 ^ 64 steps in which no worker was given a leg before
  -- it had reset its header, what has been put out is a front of the input, with nothing lost,
  -- repeated or swapped, in whatever order the threads ran.
  pub output_front : (rest : List ℕ) × (src.pending input ≡ s.rxconf.output ++ rest)
  output_front =
      let (rest, e) = output-taken inv.ordered in
      (
        rest ++ (inv.lost ++ src.pending s.txconf.input),
        inv.input
            ∙ append_assoc inv.taken inv.lost _
            ∙ ap (λ l. l ++ (inv.lost ++ src.pending s.txconf.input)) e
            ∙ append_assoc s.rxconf.output rest _,
      )

  -- Once the receiver has set `done_mbox`, in such a session (fewer than 2 ^ 64 steps, no worker given
  -- a leg before it had reset its header) with no leg limit, the output is the whole input.
  pub output_whole :
      cfg.gleg_limit ≡ 0 → s.rxconf.done_mbox ≡ true → s.rxconf.output ≡ src.pending input
  output_whole no_limit done =
      let (fin, few, all) = inv.ordered.mbox done in
      let (none, over) =
        inv.closed_input no_limit (finished_done s.tx s.txconf.pc inv.threads.assigned fin) in
      all
      ∙ sym inv.ordered.carried
      ∙ sym (append-nil inv.taken)
      ∙ sym (append-nil (inv.taken ++ []))
      ∙ sym (ap₂ (λ l r. inv.taken ++ l ++ r) none over)
      ∙ sym inv.input

  -- In such a session (fewer than 2 ^ 64 steps, no worker given a leg before it had reset its header)
  -- two workers of the receiver are never between the wait for their turn and `next_leg++` at once.
  pub one_writer : (i j : ℕ) → past_gate (s.rx i).pc ≡ true → past_gate (s.rx j).pc ≡ true → i ≡ j
  one_writer = one_past inv.ordered

  -- In such a session (fewer than 2 ^ 64 steps, no worker given a leg before it had reset its header)
  -- the leg that the sequencer waits for is never behind another one: if it has been made, it is the
  -- first on its connection, in the hand of the receiver's worker, on the wire, or still with the
  -- transmitter's worker.
  pub next_leg_first :
      s.rxconf.next_leg < s.txconf.ingest_leg_counter
      → (i : ℕ) × (l : Leg) × (behind : List Leg) × (held (s.rx i) ++ s.wire i ++ unsent (s.tx i)
          ≡ l ∷ behind)
        × (l.pkt.leg_id ≡ s.rxconf.next_leg)
  next_leg_first made =
      let o = inv.ordered in
      let left : o.open_legs ≡ suc (o.open_legs - 1) = omega (arith, o.span) in
      let i = o.owner s.rxconf.next_leg in
      (
        i,
        o.leg s.rxconf.next_leg,
        share o.leg o.owner i (s.rxconf.next_leg + 1) (o.open_legs - 1),
        o.queued i
            ∙ ap (share o.leg o.owner i s.rxconf.next_leg) left
            ∙ share-suc_self o.leg o.owner i s.rxconf.next_leg (o.open_legs - 1) refl,
        o.ids s.rxconf.next_leg made,
      )
