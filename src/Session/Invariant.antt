-- ===== src/Session/Invariant.antt =====
-- The invariant of a session, kept by every step.
use viamillipede.Prelude.{
  ℕ, suc, ◌+◌, ◌^◌, ◌<◌, ◌≡◌, refl, sym, ap, ◌∙◌, subst, Bool, true, false, List, [], ◌++◌,
  append-nil, append_assoc, take, update, u64, arith,
}
use mathlib.Core.Bool.{false≢true}
use native.Mathlib.Nat.{mod-eq_of_lt}
use viamillipede.Wire.{Millipacket, leg_of, feed_more-ne-end}
use viamillipede.Plumbing.Source.{Source}
use viamillipede.Tx.Worker.{Txworker, idle, unsent, dispatch_leg, dispatch_end}
use viamillipede.Tx.Consistency.{TxMove-unsent}
use viamillipede.Tx.Ingest.{
  Config, IngestPc, finished, Txconf, IngestMove, choose, load, shut, load_end, feed, shutdown,
}
use viamillipede.Tx.Rounds.{ingest_round-Takes}
use viamillipede.Rx.Effects.{RxMove-Effect}
use viamillipede.Session.Share.{share, delivered}
use viamillipede.Session.{
  Session, Step, ingest, transmit, receive, init, Steps, here, next, IsCalm, IsCalmRun,
}
use viamillipede.Session.Threads.{IsAssigned, ThreadsOk, Step-ThreadsOk, ThreadsOk-init}
use viamillipede.Session.Order.{View, IsOrdered}
use viamillipede.Session.Order.Transmit.{transmit-IsOrdered, relabel-IsOrdered}
use viamillipede.Session.Order.Receive.{receive-IsOrdered}
use viamillipede.Session.Order.Load.{load-IsOrdered}

abbrev pub is_finished : IngestPc → Bool
is_finished finished = true
is_finished _ = false

pub unsent_idle : (w : Txworker) → w.state ≡ idle → unsent w ≡ []
unsent_idle w e = ground arith

module _ {p₀ p : List ℕ} (taken lost bs p' : List ℕ) (input : p₀ ≡ taken ++ lost ++ p)
    (none_lost : lost ≡ []) (took : p ≡ bs ++ p') where
  input_fed : p₀ ≡ taken ++ bs ++ [] ++ p'
  input_fed =
      rw (append-nil, append_assoc, ← took)
        (input ∙ ap (λ l. l ++ p) (ap (λ l. taken ++ l) none_lost ∙ append-nil taken))

  input_shut : p₀ ≡ taken ++ bs ++ p'
  input_shut =
      rw (append_assoc, ← took)
        (input ∙ ap (λ l. l ++ p) (ap (λ l. taken ++ l) none_lost ∙ append-nil taken))

module _ (src : Source) (cfg : Config) where
  open src use {State, pending}

  abbrev pub view : Session src cfg → List ℕ → View
  view s taken = record {
    tx = s.tx;
    wire = s.wire;
    rx = s.rx;
    rxconf = s.rxconf;
    counter = s.txconf.ingest_leg_counter;
    fin = is_finished s.txconf.pc;
    taken = taken;
  }

  -- `s₀` is the descriptor before the session, `taken` what was made into legs, and `lost` what the last
  -- read took without making a leg of it.
  pub record Inv (s₀ : State) (n : ℕ) (s : Session src cfg) : Type 0 where
    pub threads : ThreadsOk src cfg s
    pub taken : List ℕ
    pub lost : List ℕ
    pub ordered : IsOrdered n (view s taken)
    pub input : pending s₀ ≡ taken ++ lost ++ pending s.txconf.input
    pub open_input : s.txconf.done ≡ false → lost ≡ []
    pub closed_input :
        cfg.gleg_limit ≡ 0 → s.txconf.done ≡ true → (lost ≡ []) × (pending s.txconf.input ≡ [])

  later_IsOrdered : {n : ℕ} {v : View} → IsOrdered n v → IsOrdered (suc n) v
  later_IsOrdered o = record {
    leg = o.leg;
    owner = o.owner;
    open_legs = o.open_legs;
    counted = omega (arith, o.counted);
    span = o.span;
    ids = o.ids;
    ends = o.ends;
    queued = o.queued;
    gated = o.gated;
    put = o.put;
    carried = o.carried;
    mbox = o.mbox;
    drained = o.drained;
  }

  ingest-Inv :
      {s₀ : State} {n : ℕ} {s : Session src cfg} {c : Txconf src cfg} {tx : ℕ → Txworker}
      → n + 1 < 2 ^ 64
      → IngestMove src cfg s.txconf s.tx c tx
      → ThreadsOk src cfg (record s { txconf = c; tx = tx })
      → Inv s₀ n s
      → Inv s₀ (suc n) (record s { txconf = c; tx = tx })
  unfolding dispatch_leg dispatch_end
  ingest-Inv {n = n} {s = s} fit (choose i e lt q) ok v = record {
    threads = ok;
    taken = v.taken;
    lost = v.lost;
    ordered =
        subst (λ b. IsOrdered (suc n) (record (view s v.taken) { fin = b })) (ap is_finished e)
          (later_IsOrdered v.ordered);
    input = v.input;
    open_input = v.open_input;
    closed_input = v.closed_input;
  }
  ingest-Inv {n = n} {s = s} fit (load {i} {readsize} {saved} {checksum} {buffer} {rest} e r) ok v =
      let (more, few, took) =
        ingest_round-Takes src cfg s.txconf.ingest_leg_counter s.txconf.saved_checksum
          (s.tx i).buffer s.txconf.input (feed readsize saved checksum buffer rest) r in
      let (going, free) = subst (λ pc. IsAssigned pc s.txconf.done s.tx) e v.threads.assigned in
      let fits : u64 (s.txconf.ingest_leg_counter + 1) ≡ s.txconf.ingest_leg_counter + 1 =
        mod-eq_of_lt (omega (arith, v.ordered.counted)) in
      let w : Txworker =
        dispatch_leg s.txconf.ingest_leg_counter readsize checksum buffer (s.tx i) in
      record {
        threads = ok;
        taken = v.taken ++ take readsize buffer;
        lost = [];
        ordered =
            subst
              (λ k. IsOrdered (suc n) (record (view s (v.taken ++ take readsize buffer)) {
                tx = update s.tx i w;
                counter = k;
                fin = false;
              }))
              (sym fits)
              (load-IsOrdered i w (leg_of w.pkt buffer) false (unsent_idle (s.tx i) free) refl refl
                (λ z. absurd (feed_more-ne-end z)) (ap is_finished e) v.ordered);
        input =
            input_fed v.taken v.lost (take readsize buffer) (pending rest) v.input
              (v.open_input going) took;
        open_input = λ z. refl;
        closed_input = λ z d. absurd (false≢true (sym going ∙ d));
      }
  ingest-Inv {n = n} {s = s} fit (shut {i} {buffer} {rest} e r) ok v =
      let (lost, took, ended) =
        ingest_round-Takes src cfg s.txconf.ingest_leg_counter s.txconf.saved_checksum
          (s.tx i).buffer s.txconf.input (shutdown buffer rest) r in
      let (going, free) = subst (λ pc. IsAssigned pc s.txconf.done s.tx) e v.threads.assigned in
      let w : Txworker = record (s.tx i) { buffer = buffer } in
      record {
        threads = ok;
        taken = v.taken;
        lost = lost;
        ordered =
            subst
              (λ b. IsOrdered (suc n) (record (view s v.taken) { tx = update s.tx i w; fin = b }))
              (ap is_finished e)
              (later_IsOrdered (
                relabel-IsOrdered i w (unsent_idle w free ∙ sym (unsent_idle (s.tx i) free))
                  v.ordered));
        input = input_shut v.taken v.lost lost (pending rest) v.input (v.open_input going) took;
        open_input = λ z. absurd (false≢true (sym z));
        closed_input = λ z d. ended z;
      }
  ingest-Inv {n = n} {s = s} fit (load_end {i} e) ok v =
      let (ending, free) = subst (λ pc. IsAssigned pc s.txconf.done s.tx) e v.threads.assigned in
      let fits : u64 (s.txconf.ingest_leg_counter + 1) ≡ s.txconf.ingest_leg_counter + 1 =
        mod-eq_of_lt (omega (arith, v.ordered.counted)) in
      let w : Txworker = dispatch_end s.txconf.ingest_leg_counter (s.tx i) in
      record {
        threads = ok;
        taken = v.taken ++ [];
        lost = v.lost;
        ordered =
            subst
              (λ k.
                IsOrdered (suc n) (record (view s (v.taken ++ [])) {
                  tx = update s.tx i w;
                  counter = k;
                  fin = true;
                }))
              (sym fits)
              (load-IsOrdered i w (leg_of w.pkt w.buffer) true (unsent_idle (s.tx i) free) refl refl
                (λ z. refl) (ap is_finished e) v.ordered);
        input =
            v.input ∙ ap (λ l. l ++ v.lost ++ pending s.txconf.input) (sym (append-nil v.taken));
        open_input = v.open_input;
        closed_input = v.closed_input;
      }

  pub Step-Inv :
      {s₀ : State} {n : ℕ} {s t : Session src cfg}
      → n + 1 < 2 ^ 64
      → Step src cfg s t
      → IsCalm src cfg s
      → Inv s₀ n s
      → Inv s₀ (suc n) t
  Step-Inv fit (ingest m) calm v = ingest-Inv fit m (Step-ThreadsOk src cfg (ingest m) v.threads) v
  Step-Inv {s = s} fit (transmit i {w} {sent} lt m) calm v = record {
    threads = Step-ThreadsOk src cfg (transmit i lt m) v.threads;
    taken = v.taken;
    lost = v.lost;
    ordered =
        later_IsOrdered (
          transmit-IsOrdered i w sent (TxMove-unsent m (v.threads.consistent i) (calm i))
            v.ordered);
    input = v.input;
    open_input = v.open_input;
    closed_input = v.closed_input;
  }
  Step-Inv fit (receive i {c} {w} {rest} lt m) calm v = record {
    threads = Step-ThreadsOk src cfg (receive i lt m) v.threads;
    taken = v.taken;
    lost = v.lost;
    ordered = later_IsOrdered (
        receive-IsOrdered i c w rest (omega arith) (RxMove-Effect m (v.ordered.gated i)) v.ordered);
    input = v.input;
    open_input = v.open_input;
    closed_input = v.closed_input;
  }

  pub Inv-init :
      (header : ℕ → Millipacket) (tx_buffer rx_buffer : ℕ → List ℕ) (input : State)
      → Inv input 0 (init src cfg header tx_buffer rx_buffer input)
  unfolding share delivered
  Inv-init header tx_buffer rx_buffer input = record {
    threads = ThreadsOk-init src cfg header tx_buffer rx_buffer input;
    taken = [];
    lost = [];
    ordered = record {
      leg = λ k. leg_of (header k) [];
      owner = λ k. 0;
      open_legs = 0;
      counted = omega arith;
      span = omega arith;
      ids = λ k lt. absurd (omega arith);
      ends = λ k lt. absurd (omega arith);
      queued = λ i. refl;
      gated = λ i. tt;
      put = refl;
      carried = refl;
      mbox = λ m. absurd (false≢true m);
      drained = λ m. absurd (false≢true m);
    };
    input = refl;
    open_input = λ d. refl;
    closed_input = λ z d. absurd (false≢true d);
  }

  -- The invariant holds in every state of a calm session of fewer than 2 ^ 64 steps.
  pub Steps-Inv :
      {header : ℕ → Millipacket} {tx_buffer rx_buffer : ℕ → List ℕ} {input : State} {n : ℕ}
      {s : Session src cfg}
      → n < 2 ^ 64
      → (steps : Steps src cfg (init src cfg header tx_buffer rx_buffer input) n s)
      → IsCalmRun src cfg steps
      → Inv input n s
  Steps-Inv {header} {tx_buffer} {rx_buffer} {input} fit here calm =
      Inv-init header tx_buffer rx_buffer input
  Steps-Inv fit (next steps st) calm =
      Step-Inv (omega arith) st calm.1 (Steps-Inv (omega arith) steps calm.0)
