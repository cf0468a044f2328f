-- ===== src/Session/Tests.antt =====
-- A session of one worker that carries two bytes, step by step, and the theorems at its states.
mod Endings
mod Polling
mod Sums
use viamillipede.Prelude.{
  ℕ, suc, ◌+◌, ◌^◌, ◌<◌, ◌≤◌, take, ◌≡◌, ◌≢◌, ◌⊎◌, overwrite, update_all, refl, Bool, true, false,
  List, [], ◌∷◌, ◌++◌, arith, ℕ_discrete,
}
use viamillipede.Wire.{Millipacket, Leg, kfootsize}
use viamillipede.Plumbing.Pipe.{pipe}
use viamillipede.Plumbing.Bufferfill.{bufferfill}
use viamillipede.Tx.Worker.{
  Txworker, TxMove, connect, clear, observe, start_push, send, finish_push, announce, come_online,
  look, begin_push, write_leg, release, dispatch_leg, dispatch_end, action, TxState, dead, seen,
  stay, push, unsent,
}
use viamillipede.Tx.Consistency.{IsCalmWorker, TxMove-IsCalmWorker}
use viamillipede.Tx.Ingest.{Config, ingest_round, choose, load, shut, load_end}
use viamillipede.Rx.Worker.{
  RxMove, Rxconf, Rxworker, receive as receive_leg, enter, take_leg, pass_gate, put, verify, stop,
  advance, verify_checksum, held,
}
use viamillipede.Session.Delivery.{output_front, output_whole, one_writer, next_leg_first}
use viamillipede.Session.Recovery.{no_recovery}
use viamillipede.Session.Startup.{IsWiped, startup_race}
use viamillipede.Session.{
  Session, Step, ingest, transmit, receive, init, Steps, here, next, IsCalm, IsCalmRun,
}

abbrev one_worker : Config
one_worker = record { worker_count = 1; gcharmode = false; gchecksums = false; gleg_limit = 0 }

abbrev blank : Millipacket
blank = record { preamble = 0; leg_id = 0; size = 0; checksum = 0; opcode = 0 }

abbrev hi : List ℕ
hi = 104 ∷ 105 ∷ []

abbrev start : Session pipe one_worker
start = init pipe one_worker (λ i. blank) (λ i. []) (λ i. []) hi

record Trace (cfg : Config) (first : Session pipe cfg) : Type 0 where
  single : 0 < cfg.worker_count
  count : ℕ
  last : Session pipe cfg
  steps : Steps pipe cfg first count last
  calm_run : IsCalmRun pipe cfg steps
  calm : IsCalm pipe cfg last

-- A step of the ingest thread, of the transmitter's worker, and of the receiver's.
infixl 4 ◌▸◌
abbrev ◌▸◌ :
    {cfg : Config} {first : Session pipe cfg} (t : Trace cfg first) {u : Session pipe cfg}
    → Step pipe cfg t.last u × IsCalm pipe cfg u
    → Trace cfg first
◌▸◌ t {u} (st, calm) = record {
  single = t.single;
  count = suc t.count;
  last = u;
  steps = next t.steps st;
  calm_run = (t.calm_run, t.calm);
  calm = calm;
}

infixl 4 ◌↗◌
abbrev ◌↗◌ :
    {cfg : Config} {first : Session pipe cfg} (t : Trace cfg first) {w : Txworker} {sent : List Leg}
    → TxMove t.last.txconf.done (t.last.tx 0) w sent
    → Trace cfg first
◌↗◌ t m = t ▸ (
  transmit 0 t.single m,
  update_all (λ _ x. IsCalmWorker x) t.last.tx 0 _ (TxMove-IsCalmWorker m (t.calm 0)) t.calm,
)

infixl 4 ◌↘◌
abbrev ◌↘◌ :
    {cfg : Config} {first : Session pipe cfg} (t : Trace cfg first) {c : Rxconf} {w : Rxworker}
    {rest : List Leg}
    → RxMove t.last.rxconf (t.last.rx 0) (t.last.wire 0) c w rest
    → Trace cfg first
◌↘◌ t m = t ▸ (receive 0 t.single m, t.calm)

-- The first leg is dispatched.
loaded : Trace one_worker start
unfolding announce come_online dispatch_leg ingest_round bufferfill ℕ_discrete
loaded =
    record {
      single = omega arith;
      count = 0;
      last = start;
      steps = here;
      calm_run = tt;
      calm = λ i e. absurd (cc);
    }
    ↗ connect refl
    ↗ clear refl
    ▸ (ingest (choose 0 refl (omega arith) refl), λ i. ground arith)
    ▸ (ingest (load refl refl), λ i. ground arith)

-- It is pushed, received and put out.
one_leg : Trace one_worker start
unfolding loaded look begin_push write_leg release action receive_leg
one_leg =
    loaded
    ↗ observe refl
    ↗ start_push refl refl
    ↗ send refl
    ↗ finish_push refl
    ↘ enter refl refl
    ↘ take_leg refl refl
    ↘ pass_gate refl refl
    ↘ put refl

-- The input is at its end, and `txshutdown` has set `done`.
at_end : Trace one_worker start
unfolding one_leg verify_checksum overwrite
at_end =
    one_leg
    ↘ verify refl refl refl
    ↘ advance refl
    ▸ (ingest (choose 0 refl (omega arith) refl), λ i. ground arith)
    ▸ (ingest (shut refl refl), λ i. ground arith)

-- The last leg makes it in time.
whole : Trace one_worker start
unfolding at_end dispatch_end
whole =
    at_end
    ▸ (ingest (load_end refl), λ i. ground arith)
    ↗ observe refl
    ↗ start_push refl refl
    ↗ send refl
    ↗ finish_push refl
    ↘ enter refl refl
    ↘ take_leg refl refl
    ↘ pass_gate refl refl
    ↘ put refl
    ↘ stop refl refl

whole_output : (whole.last.rxconf.output ≡ hi) × (whole.last.rxconf.done_mbox ≡ true)
unfolding whole
whole_output = (refl, refl)

output_front_example : (rest : List ℕ) × (hi ≡ one_leg.last.rxconf.output ++ rest)
unfolding one_leg
output_front_example =
    output_front pipe one_worker (λ i. blank) (λ i. []) (λ i. []) hi (omega arith) one_leg.steps
      one_leg.calm_run

output_whole_example : whole.last.rxconf.output ≡ hi
unfolding whole
output_whole_example =
    output_whole pipe one_worker (λ i. blank) (λ i. []) (λ i. []) hi (omega arith) whole.steps
      whole.calm_run refl refl

one_writer_example : ◌≡◌ {A = ℕ} 0 0
unfolding one_leg
one_writer_example =
    one_writer pipe one_worker (λ i. blank) (λ i. []) (λ i. []) hi (omega arith) one_leg.steps
      one_leg.calm_run 0 0 refl refl

next_leg_first_example :
    (i : ℕ) × (l : Leg) × (behind : List Leg) × (held (loaded.last.rx i)
        ++ loaded.last.wire i
        ++ unsent (loaded.last.tx i)
      ≡ l ∷ behind)
    × (l.pkt.leg_id ≡ loaded.last.rxconf.next_leg)
unfolding loaded
next_leg_first_example =
    next_leg_first pipe one_worker (λ i. blank) (λ i. []) (λ i. []) hi (omega arith) loaded.steps
      loaded.calm_run (omega arith)

no_recovery_example :
    ((one_leg.last.tx 0).state ≢ dead)
    × ((d : Bool) (l : TxState)
        → (one_leg.last.tx 0).pc ≡ seen d l
        → (action l ≡ stay) ⊎ (action l ≡ push))
unfolding one_leg
no_recovery_example = no_recovery pipe one_worker one_leg.steps 0
