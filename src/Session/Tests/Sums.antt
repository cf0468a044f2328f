-- ===== src/Session/Tests/Sums.antt =====
-- A session that carries eight bytes with the checksums on.
use viamillipede.Prelude.{
  ℕ, ◌≡◌, ◌⊎◌, overwrite, refl, List, [], ◌∷◌, arith, ℕ_discrete, true, false,
}
use viamillipede.Prelude.Run.{done}
use viamillipede.Wire.{Millipacket, preamble_cannon_ul, feed_more, end_of_millipede}
use viamillipede.Plumbing.Pipe.{pipe}
use viamillipede.Plumbing.Mix.{mix, mix_loop, load_ulong}
use viamillipede.Plumbing.Bufferfill.{bufferfill}
use viamillipede.Tx.Worker.{
  connect, clear, observe, start_push, send, finish_push, announce, come_online, look, begin_push,
  write_leg, release, dispatch_leg, action,
}
use viamillipede.Tx.Ingest.{Config, ingest_round, choose, load, leg_checksum}
use viamillipede.Rx.Worker.{receive, enter, take_leg, pass_gate, put, verify_checksum}
use viamillipede.Session.{Session, init, ingest, here}
use viamillipede.Session.Sums.{IsLongRun}
use viamillipede.Session.Sums.Checks.{checks_pass}
use viamillipede.Session.Tests.{blank, Trace, ◌▸◌, ◌↗◌, ◌↘◌}

abbrev sums_on : Config
sums_on = record { worker_count = 1; gcharmode = false; gchecksums = true; gleg_limit = 0 }

abbrev text : List ℕ
text = 109 ∷ 105 ∷ 108 ∷ 108 ∷ 105 ∷ 112 ∷ 101 ∷ 100 ∷ []

abbrev before : Session pipe sums_on
before = init pipe sums_on (λ i. blank) (λ i. []) (λ i. []) text

-- The leg is put out, and the receiver is about to check it.
summed : Trace sums_on before
unfolding announce come_online dispatch_leg ingest_round bufferfill leg_checksum mix mix_loop
    load_ulong ℕ_discrete look begin_push write_leg release action receive overwrite
summed =
    record {
      single = omega arith;
      count = 0;
      last = before;
      steps = here;
      calm_run = tt;
      calm = λ i e. absurd (cc);
    }
    ↗ connect refl
    ↗ clear refl
    ▸ (ingest (choose 0 refl (omega arith) refl), λ i. ground arith)
    ▸ (ingest (load refl refl), λ i. ground arith)
    ↗ observe refl
    ↗ start_push refl refl
    ↗ send refl
    ↗ finish_push refl
    ↘ enter refl refl
    ↘ take_leg refl refl
    ↘ pass_gate refl refl
    ↘ put refl

summed_long : IsLongRun pipe sums_on summed.steps
unfolding summed
summed_long = omega arith

abbrev summed_pkt : Millipacket
summed_pkt = record {
  preamble = preamble_cannon_ul;
  leg_id = 0;
  size = 8;
  checksum = 3638088673;
  opcode = feed_more;
}

checks_pass_example :
    (◌≡◌ {A = ℕ} feed_more feed_more
      × (saved : ℕ) × (verify_checksum 255 summed_pkt (summed.last.rx 0).buffer ≡ done saved))
    ⊎ ◌≡◌ {A = ℕ} feed_more end_of_millipede
unfolding summed
checks_pass_example =
    checks_pass pipe sums_on (omega arith) summed.steps summed.calm_run summed_long 0 _ refl
