-- ===== src/Transfer/Tests.antt =====
-- Two bytes from end to end.
use viamillipede.Prelude.{◌≡◌, ◌⊎◌, refl, true, false, List, [], ◌∷◌, ◌++◌, arith}
use viamillipede.Prelude.Run.{done, exit}
use viamillipede.Wire.{preamble_cannon_ul, feed_more}
use viamillipede.Plumbing.Pipe.{pipe}
use viamillipede.Plumbing.Tray.{tray}
use viamillipede.Tx.Worker.{Txworker, idle, head}
use viamillipede.Tx.Ingest.{Config}
use viamillipede.Rx.Worker.{Rxconf}
use viamillipede.Rx.Loop.{Progress, over}
use viamillipede.Rx.Mishap.{Mishap}
use viamillipede.Plumbing.Source.{ReadFails}
use viamillipede.Wire.{Leg}
use viamillipede.Wire.Frame.{frames}
use viamillipede.Tx.Stream.{ingest_stream}
use viamillipede.Transfer.{transfer, transfer_whole}

abbrev plain : Config
plain = record { worker_count = 1; gcharmode = false; gchecksums = false; gleg_limit = 0 }

abbrev ready : Txworker
ready = record {
  state = idle;
  pkt = record {
    preamble = preamble_cannon_ul;
    leg_id = 0;
    size = 0;
    checksum = 0;
    opcode = feed_more;
  };
  buffer = [];
  pc = head;
}

abbrev fresh : Rxconf
fresh = record { next_leg = 0; done_mbox = false; grx_saved_checksum = 255; output = [] }

transfer_whole_example :
    ((ReadFails pipe (7 ∷ 8 ∷ [])
        × (transfer pipe plain pipe
              (λ bs. bs)
              tray
              118
              (λ k. [])
              (121 ∷ [])
              3
              4
              ready
              (7 ∷ 8 ∷ [])
              []
              fresh
              []
            ≡ exit 4))
      ⊎ ((legs : List Leg) × (ingest_stream pipe plain 3 0 0xff ready (7 ∷ 8 ∷ []) ≡ done legs)
          × Mishap pipe (frames legs) (
              transfer pipe plain pipe
                (λ bs. bs)
                tray
                118
                (λ k. [])
                (121 ∷ [])
                3
                4
                ready
                (7 ∷ 8 ∷ [])
                []
                fresh
                [])))
    ⊎ ((p : Progress pipe tray) × (transfer pipe plain pipe
            (λ bs. bs)
            tray
            118
            (λ k. [])
            (121 ∷ [])
            3
            4
            ready
            (7 ∷ 8 ∷ [])
            []
            fresh
            []
          ≡ done p)
        × (p.end ≡ over)
        × (p.conf.done_mbox ≡ true)
        × (p.out ≡ [] ++ (7 ∷ 8 ∷ [])))
transfer_whole_example =
    transfer_whole pipe plain pipe (λ bs. bs) tray 118 (λ k. []) (121 ∷ []) refl refl
      (λ s vs. (_, refl)) (λ bytes. refl) 3 4 ready (7 ∷ 8 ∷ []) [] fresh [] (omega arith)
      (omega arith) (omega arith)
      (record {
        preamble = omega arith;
        leg_id = omega arith;
        size = omega arith;
        checksum = omega arith;
        opcode = omega arith;
      })
      refl refl
