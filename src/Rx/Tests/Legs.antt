-- ===== src/Rx/Tests/Legs.antt =====
-- `rxworker` on the bytes of a connection, and its output, at concrete inputs.
use viamillipede.Prelude.{
  ℕ, ◌<◌, ◌≡◌, ◌≢◌, ◌⊎◌, refl, false, true, List, [], ◌∷◌, take, drop, arith,
}
use viamillipede.Prelude.Run.{done, exit, abort}
use viamillipede.Wire.{Leg, end_of_millipede, preamble_cannon_ul}
use viamillipede.Wire.Frame.{header_bytes, ulong_bytes, header_size, frames, IsSound, load_header}
use viamillipede.Plumbing.Mix.{load_ulong}
use viamillipede.Plumbing.Source.{ReadsTo, ReadFails}
use viamillipede.Plumbing.Pipe.{pipe}
use viamillipede.Plumbing.Tray.{tray}
use viamillipede.Rx.Worker.{Rxworker, Rxconf, head, sequenced, receive}
use viamillipede.Rx.Frame.{read_leg, read_leg-receive, read_leg_closed}
use viamillipede.Rx.Deliver.{Delivers, deliver, deliver-RxMoves}

abbrev first_leg : Leg
first_leg = record {
  pkt = record {
    preamble = preamble_cannon_ul;
    leg_id = 0;
    size = 2;
    checksum = 0;
    opcode = 0xcafe;
  };
  payload = 7 ∷ 8 ∷ [];
}

abbrev last_leg : Leg
last_leg = record {
  pkt = record {
    preamble = preamble_cannon_ul;
    leg_id = 1;
    size = 0;
    checksum = 0;
    opcode = end_of_millipede;
  };
  payload = [];
}

first_leg-IsSound : IsSound first_leg
first_leg-IsSound = record {
  header = record {
    preamble = omega arith;
    leg_id = omega arith;
    size = omega arith;
    checksum = omega arith;
    opcode = omega arith;
  };
  fits = omega arith;
  whole = refl;
}

abbrev worker : Rxworker
worker = record { pc = head; buffer = 1 ∷ 1 ∷ 1 ∷ [] }

-- Two legs on a connection; the header holds another leg before.
read_leg-receive_example :
    (ReadFails pipe (frames (first_leg ∷ last_leg ∷ []))
      × (read_leg pipe
            (header_bytes last_leg.pkt)
            worker.buffer
            (frames (first_leg ∷ last_leg ∷ []))
          ≡ exit 4))
    ⊎ ((rest : List ℕ) × ReadsTo pipe (frames (first_leg ∷ last_leg ∷ [])) rest
        × (rest ≡ frames (last_leg ∷ []))
        × (read_leg pipe
              (header_bytes last_leg.pkt)
              worker.buffer
              (frames (first_leg ∷ last_leg ∷ []))
            ≡ done (record {
              pkt = first_leg.pkt;
              restartme = false;
              buffer = (receive first_leg worker).buffer;
              rest = rest;
            })))
unfolding header_bytes ulong_bytes
read_leg-receive_example =
    read_leg-receive pipe first_leg worker (frames (last_leg ∷ [])) (header_bytes last_leg.pkt)
      (take header_size (frames (first_leg ∷ last_leg ∷ []))) (frames (first_leg ∷ last_leg ∷ []))
      (drop header_size (frames (first_leg ∷ last_leg ∷ []))) first_leg-IsSound refl refl refl

-- The connection is at its end, and the header holds a leg with a payload.
read_leg_closed_example :
    ((0 < first_leg.pkt.size)
      × ((ReadFails pipe []
            × (read_leg pipe (header_bytes first_leg.pkt) worker.buffer [] ≡ exit 4))
          ⊎ ((b rest : List ℕ) × (read_leg pipe (header_bytes first_leg.pkt) worker.buffer []
                ≡ done
                    (record { pkt = first_leg.pkt; restartme = true; buffer = b; rest = rest })))))
    ⊎ ((first_leg.pkt.size ≡ 0)
        × (read_leg pipe (header_bytes first_leg.pkt) worker.buffer []
            ≡ done (record {
              pkt = first_leg.pkt;
              restartme = false;
              buffer = worker.buffer;
              rest = [];
            })))
unfolding header_bytes ulong_bytes load_header load_ulong
read_leg_closed_example =
    read_leg_closed pipe (header_bytes first_leg.pkt) worker.buffer [] [] first_leg.pkt refl refl
      (omega arith)

abbrev turn : Rxworker
turn = record { pc = sequenced first_leg; buffer = 7 ∷ 8 ∷ 1 ∷ [] }

abbrev shared : Rxconf
shared = record { next_leg = 0; done_mbox = false; grx_saved_checksum = 255; output = 5 ∷ [] }

deliver-RxMoves_example :
    ((◌≡◌ {A = ℕ} 2 2)
      × Delivers tray 118 shared turn [] first_leg
          (5 ∷ 7 ∷ 8 ∷ [])
          (deliver tray 118 (5 ∷ []) first_leg.pkt turn.buffer shared))
    ⊎ ((◌≢◌ {A = ℕ} 2 2) × (deliver tray 118 (5 ∷ []) first_leg.pkt turn.buffer shared ≡ abort))
deliver-RxMoves_example =
    deliver-RxMoves tray 118 2 (5 ∷ []) (5 ∷ 7 ∷ 8 ∷ []) shared turn [] first_leg refl refl refl
      refl refl
