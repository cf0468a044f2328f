-- ===== src/Rx/Tests/Loops.antt =====
-- The loops of `rxworker` over two connections.
use viamillipede.Prelude.{ℕ, ◌≡◌, ◌⊎◌, refl, false, true, List, [], ◌∷◌, ◌++◌, length, arith}
use viamillipede.Prelude.Run.{done}
use viamillipede.Wire.{Leg, end_of_millipede, feed_more, preamble_cannon_ul}
use viamillipede.Wire.Frame.{header_bytes, frame, frames, IsSound}
use viamillipede.Plumbing.Pipe.{pipe}
use viamillipede.Plumbing.Tray.{tray}
use viamillipede.Rx.Worker.{Rxconf}
use viamillipede.Rx.Loop.{Progress, over, rxworker}
use viamillipede.Rx.Loop.Turn.{payloads, IsRoomy}
use viamillipede.Rx.Mishap.{Mishap}
use viamillipede.Rx.Loop.Resume.{rxworker_resumes}

tray-IsRoomy : IsRoomy tray
tray-IsRoomy s vs = (_, refl)

abbrev leg_at : ℕ → List ℕ → ℕ → Leg
leg_at leg_id payload opcode = record {
  pkt = record {
    preamble = preamble_cannon_ul;
    leg_id = leg_id;
    size = length payload;
    checksum = 0;
    opcode = opcode;
  };
  payload = payload;
}

abbrev first : Leg
first = leg_at 0 (7 ∷ 8 ∷ []) feed_more

abbrev second : Leg
second = leg_at 1 (9 ∷ 10 ∷ 11 ∷ []) feed_more

abbrev final : Leg
final = leg_at 2 [] end_of_millipede

first-IsSound : IsSound first
first-IsSound = record {
  header = record {
    preamble = omega arith;
    leg_id = omega arith;
    size = omega arith;
    checksum = omega arith;
    opcode = omega arith;
  };
  fits = omega arith;
  whole = refl;
}

second-IsSound : IsSound second
second-IsSound = record {
  header = record {
    preamble = omega arith;
    leg_id = omega arith;
    size = omega arith;
    checksum = omega arith;
    opcode = omega arith;
  };
  fits = omega arith;
  whole = refl;
}

final-IsSound : IsSound final
final-IsSound = record {
  header = record {
    preamble = omega arith;
    leg_id = omega arith;
    size = omega arith;
    checksum = omega arith;
    opcode = omega arith;
  };
  fits = omega arith;
  whole = refl;
}

-- The second leg is lost behind its first byte, and comes again.
abbrev lost : List ℕ
lost = frames (first ∷ []) ++ (header_bytes second.pkt ++ (9 ∷ []))

abbrev found : List ℕ
found = frames (second ∷ []) ++ (frame final ++ [])

abbrev fresh : Rxconf
fresh = record { next_leg = 0; done_mbox = false; grx_saved_checksum = 255; output = [] }

rxworker_resumes_example :
    (Mishap pipe lost
        (rxworker pipe tray 118 (λ k. []) 3 (121 ∷ []) (lost ∷ found ∷ []) [] fresh [])
      ⊎ Mishap pipe found
          (rxworker pipe tray 118 (λ k. []) 3 (121 ∷ []) (lost ∷ found ∷ []) [] fresh []))
    ⊎ ((p : Progress pipe tray) × (rxworker pipe tray 118
            (λ k. [])
            3
            (121 ∷ [])
            (lost ∷ found ∷ [])
            []
            fresh
            []
          ≡ done p)
        × (p.end ≡ over)
        × (p.conf.done_mbox ≡ true)
        × (p.out ≡ [] ++ (payloads (first ∷ []) ++ (payloads (second ∷ []) ++ []))))
rxworker_resumes_example =
    rxworker_resumes pipe tray tray-IsRoomy 118 (λ k. []) (first ∷ []) (second ∷ []) second final
      (9 ∷ []) [] [] (121 ∷ []) 3 lost found [] fresh []
      (record { sound = first-IsSound; unsummed = refl; more = refl; id = refl }, tt)
      (record { sound = second-IsSound; unsummed = refl; more = refl; id = refl }, tt)
      second-IsSound (omega arith) final-IsSound refl refl (omega arith) refl refl refl
      (omega arith) (omega arith)
