-- ===== src/Rx/Tests.antt =====
-- The payload loop of `rxworker` at concrete inputs.
mod Legs
mod Loops
use viamillipede.Prelude.{ℕ, ◌≡◌, ◌⊎◌, refl, false, true, List, [], ◌∷◌, overwrite, arith}
use viamillipede.Prelude.Run.{done, exit, abort}
use viamillipede.Wire.{Leg}
use viamillipede.Plumbing.Pipe.{pipe}
use viamillipede.Rx.Worker.{Rxworker, head, reading, receive, verify_checksum}
use viamillipede.Rx.Start.Short.{zeroed, short_first_leg}
use viamillipede.Tx.Ingest.{leg_checksum}
use viamillipede.Plumbing.Mix.{mix, mix_loop, load_ulong}
use viamillipede.Rx.Payload.{read_payload}
use viamillipede.Rx.Payload.Reading.{Reads, read_payload-Reads, read_payload-receive}

abbrev two_bytes : Leg
two_bytes = record {
  pkt = record { preamble = 0; leg_id = 3; size = 2; checksum = 0; opcode = 0 };
  payload = 7 ∷ 8 ∷ [];
}

abbrev worker : Rxworker
worker = record { pc = head; buffer = 1 ∷ 1 ∷ 1 ∷ [] }

-- A connection that ends inside a payload makes the worker start again.
read_payload_short :
    read_payload pipe (1 ∷ 1 ∷ 1 ∷ []) 2 (7 ∷ [])
    ≡ done (record { restartme = true; buffer = 7 ∷ 1 ∷ 1 ∷ []; rest = [] })
unfolding read_payload overwrite
read_payload_short = refl

-- "hi" as the first leg on its connection, with the check phrase "yoes".
short_first_leg_example :
    verify_checksum 255
      (record { preamble = 0; leg_id = 0; size = 2; checksum = 27239; opcode = 0xcafe })
      (receive
        (record {
          pkt = record { preamble = 0; leg_id = 0; size = 2; checksum = 27239; opcode = 0xcafe };
          payload = 104 ∷ 105 ∷ [];
        })
        (record {
          pc = reading;
          buffer = overwrite (zeroed []) 0 (121 ∷ 111 ∷ 101 ∷ 115 ∷ []);
        })).buffer
    ≡ abort
unfolding leg_checksum mix mix_loop load_ulong overwrite
short_first_leg_example =
    short_first_leg 255 27239 121 111 101 115
      (record { preamble = 0; leg_id = 0; size = 2; checksum = 27239; opcode = 0xcafe })
      (104 ∷ 105 ∷ []) [] [] (omega arith) (omega arith) (omega arith) (omega arith) (omega arith)
      (omega arith) refl refl (omega arith) refl
