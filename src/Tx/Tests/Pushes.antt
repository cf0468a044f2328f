-- ===== src/Tx/Tests/Pushes.antt =====
-- `txpush` at a concrete leg.
use viamillipede.Prelude.{ℕ, ◌≡◌, ◌⊎◌, refl, true, List, [], ◌∷◌, ◌++◌, arith}
use viamillipede.Prelude.Run.{done, exit, abort}
use viamillipede.Wire.{leg_of, preamble_cannon_ul, feed_more}
use viamillipede.Wire.Frame.{frames, header_bytes, ulong_bytes}
use viamillipede.Plumbing.Tray.{tray}
use viamillipede.Tx.Worker.{Txworker, dispatched, seen, begin_push, write_leg, release}
use viamillipede.Tx.Push.{fill_buffer, txpush, txpush-frames}

abbrev loaded : Txworker
loaded = record {
  state = dispatched;
  pkt = record {
    preamble = preamble_cannon_ul;
    leg_id = 4;
    size = 2;
    checksum = 0;
    opcode = feed_more;
  };
  buffer = 7 ∷ 8 ∷ 1 ∷ [];
  pc = seen true dispatched;
}

txpush-frames_example :
    (txpush tray 0 true [] loaded ≡ exit 4)
    ⊎ (txpush tray 0 true [] loaded ≡ abort)
    ⊎ ((s' : List ℕ) × (s' ≡ frames ([] ++ (leg_of loaded.pkt loaded.buffer ∷ [])))
        × (txpush tray 0 true [] loaded
            ≡ done (
              1,
              release true
                  (write_leg true (record (begin_push true loaded) { buffer = loaded.buffer })),
              s',
            )))
unfolding fill_buffer
txpush-frames_example =
    txpush-frames tray 0 true [] loaded loaded.buffer [] (omega arith) (omega arith) refl refl

-- The memory of the header and the payload, in front of what `writev` returns.
txpush_bytes :
    txpush tray 0 true (9 ∷ []) loaded
    ≡ done (
      1,
      release true (write_leg true (begin_push true loaded)),
      9 ∷ 0x5a ∷ 0x5a ∷ 0x5a ∷ 0x5a ∷ 0xa5 ∷ 0xa5 ∷ 0xa5 ∷ 0xa5 ∷ 4 ∷ 0 ∷ 0 ∷ 0 ∷ 0 ∷ 0 ∷ 0 ∷ 0 ∷ 2
          ∷ 0 ∷ 0 ∷ 0 ∷ 0 ∷ 0 ∷ 0 ∷ 0 ∷ 0 ∷ 0 ∷ 0 ∷ 0 ∷ 0 ∷ 0 ∷ 0 ∷ 0 ∷ 0xfe ∷ 0xca ∷ 0 ∷ 0 ∷ 0 ∷ 0
          ∷ 0 ∷ 0 ∷ 7 ∷ 8 ∷ [],
    )
unfolding txpush fill_buffer begin_push write_leg header_bytes ulong_bytes
txpush_bytes = refl
