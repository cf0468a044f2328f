-- ===== src/Rx/Worker.antt =====
-- `struct rxworker_s` (cfg.h), and what `rxworker` (rx.c) does with a leg that it has read.
use viamillipede.Prelude.{
  ℕ, ◌+◌, ◌≡◌, Bool, true, false, List, [], ◌∷◌, ◌++◌, ◌==◌, if◌then◌else◌, overwrite, u64,
}
use viamillipede.Prelude.Run.{Run, done, abort, ◌>>=◌}
use viamillipede.Wire.{Millipacket, Leg, feed_more, end_of_millipede}
use viamillipede.Plumbing.Mix.{mix}

-- Where the thread stands. The leg is what it has read: the header, and `size` bytes of the buffer.
pub data RxPc : Type 0 where
  head : RxPc  -- at the head of the inner loop
  reading : RxPc  -- in `readv`
  holding : Leg → RxPc  -- waits for its turn
  sequenced : Leg → RxPc  -- behind the wait
  written : Leg → RxPc  -- behind `writev`
  checked : Leg → RxPc  -- before `next_leg++`
  ended : RxPc

-- The shared part of `struct rxconf_s`, `grx_saved_checksum`, and what has been written to `output_fd`.
pub record Rxconf : Type 0 where
  pub next_leg : ℕ
  pub done_mbox : Bool
  pub grx_saved_checksum : ℕ
  pub output : List ℕ

pub record Rxworker : Type 0 where
  pub pc : RxPc
  pub buffer : List ℕ

-- The header and the payload loop of one leg; the bytes of the buffer behind the payload stay.
unfoldable pub receive : Leg → Rxworker → Rxworker
receive l w = record { pc = holding l; buffer = overwrite w.buffer 0 l.payload }

-- The checksum of a data leg, from `if (pkt.checksum)`: the value of `grx_saved_checksum` behind it.
unfoldable pub verify_checksum : ℕ → Millipacket → List ℕ → Run ℕ
verify_checksum saved pkt buffer =
    if pkt.checksum == 0
    then done saved
    else mix (u64 (saved + pkt.leg_id)) buffer pkt.size >>= λ rx_checksum.
        if rx_checksum == pkt.checksum then done rx_checksum else abort

-- The leg that the worker has in hand, until `next_leg` moves on.
abbrev pub held : Rxworker → List Leg
held w = elim w.pc [
  | head ↦ []
  | reading ↦ []
  | holding l ↦ l ∷ []
  | sequenced l ↦ l ∷ []
  | written l ↦ l ∷ []
  | checked l ↦ l ∷ []
  | ended ↦ []
]

-- One step of the thread, over what lies on its connection. A leg with another opcode, or with a wrong
-- checksum, ends the process and has no step.
pub data RxMove (c : Rxconf) (w : Rxworker) (wire : List Leg)
    : Rxconf → Rxworker → List Leg → Type 0 where
  enter : w.pc ≡ head → c.done_mbox ≡ false → RxMove c w wire c (record w { pc = reading }) wire
  leave : w.pc ≡ head → c.done_mbox ≡ true → RxMove c w wire c (record w { pc = ended }) wire
  take_leg :
      {l : Leg} {rest : List Leg}
      → w.pc ≡ reading
      → wire ≡ l ∷ rest
      → RxMove c w wire c (receive l w) rest
  pass_gate :
      {l : Leg}
      → w.pc ≡ holding l
      → l.pkt.leg_id ≡ c.next_leg
      → RxMove c w wire c (record w { pc = sequenced l }) wire
  put :
      {l : Leg}
      → w.pc ≡ sequenced l
      → RxMove c w wire
          (record c { output = c.output ++ l.payload })
          (record w { pc = written l })
          wire
  verify :
      {l : Leg} {saved : ℕ}
      → w.pc ≡ written l
      → l.pkt.opcode ≡ feed_more
      → verify_checksum c.grx_saved_checksum l.pkt w.buffer ≡ done saved
      → RxMove c w wire (record c { grx_saved_checksum = saved }) (record w { pc = checked l }) wire
  stop :
      {l : Leg}
      → w.pc ≡ written l
      → l.pkt.opcode ≡ end_of_millipede
      → RxMove c w wire (record c { done_mbox = true }) (record w { pc = checked l }) wire
  advance :
      {l : Leg}
      → w.pc ≡ checked l
      → RxMove c w wire (record c { next_leg = u64 (c.next_leg + 1) }) (record w { pc = head }) wire
