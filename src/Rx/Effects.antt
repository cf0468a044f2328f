-- ===== src/Rx/Effects.antt =====
-- What a step of a worker of the receiver does to the legs in its hand and on its connection.
use viamillipede.Prelude.{ℕ, ◌+◌, ◌≡◌, refl, true, List, [], ◌++◌, u64, arith}
use viamillipede.Wire.{Leg, end_of_millipede}
use viamillipede.Rx.Worker.{
  RxPc, head, sequenced, written, checked, Rxworker, Rxconf, receive, held, RxMove, enter, leave,
  take_leg, pass_gate, put, verify, stop, advance,
}

-- Behind the wait a worker has the leg that the sequencer is at.
abbrev pub IsGated : ℕ → RxPc → Type 0
IsGated next_leg (sequenced l) = l.pkt.leg_id ≡ next_leg
IsGated next_leg (written l) = l.pkt.leg_id ≡ next_leg
IsGated next_leg (checked l) = l.pkt.leg_id ≡ next_leg
IsGated next_leg _ = Unit

-- What a worker has put out of the leg that the sequencer is at.
abbrev pub put_out : RxPc → List ℕ
put_out (written l) = l.payload
put_out (checked l) = l.payload
put_out _ = []

pub data Effect (c c' : Rxconf) (w w' : Rxworker) (wire rest : List Leg) : Type 0 where
  -- nothing is put out, and the sequencer stays
  kept :
      held w' ++ rest ≡ held w ++ wire
      → c'.next_leg ≡ c.next_leg
      → c'.output ≡ c.output
      → put_out w'.pc ≡ put_out w.pc
      → IsGated c.next_leg w'.pc
      → c'.done_mbox ≡ c.done_mbox
      → Effect c c' w w' wire rest
  gave :
      (l : Leg)
      → w.pc ≡ sequenced l
      → w'.pc ≡ written l
      → c' ≡ record c { output = c.output ++ l.payload }
      → rest ≡ wire
      → Effect c c' w w' wire rest
  stopped :
      (l : Leg)
      → w.pc ≡ written l
      → w'.pc ≡ checked l
      → c' ≡ record c { done_mbox = true }
      → rest ≡ wire
      → l.pkt.opcode ≡ end_of_millipede
      → Effect c c' w w' wire rest
  passed :
      (l : Leg)
      → w.pc ≡ checked l
      → w'.pc ≡ head
      → c' ≡ record c { next_leg = u64 (c.next_leg + 1) }
      → rest ≡ wire
      → Effect c c' w w' wire rest

pub RxMove-Effect :
    {c c' : Rxconf} {w w' : Rxworker} {wire rest : List Leg}
    → RxMove c w wire c' w' rest
    → IsGated c.next_leg w.pc
    → Effect c c' w w' wire rest
unfolding receive
RxMove-Effect (enter e m) g = kept (ground arith) refl refl (ground arith) tt refl
RxMove-Effect (leave e m) g = kept (ground arith) refl refl (ground arith) tt refl
RxMove-Effect (take_leg e q) g = kept (ground arith) refl refl (ground arith) tt refl
RxMove-Effect (pass_gate e q) g = kept (ground arith) refl refl (ground arith) q refl
RxMove-Effect (put {l} e) g = gave l e refl refl refl
RxMove-Effect (verify {l} e o v) g =
    kept (ground arith) refl refl (ground arith) (ground arith) refl
RxMove-Effect (stop {l} e o) g = stopped l e refl refl refl o
RxMove-Effect (advance {l} e) g = passed l e refl refl refl
