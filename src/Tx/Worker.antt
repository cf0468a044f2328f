-- ===== src/Tx/Worker.antt =====
-- `struct txworker_s` (cfg.h) and the steps that `txingest`, `txshutdown` and `txpush` (tx.c) take on
-- one worker. The mutexes, the name of the socket and `writeremainder` are left out: a worker is known
-- by its index, which also names its connection.
use viamillipede.Prelude.{ℕ, ◌≡◌, List, [], ◌∷◌, Bool, true, false}
use viamillipede.Wire.{Millipacket, Leg, leg_of, preamble_cannon_ul, feed_more, end_of_millipede}

-- The letters that `state` holds: 'E', '-', 'L', 'c', 'i', 'd', 'a', 'W', 'P', 'x' and 'f'.
pub data TxState : Type 0 where
  uninitialized unset launched connecting idle dispatched preamble waiting pushing dead faulted :
      TxState

-- Where the thread of the worker, `txworker_sm`, stands.
pub data TxPc : Type 0 where
  starting : TxPc  -- in `tx_start_net`
  clearing : TxPc  -- behind `tx_state_set(txworker, 'i')`, before the header is reset
  head : TxPc  -- at the head of the loop
  seen : (done : Bool) (local_state : TxState) → TxPc  -- before the `switch`
  in_push : (done : Bool) → TxPc  -- in `txpush`, before `writev`
  pushed : (done : Bool) → TxPc  -- in `txpush`, behind `writev`
  exited : TxPc

pub record Txworker : Type 0 where
  pub state : TxState
  pub pkt : Millipacket
  pub buffer : List ℕ
  pub pc : TxPc

-- The state, read under the lock of the worker.
abbrev pub tx_state : Txworker → TxState
tx_state w = w.state

abbrev pub start_worker : Txworker → Txworker
start_worker w = record w { state = dispatched }

-- What the `switch` of `txworker_sm` does in a state.
pub data Action : Type 0 where
  stay push recover bad_zoot : Action

unfoldable pub action : TxState → Action
action idle = stay
action dispatched = push
action dead = recover
action _ = bad_zoot

-- `while (!done)`
abbrev pub loop_again : Bool → TxPc
loop_again true = exited
loop_again false = head

-- `txworker_sm` behind `tx_start_net`: from here on the ingest thread may give the worker a leg.
unfoldable pub announce : Txworker → Txworker
announce w = record w { state = idle; pc = clearing }

-- The header is reset, with no lock held and whatever it holds by then.
unfoldable pub come_online : Txworker → Txworker
come_online w = record w {
  pkt = record w.pkt { size = 0; leg_id = 0; preamble = preamble_cannon_ul };
  pc = head;
}

-- `tx_start_net` when it gives up: the state is 'f' and the thread ends.
unfoldable pub give_up : Txworker → Txworker
give_up w = record w { state = faulted; pc = exited }

-- The locked part of the loop of `txworker_sm`: `done` and `state` are read together.
unfoldable pub look : Bool → Txworker → Txworker
look done w = record w { pc = seen done w.state }

-- `case 'i': break;`
unfoldable pub pass : Bool → Txworker → Txworker
pass done w = record w { pc = loop_again done }

-- `txpush` up to `writev`. ('a', then 'W' if there is a delay.)
unfoldable pub begin_push : Bool → Txworker → Txworker
begin_push done w = record w { state = preamble; pc = in_push done }

-- 'P', and `writev`, which sends the header and the payload
unfoldable pub write_leg : Bool → Txworker → Txworker
write_leg done w = record w { state = pushing; pc = pushed done }

-- The locked end of `txpush`, and the end of the round.
unfoldable pub release : Bool → Txworker → Txworker
release done w = record w { state = idle; pkt = record w.pkt { size = 0 }; pc = loop_again done }

-- `txingest`: the header of a leg of `size` bytes, and `start_worker`
unfoldable pub dispatch_leg : ℕ → ℕ → ℕ → List ℕ → Txworker → Txworker
dispatch_leg leg size checksum buffer w = start_worker (record w {
  buffer = buffer;
  pkt = record w.pkt { size = size; leg_id = leg; opcode = feed_more; checksum = checksum };
})

-- `txshutdown` behind its locked part: the last header, with no payload, and `start_worker`. The
-- checksum is the one of the worker's leg before.
unfoldable pub dispatch_end : ℕ → Txworker → Txworker
dispatch_end leg w =
    start_worker
      (record w { pkt = record w.pkt { size = 0; leg_id = leg; opcode = end_of_millipede } })

-- The leg that the worker still has to send.
abbrev pub unsent : Txworker → List Leg
unsent w = elim w.state [
  | dispatched ↦ leg_of w.pkt w.buffer ∷ []
  | preamble ↦ leg_of w.pkt w.buffer ∷ []
  | _ ↦ []
]

-- One step of the thread, with what it puts on its connection. `done` is that of the `txconf_s`.
-- `case 'x'` and the default of the `switch` have no step: no worker gets there.
pub data TxMove (done : Bool) (w : Txworker) : Txworker → List Leg → Type 0 where
  connect : w.pc ≡ starting → TxMove done w (announce w) []
  clear : w.pc ≡ clearing → TxMove done w (come_online w) []
  refuse : w.pc ≡ starting → TxMove done w (give_up w) []
  observe : w.pc ≡ head → TxMove done w (look done w) []
  idle_round :
      {d : Bool} {l : TxState} → w.pc ≡ seen d l → action l ≡ stay → TxMove done w (pass d w) []
  start_push :
      {d : Bool} {l : TxState}
      → w.pc ≡ seen d l
      → action l ≡ push
      → TxMove done w (begin_push d w) []
  send : {d : Bool} → w.pc ≡ in_push d → TxMove done w (write_leg d w) (leg_of w.pkt w.buffer ∷ [])
  finish_push : {d : Bool} → w.pc ≡ pushed d → TxMove done w (release d w) []
