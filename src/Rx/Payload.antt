-- ===== src/Rx/Payload.antt =====
-- The payload loop of `rxworker` (rx.c): the bytes of a leg, read from its connection behind the header.
pub mod Reading
use viamillipede.Prelude.{
  ℕ, zero, suc, ◌+◌, ◌-◌, min, Bool, true, false, List, length, overwrite, ltb, ◌==◌, if◌then◌else◌,
}
use viamillipede.Prelude.Run.{Run, done, exit, abort, spent}
use viamillipede.Wire.{kfootsize, maxbsize}
use viamillipede.Plumbing.Source.{Reply, got, failed, Source}

module _ (src : Source) where
  open src use {State, read}

  -- `restartme`, the buffer and the connection behind the loop.
  pub record Received : Type 0 where
    pub restartme : Bool
    pub buffer : List ℕ
    pub rest : State

  -- The body behind `read`: `checkperror` leaves the process where `errno` is set.
  unfoldable pub take_payload :
      (List ℕ → ℕ → ℕ → State → Run Received) → List ℕ → ℕ → ℕ → Reply × State → Run Received
  take_payload again buffer cursor remainder (failed errno, s) =
      if errno == 0 then done (record { restartme = true; buffer = buffer; rest = s }) else exit 4
  take_payload again buffer cursor remainder (got bs, s) =
      let readsize = length bs in
      let buffer' = overwrite buffer cursor bs in
      let more = again buffer' (cursor + readsize) (remainder - readsize) s in
      if ltb kfootsize (cursor + readsize)
      then abort
      else if ltb remainder readsize
      then abort
      else if ltb readsize 1
      then done (record { restartme = true; buffer = buffer'; rest = s })
      else more

  -- `while (remainder && (!restartme))`
  unfoldable pub payload_loop : ℕ → List ℕ → ℕ → ℕ → State → Run Received
  unfolding take_payload
  payload_loop zero buffer cursor remainder s = spent
  payload_loop (suc fuel) buffer cursor remainder s =
      let round =
        take_payload (payload_loop fuel) buffer cursor remainder
          (read s (min remainder maxbsize)) in
      if remainder == 0
      then done (record { restartme = false; buffer = buffer; rest = s })
      else round

  -- With the assertion on the size. Every round but the last reads a byte at least, so `size + 1`
  -- rounds are enough.
  unfoldable pub read_payload : List ℕ → ℕ → State → Run Received
  unfolding payload_loop
  read_payload buffer size s =
      let run = payload_loop (size + 1) buffer 0 size s in if ltb kfootsize size then abort else run
