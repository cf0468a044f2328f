-- ===== src/Rx/Loop.antt =====
-- The two loops of `rxworker` (rx.c), for a worker that has the receiver to itself: one connection after
-- the other is accepted, and the legs on it are put out in turn. `stack` is what the header holds before
-- a round, and `checkphrase` what the read of the check phrase leaves in the buffer; the exchange
-- itself is in Rx/Start. The check of a pseudorandom payload is in Prbs/Legs.
pub mod Turn
pub mod Rounds
pub mod Resume
use viamillipede.Prelude.{
  ℕ, zero, suc, Bool, true, false, List, [], ◌∷◌, overwrite, ◌==◌, if◌then◌else◌,
}
use viamillipede.Prelude.Run.{Run, done, spent, ◌>>=◌}
use viamillipede.Plumbing.Source.{Source}
use viamillipede.Plumbing.Sink.{Sink}
use viamillipede.Rx.Worker.{Rxconf}
use viamillipede.Rx.Frame.{Taken, read_leg}
use viamillipede.Rx.Deliver.{deliver}

-- Why a loop is left: `done_mbox` is set; `restartme` is set; the worker waits for its turn, which
-- nobody else can bring; or it waits for a connection.
pub data Ending : Type 0 where
  over restarting waiting accepting : Ending

abbrev pub is_restart : Ending → Bool
is_restart restarting = true
is_restart _ = false

module _ (src : Source) (sink : Sink) where
  pub record Progress : Type 0 where
    pub end : Ending
    pub conf : Rxconf
    pub out : sink.State
    pub buffer : List ℕ

  -- Behind the payload loop, with the rounds that follow.
  unfoldable pub take_turn :
      (List ℕ → src.State → Rxconf → sink.State → Run Progress)
      → ℕ
      → Rxconf
      → sink.State
      → Taken src
      → Run Progress
  take_turn again ebadrpc c out t =
      let turn = deliver sink ebadrpc out t.pkt t.buffer c >>= λ r. again t.buffer t.rest r.0 r.1 in
      if t.restartme
      then done (record { end = restarting; conf = c; out = out; buffer = t.buffer })
      else if t.pkt.leg_id == c.next_leg
      then turn
      else done (record { end = waiting; conf = c; out = out; buffer = t.buffer })

  module _ (ebadrpc : ℕ) (stack : ℕ → List ℕ) where
    -- `while (!done_mbox && (!restartme))`
    unfoldable pub inner_loop : ℕ → List ℕ → src.State → Rxconf → sink.State → Run Progress
    unfolding take_turn
    inner_loop zero buffer s c out = spent
    inner_loop (suc fuel) buffer s c out =
        let round =
          read_leg src (stack fuel) buffer s >>= take_turn (inner_loop fuel) ebadrpc c out in
        if c.done_mbox
        then done (record { end = over; conf = c; out = out; buffer = buffer })
        else round

    -- Behind the inner loop.
    unfoldable pub after_inner :
        (List ℕ → Rxconf → sink.State → Run Progress) → Progress → Run Progress
    after_inner again p =
        let next = again p.buffer p.conf p.out in if is_restart p.end then next else done p

    -- `while (!done_mbox)`, with the connections that are accepted one after the other.
    unfoldable pub rxworker :
        ℕ → List ℕ → List src.State → List ℕ → Rxconf → sink.State → Run Progress
    unfolding inner_loop after_inner
    rxworker fuel checkphrase [] buffer c out =
        if c.done_mbox
        then done (record { end = over; conf = c; out = out; buffer = buffer })
        else done (record { end = accepting; conf = c; out = out; buffer = buffer })
    rxworker fuel checkphrase (s ∷ ss) buffer c out =
        let run =
          inner_loop fuel (overwrite buffer 0 checkphrase) s c out
          >>= after_inner (rxworker fuel checkphrase ss) in
        if c.done_mbox
        then done (record { end = over; conf = c; out = out; buffer = buffer })
        else run
