-- ===== src/Transfer.antt =====
-- A stream over one connection, end to end and down to the bytes: `txingest` with one worker (tx.c), the
-- connection, and `rxworker` (rx.c). The connection is a parameter: `wire bytes` is a descriptor that
-- `bytes` will be read from.
mod Tests
use viamillipede.Prelude.{
  ℕ, ◌+◌, ◌^◌, ◌≤◌, ◌<◌, ◌≡◌, ◌⊎◌, inl, inr, refl, sym, ap, subst, ◌∙◌, Bool, true, false, List, [],
  ◌∷◌, ◌++◌, append-nil, length, overwrite, arith,
}
use viamillipede.Prelude.Run.{Run, done, exit, ◌>>=◌}
use viamillipede.Wire.{Leg}
use viamillipede.Wire.Frame.{IsHeader, frame, frames, frames-append}
use viamillipede.Plumbing.Source.{Source, no_read, ReadFails}
use viamillipede.Plumbing.Sink.{Sink}
use viamillipede.Tx.Worker.{Txworker}
use viamillipede.Tx.Ingest.{Config}
use viamillipede.Tx.Stream.{ingest_stream, IsWhole, ingest_stream-IsWhole}
use viamillipede.Rx.Worker.{Rxconf}
use viamillipede.Rx.Loop.{Ending, over, Progress, inner_loop, rxworker}
use viamillipede.Rx.Loop.Turn.{payloads, AreNext, IsRoomy}
use viamillipede.Rx.Mishap.{Mishap, Mishap-later}
use viamillipede.Rx.Loop.Resume.{rest_lem, ended_lem, over_lem}

module _ (src : Source) (cfg : Config) (net : Source) (wire : List ℕ → net.State) (sink : Sink)
    (ebadrpc : ℕ) (stack : ℕ → List ℕ) (checkphrase : List ℕ) where
  -- `txingest` starts with the leg 0 and the checksum 0xff.
  unfoldable pub transfer :
      ℕ → ℕ → Txworker → src.State → List ℕ → Rxconf → sink.State → Run (Progress net sink)
  transfer tx_fuel rx_fuel w input buffer c out =
      ingest_stream src cfg tx_fuel 0 0xff w input >>= λ legs.
      rxworker net sink ebadrpc stack rx_fuel checkphrase (wire (frames legs) ∷ []) buffer c out

  -- With no checksums and no leg limit, over a connection that delivers what is sent, to an output that
  -- takes every write: for an input of fewer than 2 ^ 64 - 1 bytes, the transfer ends with `done_mbox`
  -- set and exactly the input put out. Or a read of the input fails, or one of the connection with the
  -- legs on it, and a process ends with status 4; or a read of a header fails or gives less than a
  -- header, for which nothing is stated.
  pub transfer_whole :
      cfg.gchecksums ≡ false
      → cfg.gleg_limit ≡ 0
      → IsRoomy sink
      → ((bytes : List ℕ) → net.pending (wire bytes) ≡ bytes)
      → (tx_fuel rx_fuel : ℕ) (w : Txworker) (input : src.State) (buffer : List ℕ) (c : Rxconf)
        (out : sink.State)
      → length (src.pending input) < tx_fuel
      → length (src.pending input) + 2 ≤ rx_fuel
      → length (src.pending input) + 1 < 2 ^ 64
      → IsHeader w.pkt
      → c.next_leg ≡ 0
      → c.done_mbox ≡ false
      → ((ReadFails src input × (transfer tx_fuel rx_fuel w input buffer c out ≡ exit 4))
          ⊎ ((legs : List Leg) × (ingest_stream src cfg tx_fuel 0 0xff w input ≡ done legs)
              × Mishap net (wire (frames legs)) (transfer tx_fuel rx_fuel w input buffer c out)))
        ⊎ ((p : Progress net sink) × (transfer tx_fuel rx_fuel w input buffer c out ≡ done p)
            × (p.end ≡ over)
            × (p.conf.done_mbox ≡ true)
            × (sink.sent p.out ≡ sink.sent out ++ src.pending input))
  unfolding transfer
  transfer_whole plain no_limit roomy faithful tx_fuel rx_fuel w input buffer c out enough enough'
        fit ok zero_leg going =
      elim (ingest_stream-IsWhole src cfg plain no_limit tx_fuel 0 0xff w input enough (omega arith)
        ok) [
          | inl (f, ended) ↦ inl (inl (f, rw ended refl))
          | inr v ↦
              let s = wire (frames (v.legs ++ (v.last ∷ []))) in
              let holds : net.pending s ≡ frames v.legs ++ (frame v.last ++ []) =
                faithful (frames (v.legs ++ (v.last ∷ []))) ∙ frames-append v.legs (v.last ∷ []) in
              let begun =
                ap
                  (λ (r : Run (List Leg)). r >>= λ legs.
                    rxworker net sink ebadrpc stack rx_fuel checkphrase (wire (frames legs) ∷ [])
                      buffer c out)
                  v.made in
              elim (rest_lem net sink roomy ebadrpc stack v.legs v.last []
                (overwrite buffer 0 checkphrase) rx_fuel s c out (omega (arith, v.few))
                (subst (λ (k : ℕ). AreNext k v.legs) (sym zero_leg) v.next) v.sound v.ends
                (v.id ∙ ap (λ (k : ℕ). k + length v.legs) (sym zero_leg)) going
                (omega (arith, zero_leg, v.few)) holds) [
                  | inl wrong ↦ inl (
                      inr (
                        v.legs ++ (v.last ∷ []),
                        v.made,
                        Mishap-later net no_read
                            (λ ended.
                              begun
                              ∙ ended_lem net sink roomy ebadrpc stack checkphrase rx_fuel s []
                                  buffer c out going ended)
                            wrong,
                      ))
                  | inr (p, e, end, mbox, put) ↦ inr (
                    p,
                    begun
                        ∙ over_lem net sink roomy ebadrpc stack checkphrase rx_fuel s [] buffer c
                            out going p e end,
                    end,
                    mbox,
                    put
                        ∙ ap (λ (b : List ℕ). sink.sent out ++ (payloads v.legs ++ b)) v.empty
                        ∙ ap (λ (b : List ℕ). sink.sent out ++ b)
                            (append-nil (payloads v.legs) ∙ v.carried),
                  )
                ]
        ]
