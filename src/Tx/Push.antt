-- ===== src/Tx/Push.antt =====
-- `txpush` (tx.c): a leg is written to the connection of its worker. What `writev` sends is the memory
-- of the header and the front of the buffer.
use viamillipede.Prelude.{
  ℕ, ◌+◌, ◌*◌, ◌≤◌, ◌≡◌, ◌⊎◌, inl, inr, refl, sym, ap, ap₂, ◌∙◌, Bool, List, [], ◌∷◌, ◌++◌,
  append-nil, append_assoc, length, length-append, length-take, take-length-append, take, ltb, ◌==◌,
  le→ltb, ne→==, ==_refl, if◌then◌else◌, arith, ℕ_discrete,
}
use viamillipede.Prelude.Run.{Run, done, exit, abort, ◌>>=◌}
use viamillipede.Wire.{kfootsize, Leg, leg_of}
use viamillipede.Wire.Frame.{
  ulong_bytes, header_size, header_bytes, frames, length-header_bytes, frames-append,
}
use viamillipede.Plumbing.Sink.{Written, wrote, refused, gathered, Sink}
use viamillipede.Prbs.Legs.{fill_prbs}
use viamillipede.Tx.Worker.{Txworker, begin_push, write_leg, release}

-- `(unsigned long *)txworker->buffer`, and back
unfoldable pub ulongs : List ℕ → List ℕ
ulongs (a ∷ b ∷ c ∷ d ∷ e ∷ f ∷ g ∷ h ∷ rest) =
    (a
      + 0x100
        * (b + 0x100 * (c + 0x100 * (d + 0x100 * (e + 0x100 * (f + 0x100 * (g + 0x100 * h)))))))
    ∷ ulongs rest
ulongs _ = []

unfoldable pub bytes_of : List ℕ → List ℕ
bytes_of [] = []
bytes_of (w ∷ ws) = ulong_bytes w ++ bytes_of ws

-- The buffer that is sent: in the pseudorandom mode it is filled first.
unfoldable pub fill_buffer : ℕ → ℕ → List ℕ → Run (List ℕ)
fill_buffer gprbs_seed leg_id buffer =
    if ltb 0 gprbs_seed
    then (fill_prbs gprbs_seed leg_id (ulongs buffer) >>= λ payload. done (bytes_of payload))
    else done buffer

take_all : (l : List ℕ) → take (length l) l ≡ l
take_all l = ap (take (length l)) (sym (append-nil l)) ∙ take-length-append l []

module _ (sink : Sink) where
  open sink use {State, writev, sent, writev-le, writev-sent, writev-errno}

  -- Behind `writev`: `checkperror` leaves the process where `errno` is set; anything but the whole leg
  -- fails the assertion. `retcode` is 1, and stays so.
  unfoldable pub settle_push : Bool → Txworker → Written × State → Run (ℕ × Txworker × State)
  settle_push again w (refused errno, s) = if errno == 0 then abort else exit 4
  settle_push again w (wrote writeret, s) =
      if writeret == w.pkt.size + header_size then done (1, release again w, s) else abort

  -- The value returned, the worker and the connection. `again` is whether the loop around it is at its
  -- end. `writeremainder` is the size, which is at most that of a leg.
  unfoldable pub txpush : ℕ → Bool → State → Txworker → Run (ℕ × Txworker × State)
  unfolding settle_push
  txpush gprbs_seed again s w =
      let run = fill_buffer gprbs_seed w.pkt.leg_id w.buffer >>= λ buffer.
      let filled = record (begin_push again w) { buffer = buffer } in
      settle_push again (write_leg again filled)
        (writev s (header_bytes w.pkt ∷ take w.pkt.size buffer ∷ [])) in
      if ltb kfootsize w.pkt.size then abort else run

  -- `txpush` returns only 1, and only behind a `writev` that took the whole leg: over a connection that
  -- the legs `ls` were sent on, the legs `ls` and the worker's leg have been sent then, and the worker is
  -- released; or a failed `writev` ends the process with status 4, or a short one fails the assertion.
  -- The buffer `buffer` of the leg is the worker's, or in the pseudorandom mode the filled one.
  pub txpush-frames :
      (gprbs_seed : ℕ) (again : Bool) (s : State) (w : Txworker) (buffer : List ℕ) (ls : List Leg)
      → w.pkt.size ≤ kfootsize
      → w.pkt.size ≤ length buffer
      → fill_buffer gprbs_seed w.pkt.leg_id w.buffer ≡ done buffer
      → sent s ≡ frames ls
      → (txpush gprbs_seed again s w ≡ exit 4)
        ⊎ (txpush gprbs_seed again s w ≡ abort)
        ⊎ ((s' : State) × (sent s' ≡ frames (ls ++ (leg_of w.pkt buffer ∷ [])))
            × (txpush gprbs_seed again s w
                ≡ done (
                  1,
                  release again (write_leg again (record (begin_push again w) { buffer = buffer })),
                  s',
                )))
  unfolding txpush begin_push write_leg
  txpush-frames gprbs_seed again s w buffer ls fits long filled before =
      rw (le→ltb kfootsize w.pkt.size fits, filled) (go (writev s vectors) refl)
    where
      vectors : List (List ℕ)
      vectors = header_bytes w.pkt ∷ take w.pkt.size buffer ∷ []

      pushed : Txworker
      pushed = write_leg again (record (begin_push again w) { buffer = buffer })

      all : length (gathered vectors) ≡ w.pkt.size + header_size
      all = omega (
        arith,
        length-append (header_bytes w.pkt) (take w.pkt.size buffer ++ []),
        length-header_bytes w.pkt,
        length-append (take w.pkt.size buffer) [],
        length-take w.pkt.size buffer,
      )

      one_more : frames (ls ++ (leg_of w.pkt buffer ∷ [])) ≡ frames ls ++ gathered vectors
      one_more =
          frames-append ls (leg_of w.pkt buffer ∷ [])
          ∙ ap (λ (l : List ℕ). frames ls ++ l)
              (append_assoc (header_bytes w.pkt) (take w.pkt.size buffer) [])

      go :
          (r : Written × State)
          → writev s vectors ≡ r
          → (settle_push again pushed r ≡ exit 4)
            ⊎ (settle_push again pushed r ≡ abort)
            ⊎ ((s' : State) × (sent s' ≡ frames (ls ++ (leg_of w.pkt buffer ∷ [])))
                × (settle_push again pushed r ≡ done (1, release again pushed, s')))
      go (refused errno, s') e =
          inl (
            rw (ne→== errno 0 (λ z. absurd (omega (arith, writev-errno s s' vectors errno e))))
              refl)
      go (wrote n, s') e = elim (ℕ_discrete n (w.pkt.size + header_size)) [
        | no short ↦ inr (inl (rw (ne→== n (w.pkt.size + header_size) short) refl))
        | yes whole ↦ inr (
            inr (
              s',
              writev-sent s s' vectors n e
                  ∙ ap₂ (λ (a : List ℕ) (k : ℕ). a ++ take k (gathered vectors)) before
                      (whole ∙ sym all)
                  ∙ ap (λ (l : List ℕ). frames ls ++ l) (take_all (gathered vectors))
                  ∙ sym one_more,
              rw (whole, ==_refl (w.pkt.size + header_size)) refl,
            ))
      ]
