-- ===== src/Rx/Payload/Reading.antt =====
-- What the payload loop of `rxworker` leaves in the buffer.
use viamillipede.Prelude.{
  ℕ, zero, suc, ◌+◌, ◌-◌, ◌≤◌, ◌<◌, ◌≡◌, refl, sym, subst, ◌∙◌, ap, min, true, false, List, [], ◌∷◌,
  ◌++◌, append-nil, length, length-append, drop, overwrite, overwrite-append, ap₂, ◌⊎◌, inl, inr,
  le→ltb, ne→==, arith,
}
use viamillipede.Prelude.Run.{Run, done, exit}
use viamillipede.Wire.{kfootsize, maxbsize, Leg}
use viamillipede.Plumbing.Source.{Reply, got, failed, Source, ReadsTo, no_read, ReadFails}
use viamillipede.Plumbing.Bufferfill.Filling.{IsPart, IsPart-next}
use viamillipede.Rx.Worker.{Rxworker, receive}
use viamillipede.Rx.Payload.{Received, take_payload, payload_loop, read_payload}

module _ (src : Source) where
  open src use {State, read, pending, read-le, read-pending, read-eof, read-errno}

  -- How the loop ends for a payload of `size` bytes, with the connection at `s` and the buffer `base`
  -- before it.
  pub data Reads (s : State) (size : ℕ) (base : List ℕ) : Run (Received src) → Type 0 where
    whole :
        (bs buffer : List ℕ) (rest : State)
        → length bs ≡ size
        → pending s ≡ bs ++ pending rest
        → buffer ≡ bs ++ drop size base
        → ReadsTo src s rest
        → Reads s size base (done (record { restartme = false; buffer = buffer; rest = rest }))
    cut_off :
        (bs buffer : List ℕ) (rest : State)
        → length bs < size
        → pending s ≡ bs
        → pending rest ≡ []
        → Reads s size base (done (record { restartme = true; buffer = buffer; rest = rest }))
    read_error : ReadFails src s → Reads s size base (exit 4)

  payload_loop-Reads :
      (fuel : ℕ) (s₀ s : State) (size remainder cursor : ℕ) (base bs buffer : List ℕ)
      → IsPart src s₀ size base bs buffer remainder s
      → cursor ≡ length bs
      → size ≤ kfootsize
      → remainder < fuel
      → Reads s₀ size base (payload_loop src fuel buffer cursor remainder s)
  unfolding payload_loop
  payload_loop-Reads zero s₀ s size remainder cursor base bs buffer p ec fits enough =
      absurd (omega arith)
  payload_loop-Reads (suc fuel) s₀ s size zero cursor base bs buffer p ec fits enough =
      whole bs buffer s (omega (arith, p.split)) p.kept
        (subst (λ n. buffer ≡ bs ++ drop n base) (omega (arith, p.split)) p.shape) p.reached
  payload_loop-Reads (suc fuel) s₀ s size (suc remainder) cursor base bs buffer p ec fits enough =
      rw (ne→== (suc remainder) 0 (λ e. omega arith)) (
        go (read s (min (suc remainder) maxbsize)) refl (λ new s' q.
          payload_loop-Reads fuel s₀ s' size (suc remainder - length new) (cursor + length new) base
            (bs ++ new) (overwrite buffer cursor new) q))
    where
      go :
          (reply : Reply × State)
          → read s (min (suc remainder) maxbsize) ≡ reply
          → ((new : List ℕ) (s' : State)
              → IsPart src s₀ size base
                  (bs ++ new)
                  (overwrite buffer cursor new)
                  (suc remainder - length new)
                  s'
              → cursor + length new ≡ length (bs ++ new)
              → size ≤ kfootsize
              → suc remainder - length new < fuel
              → Reads s₀ size base (
                  payload_loop src fuel
                    (overwrite buffer cursor new)
                    (cursor + length new)
                    (suc remainder - length new)
                    s'))
          → Reads s₀ size base
              (take_payload src (payload_loop src fuel) buffer cursor (suc remainder) reply)
      go (failed e, s') r again =
          rw (ne→== e 0 (λ z. absurd (omega (arith, read-errno s s' _ e r)))) (
            read_error (record {
              before = s;
              after = s';
              size = min (suc remainder) maxbsize;
              error = e;
              reached = p.reached;
              fails = r;
            }))
      go (got [], s') r again =
          let over = read-eof s s' (min (suc remainder) maxbsize) (omega arith) r in
          rw
            (
              le→ltb kfootsize (cursor + 0) (omega (arith, p.split)),
              le→ltb (suc remainder) 0 (omega arith),
            )
            (cut_off bs _ s' (omega (arith, p.split))
              (p.kept ∙ ap (λ l. bs ++ l) over ∙ append-nil bs)
              (sym (read-pending s s' _ [] r) ∙ over))
      go (got (x ∷ new), s') r again =
          let le : length (x ∷ new) ≤ suc remainder = omega (arith, read-le s s' _ (x ∷ new) r) in
          rw
            (
              le→ltb kfootsize (cursor + length (x ∷ new)) (omega (arith, p.split)),
              le→ltb (suc remainder) (length (x ∷ new)) le,
              le→ltb (suc (length new)) 1 (omega arith),
            )
            (again (x ∷ new) s' (IsPart-next src (x ∷ new) cursor p ec r le)
              (omega (arith, length-append bs (x ∷ new))) fits (omega arith))

  -- For a payload of at most `kfootsize` bytes the loop comes to an end: the payload is at the front of the
  -- buffer, it is the next bytes of the connection, and the buffer behind it is as before; or the
  -- connection was at its end before, and the worker starts again; or a read fails and the process ends.
  pub read_payload-Reads :
      (base : List ℕ) (size : ℕ) (s : State)
      → size ≤ kfootsize
      → Reads s size base (read_payload src base size s)
  unfolding read_payload
  read_payload-Reads base size s fits = rw (le→ltb kfootsize size fits) (
      payload_loop-Reads (size + 1) s s size size 0 base [] base
        (record { split = omega arith; kept = refl; shape = refl; reached = no_read }) refl fits
        (omega arith))

pub split_lem :
    (p bs more rest : List ℕ)
    → p ++ more ≡ bs ++ rest
    → length bs ≡ length p
    → (bs ≡ p) × (rest ≡ more)
split_lem [] [] more rest e len = (refl, sym e)
split_lem [] (x ∷ bs) more rest e len = absurd (omega arith)
split_lem (y ∷ p) [] more rest e len = absurd (omega arith)
split_lem (y ∷ p) (x ∷ bs) more rest e len = ground (arith, split_lem p bs more rest)

module _ (src : Source) where
  open src use {State, pending}

  -- Over a connection that holds the payload `l.payload` of a header with its size and `more` behind
  -- it, the payload loop does what `receive` says of the whole leg: it leaves the buffer of
  -- `receive l w`, and `more` is what is still to be read; or a read fails and the process ends.
  pub read_payload-receive :
      (l : Leg) (w : Rxworker) (s : State) (more : List ℕ)
      → l.pkt.size ≤ kfootsize
      → length l.payload ≡ l.pkt.size
      → pending s ≡ l.payload ++ more
      → (ReadFails src s × (read_payload src w.buffer l.pkt.size s ≡ exit 4))
        ⊎ ((rest : State) × ReadsTo src s rest
            × (pending rest ≡ more)
            × (read_payload src w.buffer l.pkt.size s
                ≡ done (record { restartme = false; buffer = (receive l w).buffer; rest = rest })))
  unfolding receive
  read_payload-receive l w s more fits len holds =
      go (read_payload src w.buffer l.pkt.size s) refl
        (read_payload-Reads src w.buffer l.pkt.size s fits)
    where
      go :
          (out : Run (Received src))
          → read_payload src w.buffer l.pkt.size s ≡ out
          → Reads src s l.pkt.size w.buffer out
          → (ReadFails src s × (out ≡ exit 4))
            ⊎ ((rest : State) × ReadsTo src s rest
                × (pending rest ≡ more)
                × (out
                    ≡ done
                        (record { restartme = false; buffer = (receive l w).buffer; rest = rest })))
      go out e (whole bs buffer rest n took shape reached) =
          let (same, left) =
            split_lem l.payload bs more (pending rest) (sym holds ∙ took) (omega arith) in
          inr (
            rest,
            reached,
            left,
            ap (λ b. done (record { restartme = false; buffer = b; rest = rest }))
                (shape
                  ∙ ap₂ (λ b n. b ++ drop n w.buffer) same (sym len)
                  ∙ sym (overwrite-append [] l.payload w.buffer)),
          )
      go out e (cut_off bs buffer rest few took over) =
          absurd (omega (arith, length-append l.payload more, ap length (sym holds ∙ took)))
      go out e (read_error f) = inl (f, refl)
