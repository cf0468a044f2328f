-- ===== src/Rx/Frame.antt =====
-- `rxworker` (rx.c) from the head of its inner loop to behind the payload loop: the header of a leg is
-- read into the `struct millipacket_s`, and then its payload. What that variable holds before is `old`.
use viamillipede.Prelude.{
  ℕ, ◌+◌, ◌≤◌, ◌<◌, ◌≡◌, ◌⊎◌, inl, inr, refl, sym, ap, ◌∙◌, Bool, true, false, List, [], ◌∷◌, ◌++◌,
  append_assoc, length, length-append, overwrite, drop, ltb, ◌==◌, le→ltb, if◌then◌else◌, arith,
  ℕ_discrete,
}
use viamillipede.Prelude.Run.{Run, done, exit, abort, ◌>>=◌}
use viamillipede.Wire.{kfootsize, Millipacket, Leg}
use viamillipede.Wire.Frame.{
  header_bytes, load_header, header_size, frame, IsHeader, IsSound, load_header-header_bytes,
  length-header_bytes,
}
use viamillipede.Plumbing.Source.{
  Reply, got, failed, Source, ReadsTo, no_read, one_more, ReadsTo-trans, ReadFails, ReadFails-later,
}
use viamillipede.Rx.Worker.{Rxworker, receive}
use viamillipede.Rx.Payload.{Received, read_payload, payload_loop}
use viamillipede.Rx.Payload.Reading.{
  read_payload-receive, read_payload-Reads, Reads, whole, cut_off, read_error, split_lem,
}

-- The memory of the header behind `readv`, and `errno`. A short read, which is only reported, leaves
-- the bytes behind it as they were.
unfoldable pub fill_header : List ℕ → Reply → List ℕ × ℕ
fill_header old (got bs) = (overwrite old 0 bs, 0)
fill_header old (failed errno) = (old, errno)

nil_of_append : (xs ys : List ℕ) → xs ++ ys ≡ [] → xs ≡ []
nil_of_append [] ys e = refl
nil_of_append (x ∷ xs) ys e = cc

module _ (src : Source) where
  open src use {State, read, pending, read-le, read-pending, read-eof, read-errno}

  -- The header, `restartme`, the buffer and the connection behind the payload loop.
  pub record Taken : Type 0 where
    pub pkt : Millipacket
    pub restartme : Bool
    pub buffer : List ℕ
    pub rest : State

  -- Behind the header: the assertion on the size, and the payload loop. The first `checkperror` leaves
  -- the process if `errno` is set. The preamble is looked at, but nothing depends on it: the assertion
  -- there is `assert(-1)`.
  unfoldable pub read_rest : List ℕ → ℕ → State → Millipacket → Run Taken
  read_rest buffer errno s pkt =
      let run = read_payload src buffer pkt.size s >>= λ r.
      done (record { pkt = pkt; restartme = r.restartme; buffer = r.buffer; rest = r.rest }) in
      if ltb kfootsize pkt.size then abort else if errno == 0 then run else exit 4

  unfoldable pub take_header : List ℕ → List ℕ → Reply × State → Run Taken
  unfolding fill_header read_rest
  take_header old buffer (reply, s) =
      let header = fill_header old reply in load_header header.0 >>= read_rest buffer header.1 s

  unfoldable pub read_leg : List ℕ → List ℕ → State → Run Taken
  unfolding take_header
  read_leg old buffer s = take_header old buffer (read s header_size)

  read_payload_empty :
      (buffer : List ℕ) (s : State)
      → read_payload src buffer 0 s ≡ done (record { restartme = false; buffer = buffer; rest = s })
  unfolding read_payload payload_loop
  read_payload_empty buffer s = refl

  -- Behind a header that is loaded.
  loaded_lem :
      (old buffer : List ℕ) (reply : Reply) (s s' : State) (pkt : Millipacket)
      → read s header_size ≡ (reply, s')
      → load_header (fill_header old reply).0 ≡ done pkt
      → read_leg old buffer s ≡ read_rest buffer (fill_header old reply).1 s' pkt
  unfolding read_leg
  loaded_lem old buffer reply s s' pkt r e = rw (r, take_header, e) refl

  -- Of a connection that begins with a header, the first read, which gives it whole, loads the header.
  header_lem :
      (pkt : Millipacket) (more old bs : List ℕ) (s s' : State)
      → IsHeader pkt
      → pending s ≡ header_bytes pkt ++ more
      → read s header_size ≡ (got bs, s')
      → length bs ≡ header_size
      → (load_header (fill_header old (got bs)).0 ≡ done pkt) × (pending s' ≡ more)
  unfolding fill_header overwrite
  header_lem pkt more old bs s s' ok holds r full =
      let (same, behind) =
        split_lem (header_bytes pkt) bs more (pending s')
          (sym holds ∙ read-pending s s' header_size bs r)
          (omega (arith, length-header_bytes pkt)) in
      (
        ap (λ b. load_header (b ++ drop (0 + length bs) old)) same
            ∙ load_header-header_bytes pkt (drop (0 + length bs) old) ok,
        behind,
      )

  -- Over a connection that holds a sound leg `l` and `more` behind it, and whose first read gives the
  -- header whole, a worker reads `l`: its header, whatever the preamble and the old header were, and the
  -- buffer of `receive l w`; the connection then holds `more`. Or a read of the payload fails and the
  -- process ends with status 4.
  pub read_leg-receive :
      (l : Leg) (w : Rxworker) (more old bs : List ℕ) (s s' : State)
      → IsSound l
      → pending s ≡ frame l ++ more
      → read s header_size ≡ (got bs, s')
      → length bs ≡ header_size
      → (ReadFails src s × (read_leg old w.buffer s ≡ exit 4))
        ⊎ ((rest : State) × ReadsTo src s rest
            × (pending rest ≡ more)
            × (read_leg old w.buffer s
                ≡ done (record {
                  pkt = l.pkt;
                  restartme = false;
                  buffer = (receive l w).buffer;
                  rest = rest;
                })))
  unfolding read_rest fill_header
  read_leg-receive l w more old bs s s' sound holds r full =
      let (header, behind) =
        header_lem l.pkt (l.payload ++ more) old bs s s' sound.header
          (holds ∙ append_assoc (header_bytes l.pkt) l.payload more) r full in
      let begun = loaded_lem old w.buffer (got bs) s s' l.pkt r header in
      let small : ltb kfootsize l.pkt.size ≡ false = le→ltb kfootsize l.pkt.size sound.fits in
      let first : ReadsTo src s s' = one_more header_size bs no_read r in
      elim (read_payload-receive src l w s' more sound.fits sound.whole behind) [
        | inl (f, failed_read) ↦
            inl (ReadFails-later src first f, begun ∙ rw (small, failed_read) refl)
        | inr (rest, reached, left, e) ↦
            inr (rest, ReadsTo-trans src first reached, left, begun ∙ rw (small, e) refl)
      ]

  -- A connection that ends inside the payload of a leg makes the worker start again, or a read of
  -- the payload fails and the process ends with status 4.
  pub read_leg_cut :
      (pkt : Millipacket) (part old bs buffer : List ℕ) (s s' : State)
      → IsHeader pkt
      → pkt.size ≤ kfootsize
      → length part < pkt.size
      → pending s ≡ header_bytes pkt ++ part
      → read s header_size ≡ (got bs, s')
      → length bs ≡ header_size
      → (ReadFails src s × (read_leg old buffer s ≡ exit 4))
        ⊎ ((b : List ℕ) × (rest : State) × (read_leg old buffer s
              ≡ done (record { pkt = pkt; restartme = true; buffer = b; rest = rest })))
  unfolding read_rest fill_header
  read_leg_cut pkt part old bs buffer s s' ok fits few holds r full =
      go (read_payload src buffer pkt.size s') refl (read_payload-Reads src buffer pkt.size s' fits)
    where
      begun : read_leg old buffer s ≡ read_rest buffer 0 s' pkt
      begun =
          loaded_lem old buffer (got bs) s s' pkt r
            (header_lem pkt part old bs s s' ok holds r full).0

      left : pending s' ≡ part
      left = (header_lem pkt part old bs s s' ok holds r full).1

      small : ltb kfootsize pkt.size ≡ false
      small = le→ltb kfootsize pkt.size fits

      go :
          (out : Run (Received src))
          → read_payload src buffer pkt.size s' ≡ out
          → Reads src s' pkt.size buffer out
          → (ReadFails src s × (read_leg old buffer s ≡ exit 4))
            ⊎ ((b : List ℕ) × (rest : State) × (read_leg old buffer s
                  ≡ done (record { pkt = pkt; restartme = true; buffer = b; rest = rest })))
      go out q (whole got_bytes b rest n took shape reached) =
          absurd
            (omega (arith, ap length (sym left ∙ took), length-append got_bytes (pending rest)))
      go out q (cut_off got_bytes b rest n took ended) = inr (b, rest, begun ∙ rw (small, q) refl)
      go out q (read_error f) =
          inl
            (ReadFails-later src (one_more header_size bs no_read r) f, begun ∙ rw (small, q) refl)

  -- At the end of the connection the header keeps what it held before, and the worker takes that for
  -- a leg: if that leg has a payload, `restartme` is set, or a read of it fails and the process ends; if it has
  -- none, the worker goes on as if the leg had just come, with the buffer as it was.
  pub read_leg_closed :
      (old buffer : List ℕ) (s s' : State) (pkt : Millipacket)
      → read s header_size ≡ (got [], s')
      → load_header old ≡ done pkt
      → pkt.size ≤ kfootsize
      → ((0 < pkt.size)
          × ((ReadFails src s × (read_leg old buffer s ≡ exit 4))
              ⊎ ((b : List ℕ) × (rest : State) × (read_leg old buffer s
                    ≡ done (record { pkt = pkt; restartme = true; buffer = b; rest = rest })))))
        ⊎ ((pkt.size ≡ 0)
            × (read_leg old buffer s
                ≡ done (record { pkt = pkt; restartme = false; buffer = buffer; rest = s' })))
  unfolding read_rest fill_header overwrite
  read_leg_closed old buffer s s' pkt r e fits = elim (ℕ_discrete pkt.size 0) [
    | yes empty ↦ inr (empty, begun ∙ rw (small, empty, nothing_to_read) refl)
    | no full ↦ inl (
      omega (arith, full),
      go (omega (arith, full)) (read_payload src buffer pkt.size s') refl
          (read_payload-Reads src buffer pkt.size s' fits),
    )
  ]
    where
      begun : read_leg old buffer s ≡ read_rest buffer 0 s' pkt
      begun = loaded_lem old buffer (got []) s s' pkt r e

      over : pending s' ≡ []
      over = sym (read-pending s s' header_size [] r) ∙ read-eof s s' header_size (omega arith) r

      small : ltb kfootsize pkt.size ≡ false
      small = le→ltb kfootsize pkt.size fits

      nothing_to_read :
          read_payload src buffer 0 s'
          ≡ done (record { restartme = false; buffer = buffer; rest = s' })
      nothing_to_read = read_payload_empty buffer s'

      go :
          0 < pkt.size
          → (out : Run (Received src)) → read_payload src buffer pkt.size s' ≡ out
          → Reads src s' pkt.size buffer out
          → (ReadFails src s × (read_leg old buffer s ≡ exit 4))
            ⊎ ((b : List ℕ) × (rest : State) × (read_leg old buffer s
                  ≡ done (record { pkt = pkt; restartme = true; buffer = b; rest = rest })))
      go some out q (whole bs b rest n took shape reached) =
          absurd (omega (arith, ap length (nil_of_append bs (pending rest) (sym took ∙ over))))
      go some out q (cut_off bs b rest few took ended) = inr (b, rest, begun ∙ rw (small, q) refl)
      go some out q (read_error f) =
          inl
            (ReadFails-later src (one_more header_size [] no_read r) f, begun ∙ rw (small, q) refl)
