-- ===== src/Plumbing/Bufferfill/Filling.antt =====
-- What `bufferfill` leaves in the buffer.
use viamillipede.Prelude.{
  ℕ, true, zero, suc, ◌+◌, ◌-◌, ◌≤◌, ◌<◌, ◌≡◌, ◌⊎◌, inl, inr, subst, ap₂, ne→==, le→ltb, refl, sym,
  ap, ◌∙◌, min, Bool, Bool-cases, List, [], ◌∷◌, ◌++◌, length, length-append, append_assoc, drop,
  overwrite, overwrite-append, arith, ltb,
}
use viamillipede.Prelude.Run.{Run, done, exit, done_injective}
use viamillipede.Wire.{maxbsize}
use viamillipede.Plumbing.Source.{Reply, got, failed, Source, ReadsTo, no_read, one_more, ReadFails}
use viamillipede.Plumbing.Bufferfill.{Filled, take_reply, bufferfill_loop, bufferfill}

module _ (src : Source) where
  open src use {State, read, pending, read-le, read-pending, read-eof, read-errno}

  -- How a call for `size` bytes into `base` ends, with the descriptor at `s` before it. It returns
  -- with the next bytes of the input at the front of the buffer, or a read fails and the process ends.
  pub data Fills (s : State) (size : ℕ) (base : List ℕ) (charmode : Bool)
      : Run (Filled src) → Type 0 where
    filled :
        (bs dest : List ℕ) (rest : State)
        → length bs ≤ size
        → pending s ≡ bs ++ pending rest
        → dest ≡ bs ++ drop (length bs) base
        → (length bs ≡ size) ⊎ (pending rest ≡ []) ⊎ ((charmode ≡ true) × (0 < length bs))
        → ReadsTo src s rest
        → Fills s size base charmode
            (done (record { accumulator = length bs; dest = dest; rest = rest }))
    read_error : ReadFails src s → Fills s size base charmode (exit 4)

  -- The state of the loop after `bs` has been read.
  pub record IsPart (s₀ : State) (size : ℕ) (base bs dest : List ℕ) (remainder : ℕ) (s : State)
      : Type 0 where
    pub split : length bs + remainder ≡ size
    pub kept : pending s₀ ≡ bs ++ pending s
    pub shape : dest ≡ bs ++ drop (length bs) base
    pub reached : ReadsTo src s₀ s

  pub IsPart-next :
      {s₀ s s' : State} {size remainder n : ℕ} {base bs dest : List ℕ} (new : List ℕ) (cursor : ℕ)
      → IsPart s₀ size base bs dest remainder s
      → cursor ≡ length bs
      → read s n ≡ (got new, s')
      → length new ≤ remainder
      → IsPart s₀ size base (bs ++ new) (overwrite dest cursor new) (remainder - length new) s'
  IsPart-next {s} {s'} {n} {base} {bs} new cursor p ec e le = record {
    split = omega (arith, p.split, length-append bs new);
    kept =
        p.kept
        ∙ ap (λ l. bs ++ l) (read-pending s s' n new e)
        ∙ sym (append_assoc bs new (pending s'));
    shape = ap₂ (λ l c. overwrite l c new) p.shape ec ∙ overwrite-append bs new base;
    reached = one_more n new p.reached e;
  }

  Fills-stop :
      {s₀ s : State} {size remainder accumulator : ℕ} {base bs dest : List ℕ} {charmode : Bool}
      → IsPart s₀ size base bs dest remainder s
      → accumulator ≡ length bs
      → (remainder ≡ 0) ⊎ (pending s ≡ []) ⊎ ((charmode ≡ true) × (0 < length bs))
      → Fills s₀ size base charmode
          (done (record { accumulator = accumulator; dest = dest; rest = s }))
  Fills-stop {s₀} {s} {size} {base} {bs} {dest} {charmode} p e end =
      subst
        (λ n.
          Fills s₀ size base charmode (done (record { accumulator = n; dest = dest; rest = s })))
        (sym e)
        (filled bs dest s (omega (arith, p.split)) p.kept p.shape (ground (arith, end, p.split))
          p.reached)

  -- A read of no bytes: nothing is left to read, or nothing was asked for.
  eof_lem :
      (s s' : State) (remainder : ℕ)
      → read s (min maxbsize remainder) ≡ (got [], s')
      → (remainder ≡ 0) ⊎ (pending s' ≡ [])
  eof_lem s s' zero r = inl refl
  eof_lem s s' (suc n) r =
      inr (sym (read-pending s s' _ [] r) ∙ read-eof s s' (min maxbsize (suc n)) (omega arith) r)

  bufferfill_loop-Fills :
      (fuel : ℕ) (charmode : Bool) (s₀ s : State) (size remainder cursor accumulator : ℕ)
      (base bs dest : List ℕ)
      → IsPart s₀ size base bs dest remainder s
      → cursor ≡ length bs
      → accumulator ≡ length bs
      → remainder < fuel
      → Fills s₀ size base charmode
          (bufferfill_loop src fuel charmode dest cursor remainder accumulator s)
  unfolding bufferfill_loop
  bufferfill_loop-Fills zero charmode s₀ s size remainder cursor accumulator base bs dest p ec ea
        fuel_fits =
      absurd (omega arith)
  bufferfill_loop-Fills (suc fuel) charmode s₀ s size remainder cursor accumulator base bs dest p ec
        ea fuel_fits =
      go (read s (min maxbsize remainder)) refl (λ new s' q.
        bufferfill_loop-Fills fuel charmode s₀ s' size (remainder - length new)
          (cursor + length new) (accumulator + length new) base (bs ++ new)
          (overwrite dest cursor new) q)
    where
      go :
          (reply : Reply × State)
          → read s (min maxbsize remainder) ≡ reply
          → ((new : List ℕ) (s' : State)
              → IsPart s₀ size base
                  (bs ++ new)
                  (overwrite dest cursor new)
                  (remainder - length new)
                  s'
              → cursor + length new ≡ length (bs ++ new)
              → accumulator + length new ≡ length (bs ++ new)
              → remainder - length new < fuel
              → Fills s₀ size base charmode (
                  bufferfill_loop src fuel charmode
                    (overwrite dest cursor new)
                    (cursor + length new)
                    (remainder - length new)
                    (accumulator + length new)
                    s'))
          → Fills s₀ size base charmode (
              take_reply src charmode
                (bufferfill_loop src fuel charmode)
                dest
                cursor
                remainder
                accumulator
                reply)
      go (failed e, s') r again =
          rw (ne→== e 0 (λ z. absurd (omega (arith, read-errno s s' _ e r)))) (
            read_error (record {
              before = s;
              after = s';
              size = min maxbsize remainder;
              error = e;
              reached = p.reached;
              fails = r;
            }))
      go (got [], s') r again =
          let part = IsPart-next [] cursor p ec r (omega arith) in
          rw (le→ltb remainder 0 (omega arith)) (
            Fills-stop part (omega (arith, length-append bs []))
              (ground (arith, eof_lem s s' remainder r)))
      go (got (x ∷ new), s') r again =
          let le : length (x ∷ new) ≤ remainder = omega (arith, read-le s s' _ (x ∷ new) r) in
          let part = IsPart-next (x ∷ new) cursor p ec r le in
          let ec' : cursor + length (x ∷ new) ≡ length (bs ++ x ∷ new) =
            omega (arith, length-append bs (x ∷ new)) in
          let ea' : accumulator + length (x ∷ new) ≡ length (bs ++ x ∷ new) =
            omega (arith, length-append bs (x ∷ new)) in
          rw (le→ltb remainder (length (x ∷ new)) le, le→ltb (suc (length new)) 1 (omega arith))
            (elim (Bool-cases charmode) [
              | inl c ↦ rw c (
                  rw c at (
                    Fills-stop part ea' (inr (inr (c, omega (arith, length-append bs (x ∷ new)))))))
              | inr c ↦ rw c (elim (Bool-cases (ltb 0 (remainder - suc (length new)))) [
                | inl more ↦ rw more (rw c at (again (x ∷ new) s' part ec' ea' (omega arith)))
                | inr full ↦
                    rw full
                      (rw c at (Fills-stop {charmode = charmode} part ea' (inl (ground arith))))
              ])
            ])

  -- A call with `errno` clear on a buffer returns, or a read of it fails and the process ends with status 4: it runs into
  -- no assertion and into no endless loop. What it returns is the number of bytes that it put at
  -- the front of the buffer, at most `size`; they are the next bytes of the input, in order, and
  -- the buffer behind them is as before. The buffer is full, or the input is at its end, or `charmode` is
  -- on and at least one byte was read.
  pub bufferfill-Fills :
      (base : List ℕ) (size : ℕ) (charmode : Bool) (s : State)
      → Fills s size base charmode (bufferfill src 0 base size charmode s)
  unfolding bufferfill
  bufferfill-Fills base size charmode s =
      bufferfill_loop-Fills (size + 1) charmode s s size size 0 0 base [] base
        (record { split = omega arith; kept = refl; shape = refl; reached = no_read }) refl refl
        (omega arith)

  -- What a call that returns has done.
  pub record IsFilled (s : State) (size : ℕ) (charmode : Bool) (r : Filled src) : Type 0 where
    pub bytes : List ℕ
    pub behind : List ℕ
    pub counts : r.accumulator ≡ length bytes
    pub few : length bytes ≤ size
    pub consumed : pending s ≡ bytes ++ pending r.rest
    pub stored : r.dest ≡ bytes ++ behind
    pub stops :
        (length bytes ≡ size) ⊎ (pending r.rest ≡ []) ⊎ ((charmode ≡ true) × (0 < length bytes))

  pub Fills-done :
      {s : State} {size : ℕ} {base : List ℕ} {charmode : Bool} {out : Run (Filled src)}
      (r : Filled src)
      → Fills s size base charmode out
      → out ≡ done r
      → IsFilled s size charmode r
  Fills-done {base = base} r (filled bs dest rest few kept shape stops reached) e =
      rw (← done_injective e) (record {
        bytes = bs;
        behind = drop (length bs) base;
        counts = refl;
        few = few;
        consumed = kept;
        stored = shape;
        stops = stops;
      })
  Fills-done r (read_error f) e = absurd (cc)
