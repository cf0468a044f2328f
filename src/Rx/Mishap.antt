-- ===== src/Rx/Mishap.antt =====
-- What can go wrong with the reads of a connection: a read fails, or a read of a header gives less than
-- a header.
use viamillipede.Prelude.{ℕ, ◌≤◌, ◌<◌, ◌≡◌, ◌⊎◌, inl, inr, refl, List, length, arith, dec_lt}
use viamillipede.Prelude.Run.{Run, exit}
use viamillipede.Wire.Frame.{header_size}
use viamillipede.Plumbing.Source.{
  Reply, got, failed, Source, ReadsTo, no_read, ReadsTo-trans, ReadFails, ReadFails-later,
}

module _ (src : Source) where
  open src use {State, read, pending, read-le}

  -- The reply to a read of a header is an error, or less than a header.
  abbrev pub IsShort : Reply → Type 0
  IsShort (got bs) = length bs < header_size
  IsShort (failed e) = Unit

  -- Such a reply, on a connection with a header left on it, behind reads from `s₀` on.
  pub record ShortHeader (s₀ : State) : Type 0 where
    pub before : State
    pub after : State
    pub reply : Reply
    pub reached : ReadsTo src s₀ before
    pub there : header_size ≤ length (pending before)
    pub replied : read before header_size ≡ (reply, after)
    pub short : IsShort reply

  -- A run over the connection went wrong: a read failed, and the process ended with status 4; or a
  -- header came short, of which nothing is said.
  pub data Mishap {A : Type 0} (s : State) (run : Run A) : Type 0 where
    read_fails : ReadFails src s → run ≡ exit 4 → Mishap s run
    short_header : ShortHeader s → Mishap s run

  pub Mishap-later :
      {A B : Type 0} {s s' : State} {run : Run A} {run' : Run B}
      → ReadsTo src s s'
      → (run ≡ exit 4 → run' ≡ exit 4)
      → Mishap s' run
      → Mishap s run'
  Mishap-later p through (read_fails f e) = read_fails (ReadFails-later src p f) (through e)
  Mishap-later p through (short_header h) = short_header (record {
    before = h.before;
    after = h.after;
    reply = h.reply;
    reached = ReadsTo-trans src p h.reached;
    there = h.there;
    replied = h.replied;
    short = h.short;
  })

  -- Of a connection with a header left on it, a read gives the header whole, or it is short.
  pub header_read :
      (s : State)
      → header_size ≤ length (pending s)
      → ShortHeader s
        ⊎ ((bs : List ℕ) × (s' : State) × (read s header_size ≡ (got bs, s'))
            × (length bs ≡ header_size))
  header_read s there = go (read s header_size) refl
    where
      short_at :
          (reply : Reply) (s' : State)
          → read s header_size ≡ (reply, s')
          → IsShort reply
          → ShortHeader s
      short_at reply s' r short = record {
        before = s;
        after = s';
        reply = reply;
        reached = no_read;
        there = there;
        replied = r;
        short = short;
      }

      go :
          (r : Reply × State)
          → read s header_size ≡ r
          → ShortHeader s
            ⊎ ((bs : List ℕ) × (s' : State) × (read s header_size ≡ (got bs, s'))
                × (length bs ≡ header_size))
      go (failed e, s') r = inl (short_at (failed e) s' r tt)
      go (got bs, s') r = elim (dec_lt (length bs) header_size) [
        | yes few ↦ inl (short_at (got bs) s' r few)
        | no full ↦ inr (bs, s', r, omega (arith, full, read-le s s' header_size bs r))
      ]
