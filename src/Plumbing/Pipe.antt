-- ===== src/Plumbing/Pipe.antt =====
-- A descriptor over a list of bytes that gives as much as it is asked for: what the laws of `Source` ask
-- can be met.
use viamillipede.Prelude.{
  ℕ, zero, suc, ◌≤◌, ◌<◌, ◌≡◌, refl, sym, ap, List, [], ◌∷◌, ◌++◌, length, length-take, take, drop,
  take-append-drop, arith,
}
use viamillipede.Plumbing.Source.{Reply, got, failed, Source}

abbrev pub read_list : List ℕ → ℕ → Reply × List ℕ
read_list s n = (got (take n s), drop n s)

got_bytes :
    (s s' bs : List ℕ) (n : ℕ) → read_list s n ≡ (got bs, s') → (take n s ≡ bs) × (drop n s ≡ s')
got_bytes s s' bs n e = ground arith

pub read_list-le :
    (s s' : List ℕ) (n : ℕ) (bs : List ℕ) → read_list s n ≡ (got bs, s') → length bs ≤ n
read_list-le s s' n bs e = omega (arith, ap length (got_bytes s s' bs n e).0, length-take n s)

pub read_list-pending :
    (s s' : List ℕ) (n : ℕ) (bs : List ℕ) → read_list s n ≡ (got bs, s') → s ≡ bs ++ s'
read_list-pending s s' n bs e =
    rw (← (got_bytes s s' bs n e).0, ← (got_bytes s s' bs n e).1) (sym (take-append-drop n s))

pub read_list-eof : (s s' : List ℕ) (n : ℕ) → 0 < n → read_list s n ≡ (got [], s') → s ≡ []
read_list-eof [] s' n h e = refl
read_list-eof (x ∷ s) s' zero h e = absurd (omega arith)
read_list-eof (x ∷ s) s' (suc n) h e = absurd (cc)

pub read_list-errno : (s s' : List ℕ) (n e : ℕ) → read_list s n ≡ (failed e, s') → 0 < e
read_list-errno s s' n e q = absurd (cc)

abbrev pub pipe : Source
pipe = record {
  State = List ℕ;
  read = read_list;
  pending = λ s. s;
  read-le = read_list-le;
  read-pending = read_list-pending;
  read-eof = read_list-eof;
  read-errno = read_list-errno;
}
