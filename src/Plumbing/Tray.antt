-- ===== src/Plumbing/Tray.antt =====
-- A descriptor that takes whatever is written to it: what the laws of `Sink` ask can be met.
use viamillipede.Prelude.{
  ℕ, ◌≤◌, ◌<◌, ◌≡◌, ap, sym, ◌∙◌, List, [], ◌++◌, append-nil, length, take, take-length-append,
  arith,
}
use viamillipede.Plumbing.Sink.{Written, wrote, refused, gathered, Sink}

abbrev pub write_list : List ℕ → List (List ℕ) → Written × List ℕ
write_list s vs = (wrote (length (gathered vs)), s ++ gathered vs)

taken :
    (s s' : List ℕ) (vs : List (List ℕ)) (n : ℕ)
    → write_list s vs ≡ (wrote n, s')
    → (length (gathered vs) ≡ n) × (s ++ gathered vs ≡ s')
taken s s' vs n e = ground arith

pub write_list-le :
    (s s' : List ℕ) (vs : List (List ℕ)) (n : ℕ)
    → write_list s vs ≡ (wrote n, s')
    → n ≤ length (gathered vs)
write_list-le s s' vs n e = omega (arith, (taken s s' vs n e).0)

pub write_list-sent :
    (s s' : List ℕ) (vs : List (List ℕ)) (n : ℕ)
    → write_list s vs ≡ (wrote n, s')
    → s' ≡ s ++ take n (gathered vs)
write_list-sent s s' vs n e =
    sym (taken s s' vs n e).1
    ∙ ap (λ (l : List ℕ). s ++ l)
        (sym (take-length-append (gathered vs) [])
          ∙ ap (take (length (gathered vs))) (append-nil (gathered vs))
          ∙ ap (λ (k : ℕ). take k (gathered vs)) (taken s s' vs n e).0)

pub write_list-errno :
    (s s' : List ℕ) (vs : List (List ℕ)) (e : ℕ) → write_list s vs ≡ (refused e, s') → 0 < e
write_list-errno s s' vs e q = absurd (cc)

abbrev pub tray : Sink
tray = record {
  State = List ℕ;
  writev = write_list;
  sent = λ s. s;
  writev-le = write_list-le;
  writev-sent = write_list-sent;
  writev-errno = write_list-errno;
}
