-- ===== src/Tx/Pseudo/Sums.antt =====
-- The checksum of a leg in the pseudorandom mode: `txingest` (tx.c) takes it of the buffer as the leg
-- before left it, and then `txpush` fills the buffer.
use viamillipede.Prelude.{
  ℕ, zero, suc, ◌+◌, ◌-◌, ◌*◌, ◌/◌, ◌%◌, ◌^◌, ◌≤◌, ◌<◌, ◌≡◌, ◌≢◌, ◌⊎◌, inl, inr, refl, sym, ap, ap₂,
  ◌∙◌, Bool, true, List, [], ◌∷◌, ◌++◌, append_assoc, length, take, drop, overwrite, ltb,
  if◌then◌else◌, u64, arith, ℕ_discrete,
}
use viamillipede.Prelude.Run.{Run, done, abort, ◌>>=◌, done_injective}
use viamillipede.Wire.{kfootsize, Millipacket, leg_of}
use viamillipede.Wire.Frame.{ulong_bytes, load_ulong-ulong_bytes}
use viamillipede.Plumbing.Mix.{load_ulong, mix}
use viamillipede.Plumbing.Mix.Closed.{mix_closed, rounds_of}
use viamillipede.Prbs.{prbs_gen}
use viamillipede.Prbs.Legs.{fill_prbs}
use viamillipede.Prbs.Streams.{stream, prbs_gen-stream, prbs_sequence-zero}
use viamillipede.Tx.Ingest.{leg_checksum}
use viamillipede.Tx.Push.{ulongs, bytes_of, fill_buffer}
use viamillipede.Rx.Worker.{Rxworker, receive, verify_checksum}
use viamillipede.Rx.Start.Short.{verify_checksum-other}

length-ulong_bytes : (w : ℕ) → length (ulong_bytes w) ≡ 8
unfolding ulong_bytes
length-ulong_bytes w = refl

length-ulongs : (ws : List ℕ) → length (ulongs (bytes_of ws)) ≡ length ws
unfolding ulongs bytes_of ulong_bytes
length-ulongs [] = refl
length-ulongs (w ∷ ws) = omega (arith, length-ulongs ws)

-- The words of a stream that has one at least.
stream-first :
    (permutation n : ℕ) (rest : List ℕ)
    → 0 < n
    → (more : List ℕ) × (stream permutation n 0 ++ rest ≡ permutation ∷ more)
stream-first permutation zero rest some = absurd (omega arith)
stream-first permutation (suc n) rest some =
    (stream permutation n (0 + 1) ++ rest, rw (prbs_sequence-zero permutation) refl)

fill_lem :
    (seed leg : ℕ) (buffer payload : List ℕ)
    → 0 < seed
    → prbs_gen (ulongs buffer) (u64 (seed + leg)) kfootsize ≡ done payload
    → fill_buffer seed leg buffer ≡ done (bytes_of payload)
unfolding fill_buffer fill_prbs
fill_lem seed leg buffer payload on e =
    let set : ltb 0 seed ≡ true = ground arith in
    ap
      (λ (b : Bool).
        if b
        then ((if b
              then prbs_gen (ulongs buffer) (u64 (seed + leg)) kfootsize
              else done (ulongs buffer))
            >>= λ p. done (bytes_of p))
        else done buffer)
      set
    ∙ ap (λ (r : Run (List ℕ)). r >>= λ p. done (bytes_of p)) e

-- The filled buffer begins with the permutation.
fill_buffer-first :
    (seed leg : ℕ) (ws : List ℕ)
    → 0 < seed
    → kfootsize / 8 ≤ length ws
    → (more : List ℕ) × (fill_buffer seed leg (bytes_of ws)
        ≡ done (ulong_bytes (u64 (seed + leg)) ++ more))
unfolding bytes_of
fill_buffer-first seed leg ws on fits =
    let (more, e) =
      stream-first (u64 (seed + leg)) (kfootsize / 8) (drop (kfootsize / 8) (ulongs (bytes_of ws)))
        (omega arith) in
    (
      bytes_of more,
      fill_lem seed leg (bytes_of ws) (u64 (seed + leg) ∷ more) on (
          prbs_gen-stream (ulongs (bytes_of ws)) (u64 (seed + leg)) kfootsize
            (omega (arith, length-ulongs ws))
          ∙ ap done e),
    )

take_past : (xs ys : List ℕ) (n k : ℕ) → k ≡ length xs + n → take k (xs ++ ys) ≡ xs ++ take n ys
take_past [] ys n k e = ap (λ (i : ℕ). take i ys) (omega arith)
take_past (x ∷ xs) ys n zero e = absurd (omega arith)
take_past (x ∷ xs) ys n (suc k) e = ap (λ (l : List ℕ). x ∷ l) (take_past xs ys n k (omega arith))

-- The first word of what the receiver has in its buffer.
first_word :
    (w size : ℕ) (more base : List ℕ)
    → w < 2 ^ 64
    → 8 ≤ size
    → load_ulong (overwrite base 0 (take size (ulong_bytes w ++ more))) ≡ done w
unfolding overwrite
first_word w size more base fit long =
    let payload = take size (ulong_bytes w ++ more) in
    let behind = drop (0 + length payload) base in
    ap (λ (l : List ℕ). load_ulong (l ++ behind))
      (take_past (ulong_bytes w) more (size - 8) size (omega (arith, length-ulong_bytes w)))
    ∙ ap load_ulong (append_assoc (ulong_bytes w) (take (size - 8) more) behind)
    ∙ load_ulong-ulong_bytes w (take (size - 8) more ++ behind) fit

-- The number of rounds of `mix` over a leg of the full size is odd.
sums_differ :
    (s w p : ℕ)
    → p % 2 ^ 32 ≢ w % 2 ^ 32
    → (s + rounds_of kfootsize * p + 4 * (rounds_of kfootsize * (kfootsize / 8))) % 2 ^ 32
      ≢ (s + rounds_of kfootsize * w + 4 * (rounds_of kfootsize * (kfootsize / 8))) % 2 ^ 32
sums_differ s w p ne same = ne (omega (arith, same))

-- The checksum of a leg of the full size whose buffer begins with the word `w`.
abbrev full_sum : ℕ → ℕ → ℕ
full_sum seed w =
    (seed + rounds_of kfootsize * w + 4 * (rounds_of kfootsize * (kfootsize / 8))) % 2 ^ 32

sent_lem :
    (saved leg w c : ℕ) (buffer : List ℕ)
    → load_ulong buffer ≡ done w
    → leg_checksum true saved leg buffer kfootsize ≡ done (c, c)
    → full_sum (u64 (saved + leg)) w ≡ c
unfolding leg_checksum
sent_lem saved leg w c buffer loads made =
    ap (λ (z : ℕ × ℕ). z.0)
      (done_injective (
        sym (
          ap (λ (r : Run ℕ). r >>= λ sum. done (sum, sum))
            (mix_closed (u64 (saved + leg)) buffer kfootsize w loads (omega arith)))
        ∙ made))

-- With checksums in the pseudorandom mode: the checksum of a leg whose buffer holds the words `w ∷ ws`
-- before it is filled is 0, which turns the check of the receiver off, or the receiver, with the saved
-- checksum of the transmitter, fails its assertion on the leg that comes, whenever the first word of
-- the pseudorandom payload, the seed and the leg id, differs from `w` in its lower 32 bits.
pub prbs_sum :
    (seed leg w saved : ℕ) (ws : List ℕ) (pkt : Millipacket) (rx : Rxworker)
    → 0 < seed
    → kfootsize / 8 ≤ length (w ∷ ws)
    → w < 2 ^ 64
    → (seed + leg) % 2 ^ 32 ≢ w % 2 ^ 32
    → pkt.leg_id ≡ leg
    → pkt.size ≡ kfootsize
    → leg_checksum true saved leg (bytes_of (w ∷ ws)) kfootsize ≡ done (pkt.checksum, pkt.checksum)
    → (b : List ℕ) × (fill_buffer seed leg (bytes_of (w ∷ ws)) ≡ done b)
      × ((pkt.checksum ≡ 0)
          ⊎ (verify_checksum saved pkt (receive (leg_of pkt b) rx).buffer ≡ abort))
unfolding receive bytes_of
prbs_sum seed leg w saved ws pkt rx on fits fit other id size made =
    let (more, filled) = fill_buffer-first seed leg (w ∷ ws) on fits in
    let b = ulong_bytes (u64 (seed + leg)) ++ more in
    let old : load_ulong (bytes_of (w ∷ ws)) ≡ done w =
      load_ulong-ulong_bytes w (bytes_of ws) fit in
    let sent = sent_lem saved leg w pkt.checksum (bytes_of (w ∷ ws)) old made in
    let got : mix (u64 (saved + pkt.leg_id)) (overwrite rx.buffer 0 (take pkt.size b)) pkt.size
        ≡ done (full_sum (u64 (saved + leg)) (u64 (seed + leg))) =
      ap₂ (λ (k n : ℕ). mix (u64 (saved + k)) (overwrite rx.buffer 0 (take n b)) n) id size
      ∙ mix_closed (u64 (saved + leg)) (overwrite rx.buffer 0 (take kfootsize b)) kfootsize
          (u64 (seed + leg))
          (first_word (u64 (seed + leg)) kfootsize more rx.buffer (omega arith) (omega arith))
          (omega arith) in
    (
      b,
      filled,
      elim (ℕ_discrete pkt.checksum 0) [
        | yes zero_sum ↦ inl zero_sum
        | no nonzero ↦ inr (
            verify_checksum-other saved pkt.checksum
              (full_sum (u64 (saved + leg)) (u64 (seed + leg))) pkt
              (overwrite rx.buffer 0 (take pkt.size b)) refl nonzero got
              (λ z.
                sums_differ (u64 (saved + leg)) w (u64 (seed + leg)) (λ q. other (omega (arith, q)))
                  (z ∙ sym sent)))
      ],
    )
