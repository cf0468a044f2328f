-- ===== src/Rx/Start/Short.antt =====
-- The first leg on a connection, where it is shorter than the check phrase that the buffer of the
-- receiver's worker still holds.
use viamillipede.Prelude.{
  ℕ, ◌+◌, ◌/◌, ◌%◌, ◌^◌, ◌<◌, ◌≡◌, ◌≢◌, refl, sym, ap, ◌∙◌, true, List, [], ◌∷◌, length, overwrite,
  ne→==, u64, arith,
}
use viamillipede.Prelude.Run.{done, abort, >>=-eq-done, done_injective}
use viamillipede.Wire.{Millipacket}
use viamillipede.Plumbing.Mix.{load_ulong, mix}
use viamillipede.Plumbing.Mix.Closed.{mix_closed}
use viamillipede.Tx.Ingest.{leg_checksum}
use viamillipede.Rx.Worker.{reading, receive, verify_checksum}

-- A buffer as calloc(3) gives it, down to its eighth byte.
abbrev pub zeroed : List ℕ → List ℕ
zeroed rest = 0 ∷ 0 ∷ 0 ∷ 0 ∷ 0 ∷ 0 ∷ 0 ∷ 0 ∷ rest

-- A check that finds another sum fails.
pub verify_checksum-other :
    (saved c c' : ℕ) (pkt : Millipacket) (buffer : List ℕ)
    → pkt.checksum ≡ c
    → c ≢ 0
    → mix (u64 (saved + pkt.leg_id)) buffer pkt.size ≡ done c'
    → c' ≢ c
    → verify_checksum saved pkt buffer ≡ abort
unfolding verify_checksum
verify_checksum-other saved c c' pkt buffer same nonzero made other =
    rw
      (
        ne→== pkt.checksum 0 (λ z. nonzero (sym same ∙ z)),
        made,
        ne→== c' pkt.checksum (λ z. other (z ∙ same)),
      )
      refl

mix_small :
    (seed size w : ℕ) (buf : List ℕ)
    → load_ulong buf ≡ done w
    → size < 8
    → mix seed buf size ≡ done ((seed + w) % 2 ^ 32)
mix_small seed size w buf loads small =
    let none : size / 8 ≡ 0 = omega arith in
    mix_closed seed buf size w loads (omega arith)
    ∙ ap (λ (n : ℕ). done (n % 2 ^ 32)) (rw none (omega arith))

-- Two buffers whose first words differ by less than 2 ^ 32 have different sums.
mix_other :
    (seed size w w' c : ℕ) (buf buf' : List ℕ)
    → load_ulong buf ≡ done w
    → load_ulong buf' ≡ done w'
    → size < 8
    → w < w'
    → w' < w + 2 ^ 32
    → mix seed buf size ≡ done c
    → (c' : ℕ) × (mix seed buf' size ≡ done c') × (c' ≢ c)
mix_other seed size w w' c buf buf' loads loads' small less near made =
    let value : (seed + w) % 2 ^ 32 ≡ c =
      done_injective (sym (mix_small seed size w buf loads small) ∙ made) in
    ((seed + w') % 2 ^ 32, mix_small seed size w' buf' loads' small, λ z. omega (arith, value, z))

-- The word of the transmitter's buffer, and that of the receiver's with the check phrase behind the
-- payload.
words :
    (payload rest rest' : List ℕ) (p q r s : ℕ)
    → 0 < length payload
    → length payload < 4
    → q < 256
    → r < 256
    → 0 < s
    → s < 256
    → (w w' : ℕ) × (load_ulong (overwrite (zeroed rest) 0 payload) ≡ done w)
      × (load_ulong (overwrite (overwrite (zeroed rest') 0 (p ∷ q ∷ r ∷ s ∷ [])) 0 payload)
          ≡ done w')
      × (w < w')
      × (w' < w + 2 ^ 32)
unfolding load_ulong overwrite
words [] rest rest' p q r s some few bq br ls bs = absurd (omega (arith, some))
words (a ∷ []) rest rest' p q r s some few bq br ls bs =
    (_, _, refl, refl, omega arith, omega arith)
words (a ∷ b ∷ []) rest rest' p q r s some few bq br ls bs =
    (_, _, refl, refl, omega arith, omega arith)
words (a ∷ b ∷ c ∷ []) rest rest' p q r s some few bq br ls bs =
    (_, _, refl, refl, omega arith, omega arith)
words (a ∷ b ∷ c ∷ d ∷ l) rest rest' p q r s some few bq br ls bs = absurd (omega (arith, few))

-- A leg of one to three bytes that is the first on its connection fails the receiver's check, though it
-- is what the transmitter sent, whenever its checksum is not 0: the transmitter sums a zeroed buffer
-- behind the payload, and the receiver the last bytes of the check phrase, the fourth of which is not 0.
pub short_first_leg :
    (saved c p q r s : ℕ) (pkt : Millipacket) (payload rest rest' : List ℕ)
    → 0 < length payload
    → length payload < 4
    → q < 256
    → r < 256
    → 0 < s
    → s < 256
    → pkt.size ≡ length payload
    → pkt.checksum ≡ c
    → c ≢ 0
    → leg_checksum true saved pkt.leg_id (overwrite (zeroed rest) 0 payload) pkt.size ≡ done (c, c)
    → verify_checksum saved pkt
        (receive
          (record { pkt = pkt; payload = payload })
          (record {
            pc = reading;
            buffer = overwrite (zeroed rest') 0 (p ∷ q ∷ r ∷ s ∷ []);
          })).buffer
      ≡ abort
unfolding leg_checksum receive
short_first_leg saved c p q r s pkt payload rest rest' some few bq br ls bs sized same nonzero
      sent =
    let (w, w', loads, loads', less, near) =
      words payload rest rest' p q r s some few bq br ls bs in
    let (sum, made, e) =
      >>=-eq-done (mix (u64 (saved + pkt.leg_id)) (overwrite (zeroed rest) 0 payload) pkt.size)
        (λ sum. done (sum, sum)) sent in
    let kept : sum ≡ c = ap (λ (z : ℕ × ℕ). z.0) (done_injective e) in
    let (c', found, other) =
      mix_other (u64 (saved + pkt.leg_id)) pkt.size w w' c _ _ loads loads'
        (omega (arith, sized, few)) less near (made ∙ ap done kept) in
    verify_checksum-other saved c c' pkt _ same nonzero found other
