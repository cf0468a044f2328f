-- ===== src/Plumbing/Mix/Front.antt =====
-- `mix` reads the front of the buffer only, so the receiver's buffer and the transmitter's may differ
-- behind the payload.
use viamillipede.Prelude.{
  ℕ, suc, ◌+◌, ◌/◌, ◌^◌, ◌≤◌, ◌<◌, ◌≡◌, ◌⊎◌, inl, inr, refl, sym, ◌∙◌, List, ◌∷◌, ◌++◌, take,
  le→leb, arith,
}
use viamillipede.Prelude.Run.{done, fault}
use viamillipede.Plumbing.Mix.{load_ulong, mix_loop, mix}
use viamillipede.Plumbing.Mix.Closed.{mix_closed}

load_ulong-cases : (buf : List ℕ) → ((w : ℕ) × (load_ulong buf ≡ done w)) ⊎ (load_ulong buf ≡ fault)
unfolding load_ulong
load_ulong-cases (a ∷ b ∷ c ∷ d ∷ e ∷ f ∷ g ∷ h ∷ rest) = inl (_, refl)
load_ulong-cases _ = inr refl

-- The word is in the first eight bytes.
load_ulong-take :
    (buf tail : List ℕ) (n w : ℕ)
    → 8 ≤ n
    → load_ulong buf ≡ done w
    → load_ulong (take n buf ++ tail) ≡ done w
unfolding load_ulong
load_ulong-take (a ∷ b ∷ c ∷ d ∷ e ∷ f ∷ g ∷ h ∷ rest) tail
      (suc (suc (suc (suc (suc (suc (suc (suc n)))))))) w lo eq =
    eq
load_ulong-take (a ∷ b ∷ c ∷ d ∷ e ∷ f ∷ g ∷ h ∷ rest) tail _ w lo eq = absurd (omega arith)
load_ulong-take _ tail n w lo eq = absurd (cc)

mix_loop-fault :
    (fuel size : ℕ) (buf : List ℕ) (acc : ℕ)
    → load_ulong buf ≡ fault
    → mix_loop (suc fuel) size buf 0 acc ≡ fault
unfolding mix_loop
mix_loop-fault fuel size buf acc e = rw (le→leb 0 size (omega arith), e) refl

mix-fault :
    (seed : ℕ) (buf : List ℕ) (size : ℕ) → load_ulong buf ≡ fault → mix seed buf size ≡ fault
unfolding mix
mix-fault seed buf size e =
    let rounds : size / 8 + 2 ≡ suc (size / 8 + 1) = omega arith in
    rw rounds (mix_loop-fault (size / 8 + 1) size buf _ e)

-- A checksum over a payload of at least eight bytes is the same with any bytes behind the payload.
pub mix-take :
    (seed : ℕ) (buf tail : List ℕ) (size c : ℕ)
    → 8 ≤ size
    → size + 8 < 2 ^ 64
    → mix seed buf size ≡ done c
    → mix seed (take size buf ++ tail) size ≡ done c
mix-take seed buf tail size c lo fit e = elim (load_ulong-cases buf) [
  | inl (w, loads) ↦
      mix_closed seed (take size buf ++ tail) size w (load_ulong-take buf tail size w lo loads) fit
      ∙ sym (mix_closed seed buf size w loads fit)
      ∙ e
  | inr none ↦ absurd (let bad = sym (mix-fault seed buf size none) ∙ e in cc)
]
