-- ===== src/Plumbing/Mix/Closed.antt =====
-- What `mix` computes: a closed form, and what follows of it for the leg checksum.
use native.Mathlib.Nat.{mod-eq_of_lt}
use viamillipede.Prelude.{
  ℕ, zero, suc, ◌+◌, ◌*◌, ◌/◌, ◌%◌, ◌^◌, ◌≤◌, ◌<◌, ◌≡◌, refl, ◌≢◌, ap, ap₂, ◌∙◌, sym, List, [], ◌∷◌,
  ◌++◌, length, le→leb, lt→leb, arith, u32,
}
use viamillipede.Prelude.Run.{done, done_injective}
use viamillipede.Plumbing.Mix.{load_ulong, mix_loop, mix}

-- What `rounds` rounds add, with no word size: `w + cursor`, with the cursor going up by 8.
abbrev total : ℕ → ℕ → ℕ → ℕ
total zero w cursor = 0
total (suc rounds) w cursor = w + cursor + total rounds w (cursor + 8)

mix_loop-step :
    (fuel size : ℕ) (buf : List ℕ) (w cursor acc : ℕ)
    → load_ulong buf ≡ done w
    → cursor ≤ size
    → size + 8 < 2 ^ 64
    → mix_loop (suc fuel) size buf cursor acc
      ≡ mix_loop fuel size buf (cursor + 8) (u32 (acc + w + cursor))
unfolding mix_loop
mix_loop-step fuel size buf w cursor acc e lo fit =
    rw (le→leb cursor size lo, e)
      (ap₂ (mix_loop fuel size buf) (mod-eq_of_lt (omega arith)) (omega arith))

mix_loop-total :
    (rounds fuel size : ℕ) (buf : List ℕ) (w cursor acc : ℕ)
    → load_ulong buf ≡ done w
    → size + 8 < 2 ^ 64
    → cursor + 8 * rounds ≤ size + 8
    → size < cursor + 8 * rounds
    → fuel ≡ suc rounds
    → mix_loop fuel size buf cursor (u32 acc) ≡ done ((acc + total rounds w cursor) % 2 ^ 32)
mix_loop-total zero zero size buf w cursor acc e fit lo hi f = absurd (omega arith)
mix_loop-total zero (suc fuel) size buf w cursor acc e fit lo hi f =
    unfold mix_loop in rw (lt→leb cursor size (omega arith)) (ap done (omega arith))
mix_loop-total (suc rounds) zero size buf w cursor acc e fit lo hi f = absurd (omega arith)
mix_loop-total (suc rounds) (suc fuel) size buf w cursor acc e fit lo hi f =
    mix_loop-step fuel size buf w cursor (u32 acc) e (omega arith) fit
    ∙ ap (mix_loop fuel size buf (cursor + 8)) (omega arith)
    ∙ mix_loop-total rounds fuel size buf w (cursor + 8) (acc + w + cursor) e fit (omega arith)
        (omega arith) (omega arith)
    ∙ ap done (omega arith)

-- The cursors 0, 8, … add up to 4 times `rounds * (rounds - 1)`.
total_closed :
    (rounds w cursor : ℕ)
    → total rounds w cursor + 4 * rounds ≡ rounds * (w + cursor) + 4 * (rounds * rounds)
total_closed zero w cursor = omega arith
total_closed (suc rounds) w cursor = omega (arith, total_closed rounds w (cursor + 8))

abbrev pub rounds_of : ℕ → ℕ
rounds_of size = size / 8 + 1

-- For a buffer of at least one word and a size that does not wrap the cursor the loop ends, and the
-- sum is that of the seed, of the FIRST word of the buffer once for each round, and of the cursors,
-- modulo 2 ^ 32.
pub mix_closed :
    (seed : ℕ) (buf : List ℕ) (size w : ℕ)
    → load_ulong buf ≡ done w
    → size + 8 < 2 ^ 64
    → mix seed buf size
      ≡ done ((seed + rounds_of size * w + 4 * (rounds_of size * (size / 8))) % 2 ^ 32)
unfolding mix
mix_closed seed buf size w e fit =
    mix_loop-total (rounds_of size) (size / 8 + 2) size buf w 0 seed e fit (omega arith)
      (omega arith) (omega arith)
    ∙ ap (λ (n : ℕ). done (n % 2 ^ 32)) (omega (arith, total_closed (rounds_of size) w 0))

-- On a buffer of at least one word and a size that does not wrap the cursor, the checksums of one
-- buffer under two seeds differ wherever the seeds differ as 32-bit words.
pub mix_seed :
    (a b : ℕ) (buf : List ℕ) (size w : ℕ)
    → load_ulong buf ≡ done w
    → size + 8 < 2 ^ 64
    → a % 2 ^ 32 ≢ b % 2 ^ 32
    → mix a buf size ≢ mix b buf size
mix_seed a b buf size w e fit ne same = ne (
    omega (
      arith,
      done_injective (sym (mix_closed a buf size w e fit) ∙ same ∙ mix_closed b buf size w e fit),
    ))

-- A byte string of eight bytes loads as one word, whatever stands behind it.
load_ulong-append :
    (head : List ℕ)
    → length head ≡ 8
    → (w : ℕ) × ((rest : List ℕ) → load_ulong (head ++ rest) ≡ done w)
unfolding load_ulong
load_ulong-append (a ∷ b ∷ c ∷ d ∷ e ∷ f ∷ g ∷ h ∷ []) len = (_, λ rest. refl)
load_ulong-append _ len = absurd (omega arith)

-- The checksum says nothing of the payload behind its first eight bytes: of two payloads with one
-- head of eight bytes, however long and different their rests, it is the same, for any seed and
-- any size that does not wrap the cursor.
pub mix_ignores_rest :
    (seed : ℕ) (head rest other : List ℕ) (size : ℕ)
    → length head ≡ 8
    → size + 8 < 2 ^ 64
    → mix seed (head ++ rest) size ≡ mix seed (head ++ other) size
mix_ignores_rest seed head rest other size len fit =
    let (w, loads) = load_ulong-append head len in
    mix_closed seed (head ++ rest) size w (loads rest) fit
    ∙ sym (mix_closed seed (head ++ other) size w (loads other) fit)
