-- ===== src/Plumbing/Mix.antt =====
-- `mix` (plumbing.c): the checksum of a leg.
pub mod Closed
pub mod Front
use viamillipede.Prelude.{
  ℕ, zero, suc, ◌+◌, ◌*◌, ◌/◌, Option, none, some, List, [], ◌∷◌, leb, if◌then◌else◌, u32, u64,
}
use viamillipede.Prelude.Run.{Run, done, fault, spent, ◌>>=◌}

-- `*(unsigned long *)data`, little-endian; `fault` is a read past the end of the object.
unfoldable pub load_ulong : List ℕ → Run ℕ
load_ulong (a ∷ b ∷ c ∷ d ∷ e ∷ f ∷ g ∷ h ∷ rest) = done (
    a
    + 0x100 * (b + 0x100 * (c + 0x100 * (d + 0x100 * (e + 0x100 * (f + 0x100 * (g + 0x100 * h)))))))
load_ulong _ = fault

-- `for (cursor = 0; cursor <= size; cursor += 8) acc += *(unsigned long *)data + cursor;`
-- The sum is an `unsigned long`, and `acc` is an `unsigned`. `data` does not move.
unfoldable pub mix_loop : ℕ → ℕ → List ℕ → ℕ → ℕ → Run ℕ
mix_loop zero size buf cursor acc = spent
mix_loop (suc fuel) size buf cursor acc =
    let round = load_ulong buf >>= λ w.
    mix_loop fuel size buf (u64 (cursor + 8)) (u32 (u64 (acc + u64 (w + cursor)))) in
    if leb cursor size then round else done acc

-- The fuel is one more than the rounds of the loop for a size that does not wrap the cursor.
unfoldable pub mix : ℕ → List ℕ → ℕ → Run ℕ
unfolding mix_loop
mix seed buf size = mix_loop (size / 8 + 2) size buf 0 (u32 seed)
