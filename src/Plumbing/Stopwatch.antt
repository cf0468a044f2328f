-- ===== src/Plumbing/Stopwatch.antt =====
-- `stopwatch_stop` (plumbing.c). A `struct timespec` as the clock writes it has no negative field.
-- The loop repeats `clock_gettime` until it succeeds, so that `stoptime` is what it stores at last;
-- `errno`, which the function resets after an interrupted call, is left out.
pub mod Clock
use native.Mathlib.Nat.{mod-eq_of_lt}
use viamillipede.Prelude.{
  ℕ, suc, ◌+◌, ◌-◌, ◌*◌, ◌/◌, ◌^◌, ◌≤◌, ◌<◌, ◌≡◌, refl, ◌∙◌, inl, inr, Bool-cases, arith, leb, u64,
  if◌then◌else◌,
}
use viamillipede.Prelude.Int.{ℤ, pos, negsuc, ◌+ℤ◌, ◌-ℤ◌}

pub record Timespec : Type 0 where
  pub tv_sec : ℕ
  pub tv_nsec : ℕ

-- Division in C: towards zero.
abbrev quot : ℤ → ℕ → ℤ
quot (pos n) d = pos (n / d)
quot (negsuc n) d = pos 0 -ℤ pos (suc n / d)

abbrev scale : ℤ → ℕ → ℤ
scale (pos n) k = pos (n * k)
scale (negsuc n) k = pos 0 -ℤ pos (suc n * k)

-- The conversion of a signed to an unsigned 64-bit word.
abbrev to_ulong : ℤ → ℕ
to_ulong (pos n) = u64 n
to_ulong (negsuc n) = 2 ^ 64 - 1 - u64 n

unfoldable pub stopwatch_stop : Timespec → Timespec → ℕ
stopwatch_stop t stoptime =
    let nanoes = pos stoptime.tv_nsec -ℤ pos t.tv_nsec +ℤ pos 1_000_000_000 in
    let secondsdiff = pos stoptime.tv_sec -ℤ pos t.tv_sec -ℤ pos 1 +ℤ quot nanoes 1_000_000_000 in
    to_ulong (scale secondsdiff 1_000_000 +ℤ quot nanoes 1000)

abbrev pub IsTimespec : Timespec → Type 0
IsTimespec t = t.tv_nsec < 1_000_000_000

-- Nanoseconds since the clock's origin.
abbrev pub nanos : Timespec → ℕ
nanos t = t.tv_sec * 1_000_000_000 + t.tv_nsec

borrow_lem :
    (a b : ℕ)
    → b ≤ a + 1_000_000_000
    → pos a -ℤ pos b +ℤ pos 1_000_000_000 ≡ pos (a + 1_000_000_000 - b)
unfolding ◌+ℤ◌ ◌-ℤ◌
borrow_lem a b h = ground arith

carry_lem : (a b q : ℕ) → b + 1 ≤ a + q → pos a -ℤ pos b -ℤ pos 1 +ℤ pos q ≡ pos (a + q - (b + 1))
unfolding ◌+ℤ◌ ◌-ℤ◌
carry_lem a b q h = ground arith

add_pos : (a b : ℕ) → pos a +ℤ pos b ≡ pos (a + b)
unfolding ◌+ℤ◌
add_pos a b = ground arith

-- With no number below zero and none out of range, the function is plain arithmetic.
stopwatch_stop-nat :
    (t stoptime : Timespec) (n d : ℕ)
    → t.tv_nsec ≤ stoptime.tv_nsec + 1_000_000_000
    → stoptime.tv_nsec + 1_000_000_000 - t.tv_nsec ≡ n
    → t.tv_sec + 1 ≤ stoptime.tv_sec + n / 1_000_000_000
    → stoptime.tv_sec + n / 1_000_000_000 - (t.tv_sec + 1) ≡ d
    → d * 1_000_000 + n / 1000 < 2 ^ 64
    → stopwatch_stop t stoptime ≡ d * 1_000_000 + n / 1000
unfolding stopwatch_stop
stopwatch_stop-nat t stoptime n d h en k ed fit =
    rw
      (
        borrow_lem stoptime.tv_nsec t.tv_nsec h,
        en,
        carry_lem stoptime.tv_sec t.tv_sec (n / 1_000_000_000) k,
        ed,
        add_pos,
      )
      (mod-eq_of_lt fit)

-- For two readings with less than a billion nanoseconds each, the second not before the first and
-- below 2 ^ 40 seconds: the time between them comes out right, in whole microseconds, where the
-- nanoseconds of the second are below those of the first; otherwise it comes out one second too
-- long.
pub stopwatch_stop-elapsed :
    (t stoptime : Timespec)
    → IsTimespec t
    → IsTimespec stoptime
    → nanos t ≤ nanos stoptime
    → stoptime.tv_sec < 2 ^ 40
    → stopwatch_stop t stoptime
      ≡ (nanos stoptime - nanos t) / 1000
        + (if leb t.tv_nsec stoptime.tv_nsec then 1_000_000 else 0)
stopwatch_stop-elapsed t stoptime ok ok' later fit =
    elim (Bool-cases (leb t.tv_nsec stoptime.tv_nsec)) [
      | inl e ↦ rw e (
          stopwatch_stop-nat t stoptime _ _ (ground arith) refl (ground arith) refl (ground arith)
          ∙ ground arith)
      | inr e ↦ rw e (
          stopwatch_stop-nat t stoptime _ _ (ground arith) refl (ground arith) refl (ground arith)
          ∙ ground arith)
    ]
