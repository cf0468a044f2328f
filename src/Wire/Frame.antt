-- ===== src/Wire/Frame.antt =====
-- The bytes of a leg on its connection: `txpush` (tx.c) writes the memory of the `struct millipacket_s`
-- and then the payload, and `rxworker` (rx.c) reads the header back into its own. The words are
-- little-endian, and have 8 bytes.
use viamillipede.Prelude.{
  ℕ, ◌/◌, ◌%◌, ◌^◌, ◌≤◌, ◌<◌, ◌≡◌, refl, ap, sym, ◌∙◌, List, [], ◌∷◌, ◌++◌, append_assoc, length,
  drop, arith,
}
use viamillipede.Prelude.Run.{Run, done, ◌>>=◌}
use viamillipede.Plumbing.Mix.{load_ulong}
use viamillipede.Wire.{Millipacket, Leg, kfootsize}

-- The memory of an `unsigned long`.
unfoldable pub ulong_bytes : ℕ → List ℕ
ulong_bytes n =
    n % 256
    ∷ n / 2 ^ 8 % 256
    ∷ n / 2 ^ 16 % 256
    ∷ n / 2 ^ 24 % 256
    ∷ n / 2 ^ 32 % 256
    ∷ n / 2 ^ 40 % 256
    ∷ n / 2 ^ 48 % 256
    ∷ n / 2 ^ 56 % 256
    ∷ []

-- `sizeof(struct millipacket_s)`
abbrev pub header_size : ℕ
header_size = 40

-- The memory of the header.
unfoldable pub header_bytes : Millipacket → List ℕ
header_bytes pkt =
    ulong_bytes pkt.preamble
    ++ (ulong_bytes pkt.leg_id
        ++ (ulong_bytes pkt.size ++ (ulong_bytes pkt.checksum ++ ulong_bytes pkt.opcode)))

-- The fields of the header in memory.
unfoldable pub load_header : List ℕ → Run Millipacket
load_header bytes = load_ulong bytes >>= λ preamble. load_ulong (drop 8 bytes) >>= λ leg_id.
    load_ulong (drop 16 bytes) >>= λ size. load_ulong (drop 24 bytes) >>= λ checksum.
    load_ulong (drop 32 bytes) >>= λ opcode. done (record {
      preamble = preamble;
      leg_id = leg_id;
      size = size;
      checksum = checksum;
      opcode = opcode;
    })

-- What one `writev` of `txpush` sends.
abbrev pub frame : Leg → List ℕ
frame l = header_bytes l.pkt ++ l.payload

abbrev pub frames : List Leg → List ℕ
frames [] = []
frames (l ∷ ls) = frame l ++ frames ls

-- The fields of the header are words.
pub record IsHeader (pkt : Millipacket) : Type 0 where
  pub preamble : pkt.preamble < 2 ^ 64
  pub leg_id : pkt.leg_id < 2 ^ 64
  pub size : pkt.size < 2 ^ 64
  pub checksum : pkt.checksum < 2 ^ 64
  pub opcode : pkt.opcode < 2 ^ 64

-- A leg that fits its header and the buffers.
pub record IsSound (l : Leg) : Type 0 where
  pub header : IsHeader l.pkt
  pub fits : l.pkt.size ≤ kfootsize
  pub whole : length l.payload ≡ l.pkt.size

pub load_ulong-ulong_bytes :
    (n : ℕ) (rest : List ℕ) → n < 2 ^ 64 → load_ulong (ulong_bytes n ++ rest) ≡ done n
unfolding load_ulong ulong_bytes
load_ulong-ulong_bytes n rest fit = ap done (omega arith)

pub length-header_bytes : (pkt : Millipacket) → length (header_bytes pkt) ≡ header_size
unfolding header_bytes ulong_bytes
length-header_bytes pkt = omega arith

pub frames-append : (ls ms : List Leg) → frames (ls ++ ms) ≡ frames ls ++ frames ms
frames-append [] ms = refl
frames-append (l ∷ ls) ms =
    ap (λ bs. frame l ++ bs) (frames-append ls ms)
    ∙ sym (append_assoc (frame l) (frames ls) (frames ms))

-- Five reads that succeed fill the header.
load_header-done :
    (pkt : Millipacket) (bytes : List ℕ)
    → load_ulong bytes ≡ done pkt.preamble
    → load_ulong (drop 8 bytes) ≡ done pkt.leg_id
    → load_ulong (drop 16 bytes) ≡ done pkt.size
    → load_ulong (drop 24 bytes) ≡ done pkt.checksum
    → load_ulong (drop 32 bytes) ≡ done pkt.opcode
    → load_header bytes ≡ done pkt
unfolding load_header
load_header-done pkt bytes a b c d e = rw (a, b, c, d, e) refl

-- The header that was written is read back.
pub load_header-header_bytes :
    (pkt : Millipacket) (rest : List ℕ)
    → IsHeader pkt
    → load_header (header_bytes pkt ++ rest) ≡ done pkt
unfolding header_bytes ulong_bytes
load_header-header_bytes pkt rest ok =
    load_header-done pkt (header_bytes pkt ++ rest)
      (load_ulong-ulong_bytes pkt.preamble _ ok.preamble)
      (load_ulong-ulong_bytes pkt.leg_id _ ok.leg_id) (load_ulong-ulong_bytes pkt.size _ ok.size)
      (load_ulong-ulong_bytes pkt.checksum _ ok.checksum)
      (load_ulong-ulong_bytes pkt.opcode rest ok.opcode)
