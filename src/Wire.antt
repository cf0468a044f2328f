-- ===== src/Wire.antt =====
-- cfg.h and util.h: the constants, and what travels on a bearer channel.
pub mod Frame
use viamillipede.Prelude.{ℕ, ◌*◌, ◌≢◌, List, take, arith}

-- The size of every leg buffer.
abbrev pub kfootsize : ℕ
kfootsize = 2048 * 1024

abbrev pub kthreadmax : ℕ
kthreadmax = 16

abbrev pub kreconnectlimit : ℕ
kreconnectlimit = 512

-- `MAXBSIZE` (util.h): the largest single read.
abbrev pub maxbsize : ℕ
maxbsize = 16384

abbrev pub preamble_cannon_ul : ℕ
preamble_cannon_ul = 0xa5a5a5a55a5a5a5a

abbrev pub feed_more : ℕ
feed_more = 0xcafe

abbrev pub end_of_millipede : ℕ
end_of_millipede = 0xdead

pub feed_more-ne-end : feed_more ≢ end_of_millipede
feed_more-ne-end = omega arith

-- `struct millipacket_s`
pub record Millipacket : Type 0 where
  pub preamble : ℕ
  pub leg_id : ℕ
  pub size : ℕ
  pub checksum : ℕ
  pub opcode : ℕ

-- One `writev`: the header and `size` bytes of the buffer.
pub record Leg : Type 0 where
  pub pkt : Millipacket
  pub payload : List ℕ

abbrev pub leg_of : Millipacket → List ℕ → Leg
leg_of pkt buffer = record { pkt = pkt; payload = take pkt.size buffer }
