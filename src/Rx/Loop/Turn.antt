-- ===== src/Rx/Loop/Turn.antt =====
-- One round of the inner loop of `rxworker`, on a leg whose turn it is, where writes take everything.
use viamillipede.Prelude.{
  ℕ, suc, ◌+◌, ◌≡◌, ◌⊎◌, inl, inr, refl, sym, ap, ◌∙◌, Bool, true, false, List, [], ◌∷◌, ◌++◌,
  append-nil, length, length-append, take, take-length-append, overwrite, ◌==◌, ==_refl,
  if◌then◌else◌, arith,
}
use viamillipede.Prelude.Run.{Run, done, ◌>>=◌}
use viamillipede.Wire.{Millipacket, Leg, feed_more, end_of_millipede}
use viamillipede.Wire.Frame.{header_size, header_bytes, frame, IsSound, length-header_bytes}
use viamillipede.Plumbing.Source.{Source, ReadsTo}
use viamillipede.Plumbing.Sink.{wrote, gathered, Sink}
use viamillipede.Rx.Worker.{Rxconf, head, receive, verify_checksum}
use viamillipede.Rx.Frame.{Taken, read_leg, read_leg-receive}
use viamillipede.Rx.Mishap.{Mishap, read_fails, short_header, header_read}
use viamillipede.Rx.Deliver.{deliver, finish_leg, next_turn}
use viamillipede.Rx.Loop.{over, waiting, Progress, take_turn, inner_loop}

abbrev pub payloads : List Leg → List ℕ
payloads [] = []
payloads (l ∷ ls) = l.payload ++ payloads ls

-- A data leg without a checksum, whose id is `k`.
pub record IsNext (k : ℕ) (l : Leg) : Type 0 where
  pub sound : IsSound l
  pub unsummed : l.pkt.checksum ≡ 0
  pub more : l.pkt.opcode ≡ feed_more
  pub id : l.pkt.leg_id ≡ k

-- Data legs with the ids from `k` on.
abbrev pub AreNext : ℕ → List Leg → Type 0
AreNext k [] = Unit
AreNext k (l ∷ ls) = IsNext k l × AreNext (k + 1) ls

-- A write takes everything.
abbrev pub IsRoomy : Sink → Type 0
IsRoomy sink =
    (s : sink.State) (vs : List (List ℕ))
    → (s' : sink.State) × (sink.writev s vs ≡ (wrote (length (gathered vs)), s'))

take_all : (l : List ℕ) → take (length l) l ≡ l
take_all l = ap (take (length l)) (sym (append-nil l)) ∙ take-length-append l []

front_lem :
    (l : Leg) (base : List ℕ)
    → length l.payload ≡ l.pkt.size
    → take l.pkt.size (overwrite base 0 l.payload) ≡ l.payload
unfolding overwrite
front_lem l base len =
    ap (λ (k : ℕ). take k (overwrite base 0 l.payload)) (sym len) ∙ take-length-append l.payload _

pub finish_feed :
    (ebadrpc : ℕ) (pkt : Millipacket) (buffer : List ℕ) (c : Rxconf)
    → pkt.opcode ≡ feed_more
    → pkt.checksum ≡ 0
    → finish_leg ebadrpc pkt buffer c ≡ done (next_turn c)
unfolding finish_leg verify_checksum
finish_feed ebadrpc pkt buffer c more unsummed =
    let other : (pkt.opcode == end_of_millipede) ≡ false =
      ap (λ (k : ℕ). k == end_of_millipede) more in
    let fed : (pkt.opcode == feed_more) ≡ true = ap (λ (k : ℕ). k == feed_more) more in
    let none : (pkt.checksum == 0) ≡ true = ap (λ (k : ℕ). k == 0) unsummed in
    rw (other, fed, none) refl

pub finish_end :
    (ebadrpc : ℕ) (pkt : Millipacket) (buffer : List ℕ) (c : Rxconf)
    → pkt.opcode ≡ end_of_millipede
    → finish_leg ebadrpc pkt buffer c ≡ done (next_turn (record c { done_mbox = true }))
unfolding finish_leg
finish_end ebadrpc pkt buffer c last =
    let is_last : (pkt.opcode == end_of_millipede) ≡ true =
      ap (λ (k : ℕ). k == end_of_millipede) last in
    rw is_last refl

module _ (sink : Sink) (roomy : IsRoomy sink) where
  open sink use {State, writev, sent, writev-sent}

  -- The payload goes out, and the opcode decides.
  deliver_whole :
      (ebadrpc : ℕ) (l : Leg) (base : List ℕ) (c c' : Rxconf) (out : State)
      → length l.payload ≡ l.pkt.size
      → finish_leg ebadrpc l.pkt
          (overwrite base 0 l.payload)
          (record c { output = c.output ++ l.payload })
        ≡ done c'
      → (out' : State) × (sent out' ≡ sent out ++ l.payload)
        × (deliver sink ebadrpc out l.pkt (overwrite base 0 l.payload) c ≡ done (c', out'))
  unfolding deliver
  deliver_whole ebadrpc l base c c' out len e =
      let buffer = overwrite base 0 l.payload in
      let vectors : List (List ℕ) = take l.pkt.size buffer ∷ [] in
      let (out', wrote_all) = roomy out vectors in
      let front = front_lem l base len in
      let all : gathered vectors ≡ l.payload = append-nil (take l.pkt.size buffer) ∙ front in
      let fits : (length (gathered vectors) == l.pkt.size) ≡ true =
        ap (λ (k : ℕ). k == l.pkt.size) (ap length all ∙ len) ∙ ==_refl l.pkt.size in
      (
        out',
        writev-sent out out' vectors (length (gathered vectors)) wrote_all
            ∙ ap (λ (b : List ℕ). sent out ++ take (length b) b) all
            ∙ ap (λ (b : List ℕ). sent out ++ b) (take_all l.payload),
        rw (wrote_all, fits, front, e) refl,
      )

module _ (src : Source) (sink : Sink) (roomy : IsRoomy sink) (ebadrpc : ℕ)
    (stack : ℕ → List ℕ) where
  open src use {pending}
  open sink use {sent}

  pub open_lem :
      (fuel : ℕ) (buffer : List ℕ) (s : src.State) (c : Rxconf) (out : sink.State)
      {r : Run (Taken src)}
      → c.done_mbox ≡ false
      → read_leg src (stack fuel) buffer s ≡ r
      → inner_loop src sink ebadrpc stack (suc fuel) buffer s c out
        ≡ (r >>= take_turn src sink (inner_loop src sink ebadrpc stack fuel) ebadrpc c out)
  unfolding inner_loop
  open_lem fuel buffer s c out going q =
      ap
        (λ (b : Bool).
          if b
          then done (record { end = over; conf = c; out = out; buffer = buffer })
          else (read_leg src (stack fuel) buffer s
              >>= take_turn src sink (inner_loop src sink ebadrpc stack fuel) ebadrpc c out))
        going
      ∙ ap
          (λ (r : Run (Taken src)).
            r >>= take_turn src sink (inner_loop src sink ebadrpc stack fuel) ebadrpc c out)
          q

  my_turn :
      (again : List ℕ → src.State → Rxconf → sink.State → Run (Progress src sink)) (c c' : Rxconf)
      (out out' : sink.State) (pkt : Millipacket) (buffer : List ℕ) (rest : src.State)
      → pkt.leg_id ≡ c.next_leg
      → deliver sink ebadrpc out pkt buffer c ≡ done (c', out')
      → take_turn src sink again ebadrpc c out
          (record { pkt = pkt; restartme = false; buffer = buffer; rest = rest })
        ≡ again buffer rest c' out'
  unfolding take_turn
  my_turn again c c' out out' pkt buffer rest id q =
      ap
        (λ (b : Bool).
          if b
          then (deliver sink ebadrpc out pkt buffer c >>= λ r. again buffer rest r.0 r.1)
          else done (record { end = waiting; conf = c; out = out; buffer = buffer }))
        (ap (λ (k : ℕ). k == c.next_leg) id ∙ ==_refl c.next_leg)
      ∙ ap (λ (r : Run (Rxconf × sink.State)). r >>= λ r. again buffer rest r.0 r.1) q

  -- A round whose leg is delivered, or a mishap.
  pub turn_lem :
      (l : Leg) (more buffer : List ℕ) (fuel : ℕ) (s : src.State) (c c' : Rxconf) (out : sink.State)
      → IsSound l
      → l.pkt.leg_id ≡ c.next_leg
      → c.done_mbox ≡ false
      → pending s ≡ frame l ++ more
      → finish_leg ebadrpc l.pkt
          (overwrite buffer 0 l.payload)
          (record c { output = c.output ++ l.payload })
        ≡ done c'
      → Mishap src s (inner_loop src sink ebadrpc stack (suc fuel) buffer s c out)
        ⊎ ((buffer' : List ℕ) × (rest : src.State) × (out' : sink.State) × ReadsTo src s rest
            × (pending rest ≡ more)
            × (sent out' ≡ sent out ++ l.payload)
            × (inner_loop src sink ebadrpc stack (suc fuel) buffer s c out
                ≡ inner_loop src sink ebadrpc stack fuel buffer' rest c' out'))
  unfolding receive
  turn_lem l more buffer fuel s c c' out sound id going holds e =
      let (out', put, delivered) =
        deliver_whole sink roomy ebadrpc l buffer c c' out sound.whole e in
      elim (header_read src s (omega (arith, ap length holds, enough))) [
        | inl short ↦ inl (short_header short)
        | inr (bs, s', r, full) ↦
            elim (read_leg-receive src l (record { pc = head; buffer = buffer }) more (stack fuel)
              bs s s' sound holds r full) [
                | inl (f, ended) ↦ inl (read_fails f (open_lem fuel buffer s c out going ended))
                | inr (rest, reached, left, q) ↦ inr (
                  overwrite buffer 0 l.payload,
                  rest,
                  out',
                  reached,
                  left,
                  put,
                  open_lem fuel buffer s c out going q
                      ∙ my_turn (inner_loop src sink ebadrpc stack fuel) c c' out out' l.pkt
                          (overwrite buffer 0 l.payload) rest id delivered,
                )
              ]
      ]
    where
      enough : length (frame l ++ more) ≡ header_size + length l.payload + length more
      enough = omega (
        arith,
        length-append (frame l) more,
        length-append (header_bytes l.pkt) l.payload,
        length-header_bytes l.pkt,
      )
