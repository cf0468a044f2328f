-- ===== src/Relay.antt =====
-- terminate.c, and `initiate_relay` (viamillipede.c): the descriptors that the stream comes from and
-- goes to. What `tcp_accept` and `tcp_connect` return is an argument.
pub mod Polls
mod Tests
use viamillipede.Prelude.{
  ℕ, ◌+◌, ◌<◌, ◌≤◌, ◌≡◌, ◌⊎◌, inl, inr, refl, Bool, true, false, ◌&&◌, Bool-cases, ltb, ltb→lt,
  le→ltb, if◌then◌else◌, arith,
}
use viamillipede.Prelude.Run.{Run, done, abort, ◌>>=◌}
use viamillipede.Prelude.Int.{ℤ, pos, negsuc}

-- The ports of `struct ioconf_s`; 0 stands for no such option.
pub record Ioconf : Type 0 where
  pub terminate_port : ℕ
  pub initiate_port : ℕ

-- `input_fd` of `struct txconf_s`, `output_fd` of `struct rxconf_s`, and `ginitiator_oneshot`
pub record Descriptors : Type 0 where
  pub input_fd : ℤ
  pub output_fd : ℤ
  pub ginitiator_oneshot : ℕ

abbrev pub stdin_fileno : ℤ
stdin_fileno = pos 0

abbrev pub stdout_fileno : ℤ
stdout_fileno = pos 1

-- `b < a`, for a `b` that is no less than 0
unfoldable pub above : ℕ → ℤ → Bool
above b (pos n) = ltb b n
above b (negsuc n) = false

unfoldable pub is_negative : ℤ → Bool
is_negative (pos n) = false
is_negative (negsuc n) = true

-- The value returned, and the descriptors behind the call.
unfoldable pub terminate : ℤ → Ioconf → Descriptors → Run (ℤ × Descriptors)
unfolding above
terminate accepted io d =
    if ltb 0 io.terminate_port
    then (if above 2 accepted
        then done (accepted, record d { input_fd = accepted; output_fd = accepted })
        else abort)
    else if ltb 0 io.initiate_port
    then done (pos 1, d)
    else done (stdin_fileno, record d { input_fd = stdin_fileno })

unfoldable pub initiate : ℤ → Ioconf → Descriptors → ℤ × Descriptors
initiate connected io d =
    if ltb 0 io.initiate_port
    then (connected, record d { input_fd = connected; output_fd = connected })
    else if ltb 0 io.terminate_port
    then (pos 1, d)
    else (stdout_fileno, record d { output_fd = stdout_fileno })

-- The first call initiates and starts the ingest thread; every other call returns 0 at once.
unfoldable pub initiate_relay : ℤ → Ioconf → Descriptors → Run (ℤ × Descriptors)
unfolding initiate above
initiate_relay connected io d =
    let r = initiate connected io (record d { ginitiator_oneshot = d.ginitiator_oneshot + 1 }) in
    if ltb 0 d.ginitiator_oneshot then done (pos 0, d) else if above 0 r.0 then done r else abort

-- `main` behind the launch of the workers, and the first `initiate_relay`, which `main` or the receiver
-- calls.
unfoldable pub plumb : ℤ → ℤ → Ioconf → Descriptors → Run (ℤ × Descriptors)
unfolding terminate initiate_relay is_negative
plumb accepted connected io d =
    let run = terminate accepted io d >>= λ r.
    if is_negative r.0 then abort else initiate_relay connected io r.1 in
    if ltb 0 io.terminate_port && ltb 0 io.initiate_port then abort else run

-- The stream of a process with `terminate` is on the accepted connection, that of one with `initiate`
-- on the connection that it made, and otherwise it comes from stdin and goes to stdout.
abbrev pub stream_fds : ℤ → ℤ → Ioconf → ℤ × ℤ
stream_fds accepted connected io =
    if ltb 0 io.terminate_port
    then (accepted, accepted)
    else if ltb 0 io.initiate_port
    then (connected, connected)
    else (stdin_fileno, stdout_fileno)

abbrev pub plumbed : ℤ → ℤ → Ioconf → Descriptors
plumbed accepted connected io = record {
  input_fd = (stream_fds accepted connected io).0;
  output_fd = (stream_fds accepted connected io).1;
  ginitiator_oneshot = 1;
}

-- With at most one of `terminate` and `initiate`, an accepted connection above the standard
-- descriptors and a successful connection, no assertion fails, both descriptors are those of the
-- stream, and a second `initiate_relay`, even after another connection, changes nothing.
pub plumb-stream_fds :
    (a c : ℕ) (io : Ioconf) (d : Descriptors) (other : ℤ)
    → 2 < a
    → 0 < c
    → (io.terminate_port ≡ 0) ⊎ (io.initiate_port ≡ 0)
    → d.ginitiator_oneshot ≡ 0
    → (r : ℤ) × (plumb (pos a) (pos c) io d ≡ done (r, plumbed (pos a) (pos c) io))
      × (initiate_relay other io (plumbed (pos a) (pos c) io)
          ≡ done (pos 0, plumbed (pos a) (pos c) io))
unfolding plumb
plumb-stream_fds a c io d other above_std made one fresh =
    elim (Bool-cases (ltb 0 io.terminate_port)) [
      | inl t ↦
          let alone : ltb 0 io.initiate_port ≡ false = ground (arith, one, t) in
          (pos 1, ground arith, refl)
      | inr t ↦ elim (Bool-cases (ltb 0 io.initiate_port)) [
        | inl i ↦ (pos c, ground arith, refl)
        | inr i ↦ (pos 1, ground arith, refl)
      ]
    ]
