-- ===== src/Net/Tests/Status.antt =====
-- `txstatus` with a worker that is not connected.
use viamillipede.Prelude.{
  ℕ, ◌≤◌, ◌<◌, ◌≡◌, ◌⊎◌, refl, Bool, true, false, [], ◌∷◌, ◌==◌, if◌then◌else◌,
}
use viamillipede.Prelude.Int.{ℤ, pos, negsuc}
use viamillipede.Net.Calls.{Calls, returns, failed, tcp_info, returned, ended}
use viamillipede.Net.Tests.{near}
use viamillipede.Tx.Status.{txstatus, all_open, clear_world, txstatus-all_open}

abbrev is_three : ℤ → Bool
is_three (pos n) = n == 3
is_three (negsuc n) = false

-- Only the descriptor 3 is open; `EBADF` is 9.
abbrev three_open : Calls
three_open = record near { getsockopt = λ fd o h. (if is_three fd then returns 0 else failed 8, h) }

open_works :
    (sfd : ℤ) (h : ℕ)
    → is_three sfd ≡ true
    → (n : ℕ) × (h' : ℕ) × (three_open.getsockopt sfd tcp_info h ≡ (returns n, h'))
open_works sfd h e = (0, h, rw e refl)

shut_fails :
    (sfd : ℤ) (h : ℕ)
    → is_three sfd ≡ false
    → (n : ℕ) × (h' : ℕ) × (three_open.getsockopt sfd tcp_info h ≡ (failed n, h'))
shut_fails sfd h e = (8, h, rw e refl)

-- `txlaunchworkers` leaves -66 in the socket of a worker, and then `txstatus` is called at level 5.
txstatus-all_open_example :
    (6 ≤ 5
      × (txstatus three_open 6 5 (pos 3 ∷ negsuc 65 ∷ []) (clear_world three_open 0 tt)
          ≡ returned tt (clear_world three_open 0 tt)))
    ⊎ (5 < 6
        × (all_open is_three (pos 3 ∷ negsuc 65 ∷ []) ≡ true)
        × (h' : ℕ) × (txstatus three_open 6 5 (pos 3 ∷ negsuc 65 ∷ []) (clear_world three_open 0 tt)
            ≡ returned tt (clear_world three_open h' tt)))
    ⊎ (5 < 6
        × (all_open is_three (pos 3 ∷ negsuc 65 ∷ []) ≡ false)
        × (txstatus three_open 6 5 (pos 3 ∷ negsuc 65 ∷ []) (clear_world three_open 0 tt)
            ≡ ended 4))
txstatus-all_open_example =
    txstatus-all_open three_open {X = Unit {0}} is_three open_works shut_fails 6 5
      (pos 3 ∷ negsuc 65 ∷ []) 0 tt
