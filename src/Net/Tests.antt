-- ===== src/Net/Tests.antt =====
-- A host on which every call succeeds, and one that refuses connections.
mod Status
use viamillipede.Prelude.{
  arith, true, ℕ, suc, ◌≡◌, ◌≢◌, ◌⊎◌, refl, Bool, false, some, List, [], ◌∷◌, length, overwrite,
  ◌==◌, if◌then◌else◌,
}
use viamillipede.Prelude.Int.{ℤ, pos, negsuc}
use viamillipede.Tx.Worker.{launched, connecting}
use viamillipede.Net.Calls.{
  Calls, Reply, returns, failed, World, returned, ended, aborted, blocked, M, ◌>>=◌,
}
use viamillipede.Net.Connect.{tcp_connect, tcp_recieve_prep}
use viamillipede.Net.Ends.{Ends}
use viamillipede.Net.Connected.{IsConnected, tcp_connect-IsConnected}
use viamillipede.Net.Listening.{IsListening, tcp_recieve_prep-IsListening}
use viamillipede.Tx.Start.{
  Dialer, okphrase, tx_state_set, connect_next, put_sockfd, greet, exchange, settle_net,
  tx_start_net,
}
use viamillipede.Tx.Start.Once.{tx_start_net-once}
use viamillipede.Rx.Start.{Greeter, accept_worker}
use viamillipede.Rx.Launch.{Group, IsGroup, rxlaunchworkers, rxlaunchworkers-IsGroup}
use viamillipede.Rx.Start.Phrase.{accept_worker-phrase, exchange-reply}

abbrev yoes : List ℕ
yoes = 121 ∷ 111 ∷ 101 ∷ 115 ∷ []

pub joins : (h h' n : ℕ) → ◌≡◌ {A = Reply × ℕ} (returns 0, suc h) (returns n, h') → n ≡ 0
joins h h' n e = cc

refuses : (h h' n : ℕ) → ◌≡◌ {A = Reply × ℕ} (failed 110, suc h) (returns n, h') → n ≡ 0
refuses h h' n e = absurd (cc)

-- The state of the host counts the calls that change it.
abbrev pub near : Calls
near = record {
  Host = ℕ;
  Address = ℕ;
  any = 0;
  gethostbyname = λ host h. (some 127, h);
  socket = λ h. (returns 3, suc h);
  connect = λ fd a port h. (returns 0, suc h);
  bind = λ fd a port h. (returns 0, suc h);
  listen = λ fd n h. (returns 0, suc h);
  accept = λ fd h. (returns 5, suc h);
  setsockopt = λ fd o v h. (returns 0, suc h);
  getsockopt = λ fd o h. (returns 0, h);
  write = λ fd bs h. (returns (length bs), suc h);
  read = λ fd n h. ((returns n, (if n == 2 then okphrase else yoes)), suc h);
  connect-zero = λ fd a port h h' n. joins h h' n;
}

abbrev closed : Calls
closed = record {
  Host = ℕ;
  Address = ℕ;
  any = 0;
  gethostbyname = λ host h. (some 127, h);
  socket = λ h. (returns 3, suc h);
  connect = λ fd a port h. (failed 110, suc h);
  bind = λ fd a port h. (returns 0, suc h);
  listen = λ fd n h. (returns 0, suc h);
  accept = λ fd h. (returns 5, suc h);
  setsockopt = λ fd o v h. (returns 0, suc h);
  getsockopt = λ fd o h. (returns 0, h);
  write = λ fd bs h. (returns (length bs), suc h);
  read = λ fd n h. ((returns n, (if n == 2 then okphrase else yoes)), suc h);
  connect-zero = λ fd a port h h' n. refuses h h' n;
}

abbrev dialer : World ℕ Dialer
dialer = record {
  errno = 0;
  host = 0;
  own = record {
    locked = false;
    state = launched;
    sockfd = negsuc 0;
    targets = record {
      target_port_count = 1;
      target_port_cursor = 0;
      target_ports = record { name = 104 ∷ []; port = 9000 } ∷ [];
    };
  };
}

abbrev greeter : World ℕ Greeter
greeter = record {
  errno = 0;
  host = 0;
  own = record { sockfd = negsuc 0; workercount = 0; buffer = 0 ∷ 0 ∷ 0 ∷ 0 ∷ 0 ∷ [] };
}

tcp_connect-IsConnected_example :
    Ends (IsConnected near (104 ∷ []) 9000 dialer) (tcp_connect near (104 ∷ []) 9000 dialer)
tcp_connect-IsConnected_example = tcp_connect-IsConnected near (104 ∷ []) 9000 dialer refl

tcp_recieve_prep-IsListening_example :
    Ends (IsListening near 9000 greeter) (tcp_recieve_prep near 9000 greeter)
tcp_recieve_prep-IsListening_example = tcp_recieve_prep-IsListening near 9000 greeter refl

abbrev never : ℕ → Bool × ℕ
never h = (false, h)

tx_start_net-once_example :
    tx_start_net near never 0 [] yoes [] dialer
    ≡ (tx_state_set near never connecting >>= λ _. connect_next near never >>= λ fd.
          put_sockfd near never fd >>= λ _. greet near never 0 [] yoes [])
        dialer
tx_start_net-once_example = tx_start_net-once near never 0 [] yoes [] dialer refl

accept_worker-phrase_example :
    (◌≡◌ {A = List ℕ} yoes yoes
      × (accept_worker near 33 107 yoes (pos 4) greeter
          ≡ returned tt (record greeter {
            host = 3;
            own = record {
              sockfd = pos 5;
              workercount = 1;
              buffer = overwrite (0 ∷ 0 ∷ 0 ∷ 0 ∷ 0 ∷ []) 0 yoes;
            };
          })))
    ⊎ (◌≢◌ {A = List ℕ} yoes yoes × (accept_worker near 33 107 yoes (pos 4) greeter ≡ ended 33))
accept_worker-phrase_example =
    accept_worker-phrase near 33 107 yoes yoes (pos 4) 5 greeter 1 2 3 refl refl refl refl refl

exchange-reply_example :
    (◌≡◌ {A = List ℕ} okphrase okphrase
      × (exchange near never 7 (pos 3 ∷ negsuc 65 ∷ []) yoes [] (pos 3) dialer
          ≡ returned
              (pos 2)
              (record dialer { host = 2; own = record dialer.own { locked = false } })))
    ⊎ (◌≢◌ {A = List ℕ} okphrase okphrase
        × (exchange near never 7 (pos 3 ∷ negsuc 65 ∷ []) yoes [] (pos 3) dialer ≡ aborted))
exchange-reply_example =
    exchange-reply near never 7 (pos 3 ∷ negsuc 65 ∷ []) yoes [] okphrase (pos 3) dialer 1 2 refl
      (omega arith) refl refl refl

abbrev group : World ℕ Group
group = record {
  errno = 0;
  host = 0;
  own = record {
    next_leg = 9;
    done_mbox = true;
    socknum = pos 0;
    workers = λ _. record { id = 0; running = false };
  };
}

rxlaunchworkers-IsGroup_example :
    Ends (IsGroup near (λ _. 0) 9000 group) (rxlaunchworkers near (λ _. 0) 9000 group)
rxlaunchworkers-IsGroup_example = rxlaunchworkers-IsGroup near (λ _. 0) 9000 group refl
