-- ===== src/Linux/Tcp/Tests.antt =====
-- A kernel that moves one byte in each call, runs of both functions on it, and the theorems at
-- concrete inputs.
use libtr.Base.{
  ℕ, ◌≡◌, refl, List, [], ◌∷◌, ◌++◌, append-nil, some, false, arith, length, ◌<◌, ◌≤◌, take, sym,
}
use libtr.Base.Int.{ℤ, pos}
use libtr.Error.{ok}
use libtr.Mqtt.Net.{Received, got}
use libtr.Linux.Tcp.{
  Kernel, Socket, ready, Sent, accepted, refused, Chunk, chunk, send_loop, plain_send, tcp_send,
  tcp_recv,
}
use libtr.Linux.Tcp.Sending.{Accepts, Delivered, tcp_send-Delivered}
use libtr.Linux.Tcp.Receiving.{Feeds, NextPiece, tcp_recv-NextPiece}

record Pipe : Type 0 where
  incoming : List ℕ
  outgoing : List ℕ

abbrev pipe_send : Pipe → List ℕ → Sent × Pipe
pipe_send pipe [] = (accepted 0, pipe)
pipe_send pipe (b ∷ bytes) = (accepted 1, record pipe { outgoing = pipe.outgoing ++ (b ∷ []) })

abbrev pipe_recv : List ℕ → Pipe → Chunk × Pipe
pipe_recv [] pipe = (chunk [], pipe)
pipe_recv (b ∷ bytes) pipe = (chunk (b ∷ []), record pipe { incoming = bytes })

abbrev slow : Kernel Pipe
slow = record {
  select_write = λ pipe. (ready, pipe);
  select_read = λ pipe. (ready, pipe);
  send = pipe_send;
  recv = λ pipe n. pipe_recv pipe.incoming pipe;
  errno = λ pipe. pos 0;
  ssl_send = λ pipe bytes timeout. (pos 0, pipe);
  ssl_recv = λ pipe n timeout. (got [], pipe);
}

abbrev sock : Socket Pipe
sock = record {
  sock_err = pos 0;
  is_ssl = false;
  world = record { incoming = 7 ∷ 8 ∷ []; outgoing = [] };
}

pipe_accepting :
    (pipe : Pipe) (bytes : List ℕ) (n : ℕ)
    → (pipe_send pipe bytes).0 ≡ accepted n
    → (n ≤ length bytes)
      × (0 < length bytes → 0 < n)
      × ((pipe_send pipe bytes).1.outgoing ≡ pipe.outgoing ++ take n bytes)
pipe_accepting pipe [] n e =
    let none_taken : 0 ≡ n = cc in
    rw (sym none_taken) (omega arith, λ h. h, sym (append-nil pipe.outgoing))
pipe_accepting pipe (b ∷ bytes) n e =
    let one_taken : 1 ≡ n = cc in rw (sym one_taken) (omega arith, λ h. omega arith, refl)

pipe_refusing :
    (pipe : Pipe) (bytes : List ℕ) (code : ℤ)
    → (pipe_send pipe bytes).0 ≡ refused code
    → (pipe_send pipe bytes).1.outgoing ≡ pipe.outgoing
pipe_refusing pipe [] code e = absurd cc
pipe_refusing pipe (b ∷ bytes) code e = absurd cc

slow-Accepts : Accepts slow (λ pipe. pipe.outgoing)
slow-Accepts = record {
  selecting = λ pipe. refl;
  refusing = pipe_refusing;
  accepting = pipe_accepting;
}

pipe_receiving :
    (pipe : Pipe) (incoming : List ℕ) (n b : ℕ) (bytes : List ℕ)
    → 0 < n
    → incoming ≡ b ∷ bytes
    → (xs : List ℕ) × (ys : List ℕ) × ((pipe_recv incoming pipe).0 ≡ chunk (b ∷ xs))
      × (length xs < n)
      × (bytes ≡ xs ++ ys)
      × ((pipe_recv incoming pipe).1.incoming ≡ ys)
pipe_receiving pipe incoming n b bytes some_room e = rw e ([], bytes, refl, some_room, refl, refl)

slow-Feeds : Feeds slow (λ pipe. pipe.incoming)
slow-Feeds = record {
  selecting = λ pipe. refl;
  still = λ pipe. refl;
  closed = λ pipe n e. rw e refl;
  receiving = λ pipe. pipe_receiving pipe pipe.incoming;
}

tcp_send-Delivered_example :
    (ret : ℤ) × (sock' : Socket Pipe) × (tcp_send slow 4 (some sock) (1 ∷ 2 ∷ 3 ∷ []) (pos 500)
      ≡ ok (ret, some sock'))
    × Delivered (λ pipe. pipe.outgoing) sock.world (1 ∷ 2 ∷ 3 ∷ []) ret sock'.world
tcp_send-Delivered_example =
    tcp_send-Delivered slow (λ pipe. pipe.outgoing) slow-Accepts 4 sock (1 ∷ 2 ∷ 3 ∷ []) (pos 500)
      refl (omega arith)

tcp_recv-NextPiece_example :
    (sock' : Socket Pipe) × (answer : Received) × (tcp_recv slow (some sock) 5 (pos 500)
      ≡ (answer, some sock'))
    × NextPiece (λ pipe. pipe.incoming) 5 (7 ∷ 8 ∷ []) answer sock'
tcp_recv-NextPiece_example =
    tcp_recv-NextPiece slow (λ pipe. pipe.incoming) slow-Feeds sock 5 (pos 500) refl refl
      (omega arith)

run_send :
    tcp_send slow 4 (some sock) (1 ∷ 2 ∷ 3 ∷ []) (pos 500)
    ≡ ok (
      pos 0,
      some (record {
        sock_err = pos 0;
        is_ssl = false;
        world = record { incoming = 7 ∷ 8 ∷ []; outgoing = 1 ∷ 2 ∷ 3 ∷ [] };
      }),
    )
unfolding tcp_send plain_send send_loop
run_send = refl
