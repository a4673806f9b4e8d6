-- ===== src/Linux/Tcp/Receiving.antt =====
-- What `_tcp_recv` takes from the stream of the peer.
use libtr.Base.{
  ℕ, ◌<◌, ◌≡◌, refl, ap, ◌∙◌, List, [], ◌∷◌, ◌++◌, none, some, true, false, length, Bool-cases, inl,
  inr,
}
use libtr.Base.Int.{ℤ}
use libtr.Error.{err_tr50_sock_shutdown}
use libtr.Mqtt.Net.{Received, got, failed}
use libtr.Linux.Tcp.{
  Kernel, Socket, ready, chunk, waits, selected, not_selected, moved, taken, bad_timeout,
  plain_recv, recv_on, tcp_recv,
}

-- What the kernel promises of a stream whose bytes come before the time is over: `content w` are those
-- that the peer has sent and nobody has read, until it closed the connection.
pub record Feeds {W : Type 0} (kernel : Kernel W) (content : W → List ℕ) : Type 0 where
  pub selecting : (w : W) → (kernel.select_read w).0 ≡ ready
  pub still : (w : W) → content (kernel.select_read w).1 ≡ content w
  pub closed : (w : W) (n : ℕ) → content w ≡ [] → (kernel.recv w n).0 ≡ chunk []
  pub receiving :
      (w : W) (n b : ℕ) (bytes : List ℕ)
      → 0 < n
      → content w ≡ b ∷ bytes
      → (xs : List ℕ) × (ys : List ℕ) × ((kernel.recv w n).0 ≡ chunk (b ∷ xs))
        × (length xs < n)
        × (bytes ≡ xs ++ ys)
        × (content (kernel.recv w n).1 ≡ ys)

-- The next piece of a stream: at least one byte and at most `n`, or the end.
abbrev pub NextPiece : {W : Type 0} → (W → List ℕ) → ℕ → List ℕ → Received → Socket W → Type 0
NextPiece content n [] answer sock' =
    (answer ≡ failed err_tr50_sock_shutdown) × (sock'.sock_err ≡ err_tr50_sock_shutdown)
NextPiece content n (b ∷ bytes) answer sock' =
    (xs : List ℕ) × (ys : List ℕ) × (answer ≡ got (b ∷ xs))
    × (length xs < n)
    × (bytes ≡ xs ++ ys)
    × (content sock'.world ≡ ys)

module _ {W : Type 0} (kernel : Kernel W) (content : W → List ℕ)
    (feeds : Feeds kernel content) where
  selected_ready :
      (timeout : ℤ) (sock : Socket W)
      → (not_selected sock (selected timeout kernel.select_read sock.world) ≡ none)
        × (content (selected timeout kernel.select_read sock.world).1 ≡ content sock.world)
  selected_ready timeout sock = elim (Bool-cases (waits timeout)) [
    | inl long ↦ rw long (rw (feeds.selecting sock.world) refl, feeds.still sock.world)
    | inr short ↦ rw short (refl, refl)
  ]

  piece :
      (sock : Socket W) (w : W) (n : ℕ) (stream : List ℕ)
      → 0 < n
      → content w ≡ stream
      → NextPiece content n stream
          (taken kernel sock (kernel.recv w n)).0
          (taken kernel sock (kernel.recv w n)).1
  piece sock w n [] some_room e = rw (feeds.closed w n e) (refl, refl)
  piece sock w n (b ∷ bytes) some_room e =
      let (xs, ys, answer, bound, split, left) = feeds.receiving w n b bytes some_room e in
      rw answer (xs, ys, refl, bound, split, left)

  recv_on-plain :
      (sock : Socket W) (n : ℕ) (timeout : ℤ)
      → sock.is_ssl ≡ false
      → recv_on kernel sock n timeout ≡ plain_recv kernel sock n timeout
  unfolding recv_on
  recv_on-plain sock n timeout plain =
      ap
        (λ b. elim b as (λ _. Received × Socket W) [
          | true ↦
              (let (answer, w) = kernel.ssl_recv sock.world n timeout in (answer, moved sock w))
          | false ↦ plain_recv kernel sock n timeout
        ])
        plain

  plain_recv-ready :
      (sock : Socket W) (n : ℕ) (timeout : ℤ)
      → bad_timeout timeout ≡ false
      → not_selected sock (selected timeout kernel.select_read sock.world) ≡ none
      → plain_recv kernel sock n timeout
        ≡ taken kernel sock (kernel.recv (selected timeout kernel.select_read sock.world).1 n)
  unfolding plain_recv
  plain_recv-ready sock n timeout good unfailed = rw (good, unfailed, plain_recv) refl

  -- On a plain socket whose peer's bytes come in time, `_tcp_recv` takes the next bytes of the stream
  -- in order, at least one and at most as many as were asked for, and at the end of the
  -- stream it gives the code of a connection that was closed and notes it on the socket.
  pub tcp_recv-NextPiece :
      (sock : Socket W) (n : ℕ) (timeout : ℤ)
      → sock.is_ssl ≡ false
      → bad_timeout timeout ≡ false
      → 0 < n
      → (sock' : Socket W) × (answer : Received) × (tcp_recv kernel (some sock) n timeout
          ≡ (answer, some sock'))
        × NextPiece content n (content sock.world) answer sock'
  unfolding tcp_recv
  tcp_recv-NextPiece sock n timeout plain good some_room =
      let waited = selected timeout kernel.select_read sock.world in
      let (unfailed, same) = selected_ready timeout sock in
      let (answer, sock') = taken kernel sock (kernel.recv waited.1 n) in
      (
        sock',
        answer,
        ap (λ (answer, sock'). (answer, some sock'))
            (recv_on-plain sock n timeout plain ∙ plain_recv-ready sock n timeout good unfailed),
        piece sock waited.1 n (content sock.world) some_room same,
      )
