-- ===== src/Linux/Tcp.antt =====
-- Sending and receiving on a socket: `_tcp_send` and `_tcp_recv` of util/linux/linux.tcp.c, over
-- the calls of the kernel. The loop of `_tcp_send` runs on fuel, a round for each `send`.
pub mod Sending
pub mod Receiving
mod Tests
use libtr.Base.{
  ℕ, zero, suc, ◌+◌, List, [], ◌∷◌, Option, none, some, Bool, true, false, ltb, ◌==◌, length, take,
  drop, if◌then◌else◌,
}
use libtr.Base.Int.{ℤ, pos, negsuc}
use libtr.Error.{
  Res, ok, stuck, ◌>>=◌, err_tr50_badhandle, err_tr50_tcp_timeout, err_tr50_sock_select_failed,
  err_tr50_sock_other, err_tr50_sock_send_failed, err_tr50_sock_recv_failed, err_tr50_sock_shutdown,
}
use libtr.Mqtt.Net.{Received, got, failed}

-- What `select` answers: that the socket is ready, that the time is over, or an `errno`.
pub data Selected : Type 0 where
  ready : Selected
  timed_out : Selected
  unselected : ℤ → Selected

-- What `send` answers: how many bytes it took, or an `errno`.
pub data Sent : Type 0 where
  accepted : ℕ → Sent
  refused : ℤ → Sent

-- What `recv` answers: bytes, none where the peer has closed the connection, or an `errno`.
pub data Chunk : Type 0 where
  chunk : List ℕ → Chunk
  broken : ℤ → Chunk

-- The kernel, whose state is `W`, and the functions of OpenSSL that `__ssl_send2` and `__ssl_recv2`
-- stand on.
pub record Kernel (W : Type 0) : Type 0 where
  pub select_write : W → Selected × W
  pub select_read : W → Selected × W
  pub send : W → List ℕ → Sent × W
  pub recv : W → ℕ → Chunk × W
  pub errno : W → ℤ
  pub ssl_send : W → List ℕ → ℤ → ℤ × W
  pub ssl_recv : W → ℕ → ℤ → Received × W

-- `ABSTRACT_SOCKET`, with the world it stands in.
pub record Socket (W : Type 0) : Type 0 where
  pub sock_err : ℤ
  pub is_ssl : Bool
  pub world : W

-- `DTCPBUF`.
abbrev pub dtcpbuf : ℕ
dtcpbuf = 65535

-- `timeout < -1` and `timeout > 0`.
abbrev pub bad_timeout : ℤ → Bool
bad_timeout (pos n) = false
bad_timeout (negsuc zero) = false
bad_timeout (negsuc (suc n)) = true

abbrev pub waits : ℤ → Bool
waits (pos n) = ltb 0 n
waits (negsuc n) = false

module _ {W : Type 0} where
  -- The socket in a later world, and with an error noted.
  abbrev pub moved : Socket W → W → Socket W
  moved sock w = record sock { world = w }

  abbrev pub noting : Socket W → W → ℤ → Socket W
  noting sock w code = record { sock_err = code; is_ssl = sock.is_ssl; world = w }

  -- The call of `select`, which is left out where the timeout is not positive.
  abbrev pub selected : ℤ → (W → Selected × W) → W → Selected × W
  selected timeout select w = if waits timeout then select w else (ready, w)

  -- The code and the socket where `select` does not say that the socket is ready.
  abbrev pub not_selected : Socket W → Selected × W → Option (ℤ × Socket W)
  not_selected sock (ready, w) = none
  not_selected sock (timed_out, w) = some (err_tr50_tcp_timeout, noting sock w err_tr50_tcp_timeout)
  not_selected sock (unselected code, w) = some (err_tr50_sock_select_failed, noting sock w code)

module _ {W : Type 0} (kernel : Kernel W) where
  -- The loop of `_tcp_send`, for the bytes that are not sent.
  unfoldable pub send_loop : ℕ → ℤ → List ℕ → Socket W → Res (ℤ × Socket W)
  send_loop zero timeout rest sock = stuck
  send_loop (suc fuel) timeout rest sock =
      let waited = selected timeout kernel.select_write sock.world in
      elim (not_selected sock waited) [
        | some failure ↦ ok failure
        | none ↦
            let (answer, w) = kernel.send waited.1 (take dtcpbuf rest) in
            elim answer [
              | refused code ↦ ok (err_tr50_sock_send_failed, noting sock w code)
              | accepted n ↦ elim (n == length rest) [
                | true ↦ ok (pos 0, moved sock w)
                | false ↦ send_loop fuel timeout (drop n rest) (moved sock w)
              ]
            ]
      ]

  -- `_tcp_send` on a plain socket.
  unfoldable pub plain_send : ℕ → Socket W → List ℕ → ℤ → Res (ℤ × Socket W)
  unfolding send_loop
  plain_send fuel sock buffer timeout = elim (bad_timeout timeout) [
    | true ↦ ok (err_tr50_sock_other, noting sock sock.world (kernel.errno sock.world))
    | false ↦ send_loop fuel timeout buffer sock
  ]

  -- `_tcp_send`, for a length that is not -1. NULL is `none`.
  unfoldable pub tcp_send : ℕ → Option (Socket W) → List ℕ → ℤ → Res (ℤ × Option (Socket W))
  unfolding plain_send
  tcp_send fuel none buffer timeout = ok (err_tr50_badhandle, none)
  tcp_send fuel (some sock) buffer timeout = do
    (ret, sock') ← elim sock.is_ssl [
      | true ↦ let (ret, w) = kernel.ssl_send sock.world buffer timeout in ok (ret, moved sock w)
      | false ↦ plain_send fuel sock buffer timeout
    ]
    ok (ret, some sock')

  -- What `_tcp_recv` makes of the answer of `recv`.
  abbrev pub taken : Socket W → Chunk × W → Received × Socket W
  taken sock (broken code, w) = (failed err_tr50_sock_recv_failed, noting sock w code)
  taken sock (chunk [], w) = (failed err_tr50_sock_shutdown, noting sock w err_tr50_sock_shutdown)
  taken sock (chunk (b ∷ bytes), w) = (got (b ∷ bytes), moved sock w)

  -- `_tcp_recv` of at most `size` bytes, on a plain socket and on any.
  unfoldable pub plain_recv : Socket W → ℕ → ℤ → Received × Socket W
  plain_recv sock size timeout = elim (bad_timeout timeout) [
    | true ↦ (failed err_tr50_tcp_timeout, noting sock sock.world (kernel.errno sock.world))
    | false ↦
        let waited = selected timeout kernel.select_read sock.world in
        elim (not_selected sock waited) [
          | some (code, sock') ↦ (failed code, sock')
          | none ↦ taken sock (kernel.recv waited.1 size)
        ]
  ]

  unfoldable pub recv_on : Socket W → ℕ → ℤ → Received × Socket W
  unfolding plain_recv
  recv_on sock size timeout = elim sock.is_ssl [
    | true ↦ let (answer, w) = kernel.ssl_recv sock.world size timeout in (answer, moved sock w)
    | false ↦ plain_recv sock size timeout
  ]

  unfoldable pub tcp_recv : Option (Socket W) → ℕ → ℤ → Received × Option (Socket W)
  unfolding recv_on
  tcp_recv none size timeout = (failed err_tr50_badhandle, none)
  tcp_recv (some sock) size timeout =
      let (answer, sock') = recv_on sock size timeout in (answer, some sock')
