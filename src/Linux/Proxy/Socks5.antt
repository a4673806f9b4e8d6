-- ===== src/Linux/Proxy/Socks5.antt =====
-- The requests to a SOCKS 5 proxy: `_socket_proxy_setup_socks5` of util/linux/linux.tcp_proxy.c,
-- with a `char` that has a sign. `buf` is the block of 512 bytes on the stack, whose content at
-- the start is given, and a negative index or length is an access outside of it.
pub mod Layout
pub mod Request
pub mod Talk
use libtr.Base.{
  ℕ, zero, suc, ◌+◌, ◌-◌, ◌%◌, List, [], ◌∷◌, ◌++◌, Option, none, some, ltb, ◌==◌, length, take,
  replicate, if◌then◌else◌,
}
use libtr.Base.Int.{ℤ, pos, negsuc, sub_ℕ}
use libtr.Error.{
  Res, ok, fault, ◌>>=◌, err_tr50_sock_hostnotfound, err_tr50_sock_proxy_auth_rejected,
  err_tr50_sock_proxy_auth_unsup, err_tr50_sock_proxy_other,
}
use libtr.Memory.{memcpy, peek, read}
use libtr.Linux.Proxy.{
  Peer, SockaddrIn, quad_bytes, port_bytes, uses_hostname, host_of, make_addr, sending, receiving,
}

-- What `strncpy` writes for a limit of `n`.
abbrev pub strncpy_bytes : ℕ → List ℕ → List ℕ
strncpy_bytes n text = take n text ++ replicate (n - length text) 0

-- `buf[idx] + 1 + idx` where `buf[idx]` is the length of a text, stored in a `char`.
abbrev pub index_behind : ℕ → ℕ → ℤ
index_behind idx len =
    if ltb (len % 256) 128 then pos (idx + len % 256 + 1) else sub_ℕ (idx + len % 256) 255

-- The length of a text at `idx`, and the text behind it, with the next index. NULL is `none`.
unfoldable pub put_text : List ℕ → ℕ → ℕ → Option (List ℕ) → Res (List ℕ × ℤ)
put_text buf idx limit none = do buf ← memcpy buf idx (0 ∷ []); ok (buf, pos (idx + 1))
put_text buf idx limit (some text) = do
  buf ← memcpy buf idx (length text % 256 ∷ [])
  buf ← memcpy buf (idx + 1) (strncpy_bytes limit text)
  ok (buf, index_behind idx (length text))

-- An index into the buffer.
abbrev pub index_of : ℤ → Res ℕ
index_of (pos n) = ok n
index_of (negsuc n) = fault

-- The user and the password.
unfoldable pub credentials : List ℕ → Option (List ℕ) → Option (List ℕ) → Res (List ℕ × ℤ)
unfolding put_text
credentials buf user pass = do
  buf ← memcpy buf 0 (1 ∷ [])
  (buf, behind_user) ← put_text buf 1 255 user
  buf_idx ← index_of behind_user
  put_text buf buf_idx (256 - buf_idx) pass

-- The name of the host, or the address.
unfoldable pub destination : List ℕ → List ℕ → SockaddrIn → Res (List ℕ × ℤ)
unfolding put_text uses_hostname host_of
destination buf addr sin =
    if uses_hostname addr
    then (do buf ← memcpy buf 3 (3 ∷ []); host ← host_of addr; put_text buf 4 252 (some host))
    else (do
      buf ← memcpy buf 3 (1 ∷ [])
      buf ← memcpy buf 4 (quad_bytes sin.sin_addr)
      ok (buf, pos 8))

-- The request, and how many bytes of the buffer it has.
unfoldable pub connect_request : List ℕ → List ℕ → SockaddrIn → Res (List ℕ × ℕ)
unfolding destination
connect_request buf addr sin = do
  buf ← memcpy buf 0 (5 ∷ 1 ∷ 0 ∷ [])
  (buf, behind) ← destination buf addr sin
  buf_idx ← index_of behind
  buf ← memcpy buf buf_idx (port_bytes sin)
  ok (buf, buf_idx + 2)

-- The text at the start of the buffer, with its terminator.
abbrev pub c_string : List ℕ → Res (List ℕ)
c_string [] = fault
c_string (c ∷ buf) = if c == 0 then ok (0 ∷ []) else (do text ← c_string buf; ok (c ∷ text))

-- The bytes that `_tcp_send` takes for a length: -1 stands for that of the text.
abbrev pub sized : List ℕ → ℤ → Res (List ℕ)
sized buf (pos n) = read buf 0 n
sized buf (negsuc zero) = c_string buf
sized buf (negsuc (suc n)) = fault

module _ {W : Type 0} (peer : Peer W) where
  abbrev pub granted : List ℕ → W → Res (ℤ × W)
  granted buf w = ok (pos 0, w)

  -- The rest of a name and the port: the length of the name stands at the index 4.
  unfoldable pub reading_name : List ℕ → W → Res (ℤ × W)
  reading_name buf w = do
    len ← peek buf 4
    if ltb len 128 then receiving peer buf len w granted else fault

  -- What is read behind the first six bytes of a reply: by the kind of its address, the rest of
  -- four bytes and the port, or of a name and the port.
  unfoldable pub reading_address : List ℕ → W → Res (ℤ × W)
  unfolding reading_name
  reading_address buf w = do
    kind ← peek buf 3
    if kind == 1
        then receiving peer buf 4 w granted
        else if kind == 3
        then receiving peer buf 1 w reading_name
        else ok (pos 0, w)

  unfoldable pub replied : List ℕ → W → Res (ℤ × W)
  unfolding reading_address
  replied buf w = do
    code ← peek buf 1
    if code == 0 then reading_address buf w else ok (err_tr50_sock_proxy_other, w)

  -- The request for the connection, behind the authentication.
  unfoldable pub connecting : List ℕ → SockaddrIn → List ℕ → W → Res (ℤ × W)
  unfolding connect_request replied
  connecting addr sin buf w = do
    (buf, buf_idx) ← connect_request buf addr sin
    request ← read buf 0 buf_idx
    sending peer request w (λ w. receiving peer buf 6 w replied)

  -- The answer to the authentication.
  unfoldable pub authenticated : (List ℕ → W → Res (ℤ × W)) → List ℕ → W → Res (ℤ × W)
  authenticated next buf w = do
    status ← peek buf 1
    if status == 0 then next buf w else ok (err_tr50_sock_proxy_auth_rejected, w)

  -- The authentication, which the proxy asks for by the method 2.
  unfoldable pub authenticating :
      Option (List ℕ) → Option (List ℕ) → (List ℕ → W → Res (ℤ × W)) → List ℕ → W → Res (ℤ × W)
  unfolding credentials authenticated
  authenticating user pass next buf w = do
    (buf, behind) ← credentials buf user pass
    message ← sized buf behind
    sending peer message w (λ w. receiving peer buf 2 w (authenticated next))

  -- The choice of the method by the proxy.
  unfoldable pub choosing :
      Option (List ℕ) → Option (List ℕ) → (List ℕ → W → Res (ℤ × W)) → List ℕ → W → Res (ℤ × W)
  unfolding authenticating
  choosing user pass next buf w = do
    method ← peek buf 1
    if method == 255
        then ok (err_tr50_sock_proxy_auth_unsup, w)
        else if method == 2
        then authenticating user pass next buf w
        else next buf w

  -- `_socket_proxy_setup_socks5`.
  unfoldable pub setup_socks5 :
      List ℕ → List ℕ → Option (List ℕ) → Option (List ℕ) → W → Res (ℤ × W)
  unfolding host_of make_addr choosing connecting
  setup_socks5 buf addr user pass w = do
    host ← host_of addr
    elim (make_addr peer.gethostbyname addr).1 [
      | none ↦ ok (err_tr50_sock_hostnotfound, w)
      | some sin ↦ (do
        buf ← memcpy buf 0 (5 ∷ 2 ∷ 2 ∷ 0 ∷ [])
        sending peer (5 ∷ 2 ∷ 2 ∷ 0 ∷ []) w
            (λ w. receiving peer buf 2 w (choosing user pass (connecting addr sin))))
    ]
