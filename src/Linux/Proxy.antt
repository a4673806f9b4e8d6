-- ===== src/Linux/Proxy.antt =====
-- The requests to a SOCKS 4 proxy: `make_addr`, `_socket_proxy_uses_hostname`,
-- `_socket_proxy_setup_socks4` and `_socket_proxy_setup_socks4a` of util/linux/linux.tcp_proxy.c.
-- Names are resolved by `gethostbyname`, a parameter. The functions return a code and the world
-- behind it, and read and write their buffers as lists.
pub mod Base64
pub mod Socks4
pub mod Socks5
mod Tests
use libtr.Base.{
  ℕ, zero, suc, ◌+◌, ◌-◌, ◌/◌, ◌%◌, List, [], ◌∷◌, ◌++◌, Option, none, some, Bool, true, false,
  ◌&&◌, ◌||◌, leb, ltb, ◌==◌, length, take, drop, if◌then◌else◌, get_elem?,
}
use libtr.Base.Int.{ℤ, pos, negsuc, is_zero}
use libtr.Error.{
  Res, ok, fault, ◌>>=◌, err_tr50_sock_hostnotfound, err_tr50_sock_proxy_auth_rejected,
  err_tr50_sock_proxy_other,
}
use libtr.Mqtt.Net.{Received, got, failed}
use libtr.Tr50.Client.Decimal.{atoi}

-- The four bytes of an address in `struct sockaddr_in`, in the order of the network.
pub record Quad : Type 0 where
  pub a : ℕ
  pub b : ℕ
  pub c : ℕ
  pub d : ℕ

abbrev pub quad_bytes : Quad → List ℕ
quad_bytes q = q.a ∷ q.b ∷ q.c ∷ q.d ∷ []

pub record SockaddrIn : Type 0 where
  pub sin_addr : Quad
  pub sin_port : ℕ

-- The bytes of `sin_port` in memory, highest first.
abbrev pub port_bytes : SockaddrIn → List ℕ
port_bytes sin = sin.sin_port / 256 ∷ sin.sin_port % 256 ∷ []

-- What stands before the first ':', and what stands behind it.
abbrev pub before_colon : List ℕ → List ℕ
before_colon [] = []
before_colon (c ∷ s) = if c == 58 then [] else c ∷ before_colon s

abbrev pub behind_colon : List ℕ → Option (List ℕ)
behind_colon [] = none
behind_colon (c ∷ s) = if c == 58 then some s else behind_colon s

-- The conversion of a `long` to `unsigned short`.
abbrev pub to_short : ℤ → ℕ
to_short (pos n) = n % 65536
to_short (negsuc n) = 65535 - n % 65536

abbrev pub port_of : Option (List ℕ) → ℕ
port_of none = 0
port_of (some digits) = to_short (atoi digits)

-- `make_addr`: what it leaves in `addr`, and the address unless the code is that of an unknown host.
-- Where the host is unknown, the ':' that was overwritten with a terminator is not put back.
unfoldable pub make_addr : (List ℕ → Option Quad) → List ℕ → List ℕ × Option SockaddrIn
make_addr gethostbyname addr = elim (gethostbyname (before_colon addr)) [
  | none ↦ (before_colon addr, none)
  | some quad ↦ (addr, some (record { sin_addr = quad; sin_port = port_of (behind_colon addr) }))
]

abbrev pub host_byte : ℕ → Bool
host_byte c = (leb 48 c && leb c 57) || (c == 46 || c == 58)

-- `_socket_proxy_uses_hostname`.
unfoldable pub uses_hostname : List ℕ → Bool
uses_hostname [] = false
uses_hostname (c ∷ addr) = if host_byte c then uses_hostname addr else true

-- `strncpy(host, addr, 255)` and the cut at the ':'. An address of 255 bytes or more without one among
-- them leaves `host` without a terminator, and `strchr` reads on.
unfoldable pub host_of : List ℕ → Res (List ℕ)
host_of addr = elim (behind_colon (take 255 addr)) [
  | some port ↦ ok (before_colon (take 255 addr))
  | none ↦ if ltb (length addr) 255 then ok addr else fault
]

-- The bytes of `buf` behind a read of `bytes` into it.
abbrev pub overlay : List ℕ → List ℕ → List ℕ
overlay bytes buf = bytes ++ drop (length bytes) buf

-- The code for the second byte of the reply.
abbrev pub socks4_code : List ℕ → ℤ
socks4_code [] = err_tr50_sock_proxy_other
socks4_code (version ∷ []) = err_tr50_sock_proxy_other
socks4_code (version ∷ code ∷ rest) =
    if code == 90
    then pos 0
    else if code == 93
    then err_tr50_sock_proxy_auth_rejected
    else err_tr50_sock_proxy_other

-- `_tcp_send` and `_tcp_recv` on the handle, in a world `W`.
pub record Peer (W : Type 0) : Type 0 where
  pub tcp_send : W → List ℕ → ℤ × W
  pub tcp_recv : W → ℕ → Received × W
  pub gethostbyname : List ℕ → Option Quad

module _ {W : Type 0} (peer : Peer W) where
  -- A call of `_tcp_send`, and the return where its code is not 0.
  abbrev pub sending : List ℕ → W → (W → Res (ℤ × W)) → Res (ℤ × W)
  sending bytes w next =
      let (ret, w') = peer.tcp_send w bytes in
      elim (is_zero ret) [ true ↦ next w' | false ↦ ok (ret, w') ]

  -- A call of `_tcp_recv` for `n` bytes into `buf`, and the return where it fails. It is called once,
  -- as in the source: where it takes fewer bytes, the others of `buf` stay as they were.
  abbrev pub receiving : List ℕ → ℕ → W → (List ℕ → W → Res (ℤ × W)) → Res (ℤ × W)
  receiving buf n w next =
      let (answer, w') = peer.tcp_recv w n in
      elim answer [ failed ret ↦ ok (ret, w') | got bytes ↦ next (overlay bytes buf) w' ]

  -- The first sends: the nine bytes of `buf`, or eight of them and the name of the user.
  abbrev pub sending_user : List ℕ → Option (List ℕ) → W → (W → Res (ℤ × W)) → Res (ℤ × W)
  sending_user buf none w next = sending buf w next
  sending_user buf (some user) w next =
      sending (take 8 buf) w (λ w'. sending (user ++ (0 ∷ [])) w' next)

  abbrev pub reading_reply : List ℕ → W → Res (ℤ × W)
  reading_reply buf w = receiving buf 8 w (λ buf' w'. ok (socks4_code buf', w'))

  abbrev pub socks4_buf : SockaddrIn → List ℕ
  socks4_buf sin = 4 ∷ 1 ∷ (port_bytes sin ++ (quad_bytes sin.sin_addr ++ (0 ∷ [])))

  -- `_socket_proxy_setup_socks4`.
  unfoldable pub setup_socks4 : List ℕ → Option (List ℕ) → W → Res (ℤ × W)
  unfolding make_addr
  setup_socks4 addr user w = elim (make_addr peer.gethostbyname addr).1 [
    | none ↦ ok (err_tr50_sock_hostnotfound, w)
    | some sin ↦ sending_user (socks4_buf sin) user w (reading_reply (socks4_buf sin))
  ]

  abbrev pub socks4a_buf : SockaddrIn → List ℕ
  socks4a_buf sin = 4 ∷ 1 ∷ (port_bytes sin ++ (0 ∷ 0 ∷ 0 ∷ 3 ∷ 0 ∷ []))

  -- `_socket_proxy_setup_socks4a`.
  unfoldable pub setup_socks4a : List ℕ → Option (List ℕ) → W → Res (ℤ × W)
  unfolding make_addr host_of
  setup_socks4a addr user w = do
    host ← host_of addr
    elim (make_addr peer.gethostbyname addr).1 [
      | none ↦ ok (err_tr50_sock_hostnotfound, w)
      | some sin ↦
          sending_user (socks4a_buf sin) user w
            (λ w'. sending (host ++ (0 ∷ [])) w' (reading_reply (socks4a_buf sin)))
    ]
