-- ===== src/Linux/Proxy/Socks5/Talk.antt =====
-- What the client of a SOCKS 5 proxy sends and reads where the proxy grants the connection.
use libtr.Base.{
  ℕ, suc, ◌+◌, ◌<◌, ◌≡◌, refl, sym, ap, ◌∙◌, List, [], ◌∷◌, ◌++◌, append-nil, Option, some, Bool,
  true, false, length, drop, length-append, length-drop, lt→ltb, arith,
}
use libtr.Base.Int.{ℤ, pos}
use libtr.Error.{Res, ok}
use libtr.Memory.{peek}
use libtr.Memory.Laws.{memcpy-append}
use libtr.Linux.Proxy.{
  Peer, Quad, SockaddrIn, port_of, before_colon, behind_colon, uses_hostname, host_of, make_addr,
  overlay, sending, receiving,
}
use libtr.Linux.Proxy.Socks4.{Talks, Ends, name_of, sending-Ends, Ends-request}
use libtr.Linux.Proxy.Socks5.{
  granted, reading_name, reading_address, replied, authenticated, connecting, authenticating,
  choosing, setup_socks5,
}
use libtr.Linux.Proxy.Socks5.Layout.{field, credentials_layout}
use libtr.Linux.Proxy.Socks5.Request.{request5, read-front, connect_request_layout}

-- A reply that grants the connection, with an address of version 4 or the name of a host. One with an
-- address of version 6 is not among them: the source does not read it to its end.
pub data IsGrant : List ℕ → Type 0 where
  by_address : (a b c d p q : ℕ) → IsGrant (5 ∷ 0 ∷ 0 ∷ 1 ∷ a ∷ b ∷ c ∷ d ∷ p ∷ q ∷ [])
  by_name :
      (x y z : ℕ) (more : List ℕ)
      → suc (length more) < 128
      → IsGrant (5 ∷ 0 ∷ 0 ∷ 3 ∷ suc (length more) ∷ x ∷ y ∷ z ∷ more)

-- What the proxy sends in front of its reply: the method, and its answer to the authentication.
abbrev pub method_bytes : Bool → List ℕ
method_bytes true = 5 ∷ 2 ∷ 1 ∷ 0 ∷ []
method_bytes false = 5 ∷ 0 ∷ []

abbrev pub authentication : Bool → Option (List ℕ) → Option (List ℕ) → List ℕ
authentication true user pass = (1 ∷ field (name_of user)) ++ field (name_of pass)
authentication false user pass = []

module _ {W : Type 0} (peer : Peer W) (sent content : W → List ℕ)
    (talks : Talks peer sent content) where
  receiving-Ends :
      (buf : List ℕ) (n : ℕ) (w : W) (b : ℕ) (piece behind : List ℕ)
      (next : List ℕ → W → Res (ℤ × W)) (code : ℤ) (request rest : List ℕ)
      → n ≡ suc (length piece)
      → content w ≡ (b ∷ piece) ++ behind
      → ((w' : W)
          → content w' ≡ behind
          → Ends sent content w' (next (overlay (b ∷ piece) buf) w') code request rest)
      → Ends sent content w (receiving peer buf n w next) code request rest
  receiving-Ends buf n w b piece behind next code request rest size e run =
      let (taken, left, same) = talks.takes w n b piece behind size e in
      let (w', result, went, unread) = run (peer.tcp_recv w n).1 left in
      (w', rw (taken, receiving) result, went ∙ ap (λ t. t ++ request) same, unread)

  done-Ends :
      (w : W) (rest : List ℕ)
      → content w ≡ rest
      → Ends sent content w (ok (pos 0, w)) (pos 0) [] rest
  done-Ends w rest e = (w, refl, sym (append-nil (sent w)), e)

  reading_name-Ends :
      (buf : List ℕ) (w : W) (z : ℕ) (more rest : List ℕ)
      → peek buf 4 ≡ ok (suc (length more))
      → suc (length more) < 128
      → content w ≡ (z ∷ more) ++ rest
      → Ends sent content w (reading_name peer buf w) (pos 0) [] rest
  unfolding reading_name
  reading_name-Ends buf w z more rest len short e =
      rw (len, lt→ltb (suc (length more)) 128 short, reading_name)
        (receiving-Ends buf (suc (length more)) w z more rest (granted peer) (pos 0) [] rest refl e
          (λ w' e'. done-Ends w' rest e'))

  -- The reply to the request is read to its end, and no more.
  replied-Ends :
      (buf : List ℕ) (w : W) (reply rest : List ℕ)
      → IsGrant reply
      → content w ≡ reply ++ rest
      → Ends sent content w (receiving peer buf 6 w (replied peer)) (pos 0) [] rest
  unfolding replied reading_address peek
  replied-Ends buf w _ rest (by_address a b c d p q) e =
      receiving-Ends buf 6 w 5 (0 ∷ 0 ∷ 1 ∷ a ∷ b ∷ []) ((c ∷ d ∷ p ∷ q ∷ []) ++ rest)
        (replied peer) (pos 0) [] rest refl e
        (λ w' e'.
          receiving-Ends (overlay (5 ∷ 0 ∷ 0 ∷ 1 ∷ a ∷ b ∷ []) buf) 4 w' c (d ∷ p ∷ q ∷ []) rest
            (granted peer) (pos 0) [] rest refl e' (λ w'' e''. done-Ends w'' rest e''))
  replied-Ends buf w _ rest (by_name x y z more short) e =
      let len = suc (length more) in
      let front = overlay (5 ∷ 0 ∷ 0 ∷ 3 ∷ len ∷ x ∷ []) buf in
      receiving-Ends buf 6 w 5 (0 ∷ 0 ∷ 3 ∷ len ∷ x ∷ []) ((y ∷ z ∷ more) ++ rest) (replied peer)
        (pos 0) [] rest refl e
        (λ w' e'.
          receiving-Ends front 1 w' y [] ((z ∷ more) ++ rest) (reading_name peer) (pos 0) [] rest
            refl e'
            (λ w'' e''. reading_name-Ends (overlay (y ∷ []) front) w'' z more rest refl short e''))

  -- The request and its reply.
  connecting-Ends :
      (addr host : List ℕ) (sin : SockaddrIn) (buf : List ℕ) (w : W) (reply rest : List ℕ)
      → length buf ≡ 512
      → host_of addr ≡ ok host
      → length host < 128
      → IsGrant reply
      → content w ≡ reply ++ rest
      → Ends sent content w
          (connecting peer addr sin buf w)
          (pos 0)
          (request5 (uses_hostname addr) host sin)
          rest
  unfolding connecting
  connecting-Ends addr host sin buf w reply rest size fits short grant e =
      let (old, built) = connect_request_layout buf addr host sin size fits short in
      let request = request5 (uses_hostname addr) host sin in
      let next = λ (w' : W). receiving peer (request ++ old) 6 w' (replied peer) in
      rw (built, connecting)
        (rw (read-front request old (length request) refl) (
          Ends-request peer sent content talks w (sending peer request w next) (pos 0)
            (request ++ []) request rest (append-nil request)
            (sending-Ends peer sent content talks request w next (pos 0) [] rest
              (λ w' same. replied-Ends (request ++ old) w' reply rest grant (same ∙ e)))))

  -- The user and the password, and the answer that accepts them.
  authenticating-Ends :
      (user pass : Option (List ℕ)) (next : List ℕ → W → Res (ℤ × W)) (buf : List ℕ) (w : W)
      (version : ℕ) (behind : List ℕ) (code : ℤ) (request rest : List ℕ)
      → length buf ≡ 512
      → length (name_of user) < 128
      → length (name_of pass) < 128
      → content w ≡ (version ∷ 0 ∷ []) ++ behind
      → ((buf' : List ℕ) (w' : W)
          → length buf' ≡ 512
          → content w' ≡ behind
          → Ends sent content w' (next buf' w') code request rest)
      → Ends sent content w
          (authenticating peer user pass next buf w)
          code
          (((1 ∷ field (name_of user)) ++ field (name_of pass)) ++ request)
          rest
  unfolding authenticating authenticated peek
  authenticating-Ends user pass next buf w version behind code request rest size short_user
        short_pass e run =
      let (old, built, left) = credentials_layout buf user pass size short_user short_pass in
      let message = (1 ∷ field (name_of user)) ++ field (name_of pass) in
      let total : 3 + length (name_of user) + length (name_of pass) ≡ length message =
        omega (arith, length-append (name_of user) (field (name_of pass))) in
      let answer = λ (w' : W). receiving peer (message ++ old) 2 w' (authenticated peer next) in
      rw (built, authenticating)
        (rw (read-front message old (3 + length (name_of user) + length (name_of pass)) total) (
          sending-Ends peer sent content talks message w answer code request rest (λ w' same.
            receiving-Ends (message ++ old) 2 w' version (0 ∷ []) behind (authenticated peer next)
              code request rest refl (same ∙ e)
              (λ w'' e''.
                run (overlay (version ∷ 0 ∷ []) (message ++ old)) w''
                  (omega
                    (arith, left, total, length-append message old, length-drop 2 (message ++ old)))
                  e''))))

  choosing-Ends :
      (asks : Bool) (addr host : List ℕ) (user pass : Option (List ℕ)) (sin : SockaddrIn)
      (buf : List ℕ) (w : W) (reply rest : List ℕ)
      → length buf ≡ 512
      → host_of addr ≡ ok host
      → length host < 128
      → length (name_of user) < 128
      → length (name_of pass) < 128
      → IsGrant reply
      → content w ≡ method_bytes asks ++ (reply ++ rest)
      → Ends sent content w
          (receiving peer buf 2 w (choosing peer user pass (connecting peer addr sin)))
          (pos 0)
          (authentication asks user pass ++ request5 (uses_hostname addr) host sin)
          rest
  unfolding choosing peek
  choosing-Ends true addr host user pass sin buf w reply rest size fits short short_user short_pass
        grant e =
      let request = request5 (uses_hostname addr) host sin in
      let next = connecting peer addr sin in
      receiving-Ends buf 2 w 5 (2 ∷ []) ((1 ∷ 0 ∷ []) ++ (reply ++ rest))
        (choosing peer user pass next) (pos 0) (authentication true user pass ++ request) rest refl
        e
        (λ w' e'.
          authenticating-Ends user pass next (overlay (5 ∷ 2 ∷ []) buf) w' 1 (reply ++ rest) (pos 0)
            request rest (omega (arith, length-drop 2 buf)) short_user short_pass e'
            (λ buf' w'' size' e''.
              connecting-Ends addr host sin buf' w'' reply rest size' fits short grant e''))
  choosing-Ends false addr host user pass sin buf w reply rest size fits short short_user short_pass
        grant e =
      let request = request5 (uses_hostname addr) host sin in
      receiving-Ends buf 2 w 5 (0 ∷ []) (reply ++ rest)
        (choosing peer user pass (connecting peer addr sin)) (pos 0) request rest refl e
        (λ w' e'.
          connecting-Ends addr host sin (overlay (5 ∷ 0 ∷ []) buf) w' reply rest
            (omega (arith, length-drop 2 buf)) fits short grant e')

  -- Where no send fails and each `_tcp_recv` takes all the bytes that it asks for at once (it may take
  -- fewer, and the source does not read on then), for an address whose host is known and shorter than
  -- 128 bytes, a user and a password shorter than 128 bytes, and a proxy that asks for them or does
  -- without and grants the connection in a reply that carries an IPv4 address or a name of 1 to 127
  -- bytes:
  -- `_socket_proxy_setup_socks5` returns 0. It has sent the methods it knows, the user and
  -- the password exactly if they were asked for, and the request with the name of the host, or the
  -- address where that is written as digits. It has read the three answers to
  -- their ends and no byte behind them.
  pub setup_socks5-Ends :
      (asks : Bool) (addr host : List ℕ) (user pass : Option (List ℕ)) (quad : Quad) (buf : List ℕ)
      (w : W) (reply rest : List ℕ)
      → length buf ≡ 512
      → host_of addr ≡ ok host
      → length host < 128
      → peer.gethostbyname (before_colon addr) ≡ some quad
      → length (name_of user) < 128
      → length (name_of pass) < 128
      → IsGrant reply
      → content w ≡ method_bytes asks ++ (reply ++ rest)
      → Ends sent content w
          (setup_socks5 peer buf addr user pass w)
          (pos 0)
          ((5 ∷ 2 ∷ 2 ∷ 0 ∷ [])
            ++ (authentication asks user pass
                ++ request5
                    (uses_hostname addr)
                    host
                    (record { sin_addr = quad; sin_port = port_of (behind_colon addr) })))
          rest
  unfolding setup_socks5 make_addr
  setup_socks5-Ends asks addr host user pass quad buf w reply rest size fits short found short_user
        short_pass grant e =
      let sin : SockaddrIn = record { sin_addr = quad; sin_port = port_of (behind_colon addr) } in
      let greeting = 5 ∷ 2 ∷ 2 ∷ 0 ∷ [] in
      let start = memcpy-append [] buf greeting 0 refl (omega arith) in
      let buf1 = greeting ++ drop 4 buf in
      let chosen = choosing peer user pass (connecting peer addr sin) in
      let request = request5 (uses_hostname addr) host sin in
      rw (fits, found, setup_socks5, make_addr)
        (rw start (
          sending-Ends peer sent content talks greeting w (λ w. receiving peer buf1 2 w chosen)
            (pos 0) (authentication asks user pass ++ request) rest
            (λ w' same.
              choosing-Ends asks addr host user pass sin buf1 w' reply rest
                (omega (arith, length-drop 4 buf)) fits short short_user short_pass grant
                (same ∙ e))))
