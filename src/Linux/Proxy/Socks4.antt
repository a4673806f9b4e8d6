-- ===== src/Linux/Proxy/Socks4.antt =====
-- What the requests to a SOCKS 4 proxy send, and what they read.
use libtr.Base.{
  ℕ, ◌≡◌, refl, sym, ap, ◌∙◌, List, [], ◌∷◌, ◌++◌, append-nil, append_assoc, Option, none, some,
  true, length, arith, suc, take, take-append,
}
use libtr.Base.Int.{ℤ, is_zero}
use libtr.Error.{Res, ok}
use libtr.Mqtt.Net.{got}
use libtr.Linux.Proxy.{
  Quad, quad_bytes, SockaddrIn, port_bytes, port_of, before_colon, behind_colon, make_addr, host_of,
  socks4_code, Peer, sending, receiving, sending_user, reading_reply, setup_socks4, setup_socks4a,
}

-- A connection that does not fail, and whose replies are there when they are read: no send fails, and
-- each `_tcp_recv` takes all the bytes that it asks for at once. `_tcp_recv` itself may take fewer, and
-- the requests do not read on where it does. `sent w` are
-- the bytes that went to the proxy, and `content w` those that it sent and that were not read.
pub record Talks {W : Type 0} (peer : Peer W) (sent content : W → List ℕ) : Type 0 where
  pub sends : (w : W) (bytes : List ℕ) → is_zero (peer.tcp_send w bytes).0 ≡ true
  pub goes : (w : W) (bytes : List ℕ) → sent (peer.tcp_send w bytes).1 ≡ sent w ++ bytes
  pub still : (w : W) (bytes : List ℕ) → content (peer.tcp_send w bytes).1 ≡ content w
  pub takes :
      (w : W) (n b : ℕ) (piece rest : List ℕ)
      → n ≡ suc (length piece)
      → content w ≡ (b ∷ piece) ++ rest
      → ((peer.tcp_recv w n).0 ≡ got (b ∷ piece))
        × (content (peer.tcp_recv w n).1 ≡ rest)
        × (sent (peer.tcp_recv w n).1 ≡ sent w)

-- The request of version 4: connect, the port, an address, and the user with a terminator.
abbrev pub name_of : Option (List ℕ) → List ℕ
name_of none = []
name_of (some user) = user

abbrev pub request4 : List ℕ → List ℕ → Option (List ℕ) → List ℕ
request4 port quad user = (4 ∷ 1 ∷ (port ++ quad)) ++ (name_of user ++ (0 ∷ []))

-- A run that returns `code`, has sent `request` and leaves `rest` unread.
abbrev pub Ends :
    {W : Type 0} → (W → List ℕ) → (W → List ℕ) → W → Res (ℤ × W) → ℤ → List ℕ → List ℕ → Type 0
Ends {W} sent content w run code request rest =
    (w' : W) × (run ≡ ok (code, w')) × (sent w' ≡ sent w ++ request) × (content w' ≡ rest)

module _ {W : Type 0} (peer : Peer W) (sent content : W → List ℕ)
    (talks : Talks peer sent content) where
  pub sending-Ends :
      (bytes : List ℕ) (w : W) (next : W → Res (ℤ × W)) (code : ℤ) (request rest : List ℕ)
      → ((w' : W) → content w' ≡ content w → Ends sent content w' (next w') code request rest)
      → Ends sent content w (sending peer bytes w next) code (bytes ++ request) rest
  sending-Ends bytes w next code request rest run =
      let (w', e, went, left) = run (peer.tcp_send w bytes).1 (talks.still w bytes) in
      (
        w',
        rw (talks.sends w bytes, sending) e,
        went ∙ ap (λ t. t ++ request) (talks.goes w bytes) ∙ append_assoc (sent w) bytes request,
        left,
      )

  reading_reply-Ends :
      (buf : List ℕ) (w : W) (version code : ℕ) (more rest : List ℕ)
      → length more ≡ 6
      → content w ≡ (version ∷ code ∷ more) ++ rest
      → Ends sent content w (reading_reply peer buf w) (socks4_code (version ∷ code ∷ more)) [] rest
  reading_reply-Ends buf w version code more rest size e =
      let (taken, left, same) = talks.takes w 8 version (code ∷ more) rest (omega arith) e in
      ((peer.tcp_recv w 8).1, rw (taken, receiving) refl, same ∙ sym (append-nil (sent w)), left)

  pub Ends-request :
      (w : W) (run : Res (ℤ × W)) (code : ℤ) (request request' rest : List ℕ)
      → request ≡ request'
      → Ends sent content w run code request rest
      → Ends sent content w run code request' rest
  Ends-request w run code request request' rest same (w', e, went, left) =
      (w', e, went ∙ ap (λ t. sent w ++ t) same, left)

  -- The first sends, for the eight bytes in front of the user's name.
  sending_user-Ends :
      (front : List ℕ) (user : Option (List ℕ)) (w : W) (next : W → Res (ℤ × W)) (code : ℤ)
      (request rest : List ℕ)
      → length front ≡ 8
      → ((w' : W) → content w' ≡ content w → Ends sent content w' (next w') code request rest)
      → Ends sent content w
          (sending_user peer (front ++ (0 ∷ [])) user w next)
          code
          ((front ++ (name_of user ++ (0 ∷ []))) ++ request)
          rest
  sending_user-Ends front none w next code request rest size run =
      sending-Ends (front ++ (0 ∷ [])) w next code request rest run
  sending_user-Ends front (some user) w next code request rest size run =
      let eight : take 8 (front ++ (0 ∷ [])) ≡ front = take-append 8 front (0 ∷ []) (sym size) in
      let later = sending peer (user ++ (0 ∷ [])) in
      rw eight (
        Ends-request w (sending peer front w (λ w'. later w' next)) code
          (front ++ ((user ++ (0 ∷ [])) ++ request)) ((front ++ (user ++ (0 ∷ []))) ++ request) rest
          (sym (append_assoc front (user ++ (0 ∷ [])) request))
          (sending-Ends front w (λ w'. later w' next) code ((user ++ (0 ∷ [])) ++ request) rest
            (λ w' same.
              sending-Ends (user ++ (0 ∷ [])) w' next code request rest
                (λ w'' same'. run w'' (same' ∙ same)))))

  -- Where no send fails and `_tcp_recv` takes the eight bytes that it asks for at once, for an address
  -- whose host has an IPv4 address: `_socket_proxy_setup_socks4` sends one request of
  -- version 4 with the port and the address, whose user is empty where none was given. It reads
  -- the eight bytes of the reply and no more, and returns 0 where the second is 0x5A.
  pub setup_socks4-Ends :
      (addr : List ℕ) (user : Option (List ℕ)) (w : W) (quad : Quad) (version code : ℕ)
      (more rest : List ℕ)
      → peer.gethostbyname (before_colon addr) ≡ some quad
      → length more ≡ 6
      → content w ≡ (version ∷ code ∷ more) ++ rest
      → Ends sent content w
          (setup_socks4 peer addr user w)
          (socks4_code (version ∷ code ∷ more))
          (request4
            (port_bytes (record { sin_addr = quad; sin_port = port_of (behind_colon addr) }))
            (quad_bytes quad)
            user)
          rest
  unfolding setup_socks4 make_addr
  setup_socks4-Ends addr user w quad version code more rest found size e =
      let sin : SockaddrIn = record { sin_addr = quad; sin_port = port_of (behind_colon addr) } in
      let front = 4 ∷ 1 ∷ (port_bytes sin ++ quad_bytes quad) in
      let next = reading_reply peer (front ++ (0 ∷ [])) in
      let final = socks4_code (version ∷ code ∷ more) in
      rw (found, setup_socks4, make_addr)
        (Ends-request w (sending_user peer (front ++ (0 ∷ [])) user w next) final
          ((front ++ (name_of user ++ (0 ∷ []))) ++ []) (front ++ (name_of user ++ (0 ∷ []))) rest
          (append-nil (front ++ (name_of user ++ (0 ∷ []))))
          (sending_user-Ends front user w next final [] rest refl (λ w' same.
            reading_reply-Ends (front ++ (0 ∷ [])) w' version code more rest size (same ∙ e))))

  -- Where no send fails and `_tcp_recv` takes the eight bytes that it asks for at once (it may take
  -- fewer, and is called only once), for an address whose host fits into the 255 bytes for it and is
  -- known: `_socket_proxy_setup_socks4a` sends one request of version 4 with the port, the address 0.0.0.3, the user and the name of the host,
  -- each with its terminator. It reads the eight bytes of the reply and no more, and
  -- returns 0 where the second is 0x5A.
  pub setup_socks4a-Ends :
      (addr host : List ℕ) (user : Option (List ℕ)) (w : W) (quad : Quad) (version code : ℕ)
      (more rest : List ℕ)
      → host_of addr ≡ ok host
      → peer.gethostbyname (before_colon addr) ≡ some quad
      → length more ≡ 6
      → content w ≡ (version ∷ code ∷ more) ++ rest
      → Ends sent content w
          (setup_socks4a peer addr user w)
          (socks4_code (version ∷ code ∷ more))
          (request4
              (port_bytes (record { sin_addr = quad; sin_port = port_of (behind_colon addr) }))
              (0 ∷ 0 ∷ 0 ∷ 3 ∷ [])
              user
            ++ (host ++ (0 ∷ [])))
          rest
  unfolding setup_socks4a make_addr
  setup_socks4a-Ends addr host user w quad version code more rest fits found size e =
      let sin : SockaddrIn = record { sin_addr = quad; sin_port = port_of (behind_colon addr) } in
      let front = 4 ∷ 1 ∷ (port_bytes sin ++ (0 ∷ 0 ∷ 0 ∷ 3 ∷ [])) in
      let next = reading_reply peer (front ++ (0 ∷ [])) in
      let final = socks4_code (version ∷ code ∷ more) in
      rw (fits, found, setup_socks4a, make_addr)
        (sending_user-Ends front user w (λ w'. sending peer (host ++ (0 ∷ [])) w' next) final
          (host ++ (0 ∷ [])) rest refl
          (λ w' same.
            Ends-request w' (sending peer (host ++ (0 ∷ [])) w' next) final
              ((host ++ (0 ∷ [])) ++ []) (host ++ (0 ∷ [])) rest (append-nil (host ++ (0 ∷ [])))
              (sending-Ends (host ++ (0 ∷ [])) w' next final [] rest (λ w'' same'.
                reading_reply-Ends (front ++ (0 ∷ [])) w'' version code more rest size
                  (same' ∙ same ∙ e)))))
