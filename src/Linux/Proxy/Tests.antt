-- ===== src/Linux/Proxy/Tests.antt =====
-- A proxy that answers every read, and the theorems at concrete inputs.
use libtr.Base.{
  length-replicate, ◌≤◌, true, replicate, ℕ, suc, ◌≡◌, refl, ap, List, [], ◌∷◌, ◌++◌, none, some,
  length, take, drop, take-append, drop-append, arith,
}
use libtr.Base.Int.{pos}
use libtr.Error.{ok, fault}
use libtr.Mqtt.Net.{got}
use libtr.Tr50.Client.Decimal.{atoi}
use libtr.Linux.Proxy.{behind_colon, port_of, uses_hostname, Quad, Peer, host_of, setup_socks4a}
use libtr.Linux.Proxy.Socks4.{Talks, Ends, setup_socks4a-Ends}
use libtr.Linux.Proxy.Socks5.{setup_socks5, credentials}
use libtr.Linux.Proxy.Socks5.Layout.{credentials_long}
use libtr.Linux.Proxy.Socks5.Talk.{by_name, method_bytes, authentication, setup_socks5-Ends}
use libtr.Linux.Proxy.Socks5.Request.{request5}
use libtr.Linux.Proxy.Base64.{base64_encode, base64_encode-overruns}

record Wire : Type 0 where
  incoming : List ℕ
  outgoing : List ℕ

abbrev localhost : Quad
localhost = record { a = 127; b = 0; c = 0; d = 1 }

abbrev peer : Peer Wire
peer = record {
  tcp_send = λ wire bytes. (pos 0, record wire { outgoing = wire.outgoing ++ bytes });
  tcp_recv =
      λ wire n. (got (take n wire.incoming), record wire { incoming = drop n wire.incoming });
  gethostbyname = λ name. some localhost;
}

wire_takes :
    (incoming : List ℕ) (n b : ℕ) (piece rest : List ℕ)
    → n ≡ suc (length piece)
    → incoming ≡ (b ∷ piece) ++ rest
    → (got (take n incoming) ≡ got (b ∷ piece)) × (drop n incoming ≡ rest)
wire_takes incoming n b piece rest size e =
    rw e
      (ap got (take-append n (b ∷ piece) rest size), drop-append n 0 (b ∷ piece) rest (omega arith))

peer-Talks : Talks peer (λ wire. wire.outgoing) (λ wire. wire.incoming)
peer-Talks = record {
  sends = λ wire bytes. refl;
  goes = λ wire bytes. refl;
  still = λ wire bytes. refl;
  takes = λ wire n b piece rest size e.
      let (taken, left) = wire_takes wire.incoming n b piece rest size e in (taken, left, refl);
}

-- "ab:80".
abbrev address : List ℕ
address = 97 ∷ 98 ∷ 58 ∷ 56 ∷ 48 ∷ []

-- The reply of a proxy that grants the request, and two bytes of the server behind it.
abbrev wire : Wire
wire = record { incoming = 0 ∷ 90 ∷ 1 ∷ 2 ∷ 3 ∷ 4 ∷ 5 ∷ 6 ∷ 33 ∷ 44 ∷ []; outgoing = [] }

abbrev six : List ℕ
six = 1 ∷ 2 ∷ 3 ∷ 4 ∷ 5 ∷ 6 ∷ []

fits : host_of address ≡ ok (97 ∷ 98 ∷ [])
unfolding host_of
fits = refl

setup_socks4a-Ends_example :
    Ends
      (λ wire. wire.outgoing)
      (λ wire. wire.incoming)
      wire
      (setup_socks4a peer address none wire)
      (pos 0)
      (4 ∷ 1 ∷ 0 ∷ 80 ∷ 0 ∷ 0 ∷ 0 ∷ 3 ∷ 0 ∷ 97 ∷ 98 ∷ 0 ∷ [])
      (33 ∷ 44 ∷ [])
unfolding atoi
setup_socks4a-Ends_example =
    setup_socks4a-Ends peer (λ wire. wire.outgoing) (λ wire. wire.incoming) peer-Talks address
      (97 ∷ 98 ∷ []) none wire localhost 0 90 six (33 ∷ 44 ∷ []) fits refl refl refl

-- "u:p", and the block that holds it.
base64_encode-overruns_example :
    base64_encode (λ n. some []) (117 ∷ 58 ∷ 112 ∷ 0 ∷ 0 ∷ 0 ∷ 0 ∷ 0 ∷ 0 ∷ 0 ∷ []) 3 ≡ fault
base64_encode-overruns_example =
    base64_encode-overruns (λ n. some []) (117 ∷ 58 ∷ 112 ∷ 0 ∷ 0 ∷ 0 ∷ 0 ∷ 0 ∷ 0 ∷ 0 ∷ []) 3 []
      (omega arith) refl

-- A proxy that asks for the user and names the host "xy" in its reply.
abbrev reply5 : List ℕ
reply5 = 5 ∷ 0 ∷ 0 ∷ 3 ∷ 2 ∷ 120 ∷ 121 ∷ 4 ∷ 56 ∷ []

abbrev wire5 : Wire
wire5 = record { incoming = method_bytes true ++ (reply5 ++ (33 ∷ [])); outgoing = [] }

abbrev stack : List ℕ
stack = replicate 512 0

stack_size : length stack ≡ 512
stack_size = length-replicate {A = ℕ} 512 0

setup_socks5-Ends_example :
    Ends
      (λ wire. wire.outgoing)
      (λ wire. wire.incoming)
      wire5
      (setup_socks5 peer stack address (some (117 ∷ [])) none wire5)
      (pos 0)
      ((5 ∷ 2 ∷ 2 ∷ 0 ∷ [])
        ++ (authentication true (some (117 ∷ [])) none
            ++ request5
                (uses_hostname address)
                (97 ∷ 98 ∷ [])
                (record { sin_addr = localhost; sin_port = port_of (behind_colon address) })))
      (33 ∷ [])
setup_socks5-Ends_example =
    setup_socks5-Ends peer (λ wire. wire.outgoing) (λ wire. wire.incoming) peer-Talks true address
      (97 ∷ 98 ∷ []) (some (117 ∷ [])) none localhost stack wire5 reply5 (33 ∷ []) stack_size fits
      (omega arith) refl (omega arith) (omega arith) (by_name 120 121 4 (56 ∷ []) (omega arith))
      refl

-- What stands in the request.
run_request :
    authentication true (some (117 ∷ [])) none
      ++ request5
          (uses_hostname address)
          (97 ∷ 98 ∷ [])
          (record { sin_addr = localhost; sin_port = port_of (behind_colon address) })
    ≡ 1 ∷ 1 ∷ 117 ∷ 0 ∷ 5 ∷ 1 ∷ 0 ∷ 3 ∷ 2 ∷ 97 ∷ 98 ∷ 0 ∷ 80 ∷ []
unfolding uses_hostname atoi
run_request = refl

abbrev long_name : List ℕ
long_name = replicate 130 97

name_size : length long_name ≡ 130
name_size = length-replicate {A = ℕ} 130 97

long_enough : 128 ≤ length long_name
long_enough = omega (arith, name_size)

short_enough : length long_name ≤ 253
short_enough = omega (arith, name_size)

credentials_long_example : credentials stack (some long_name) none ≡ fault
credentials_long_example = credentials_long stack long_name none stack_size long_enough short_enough
