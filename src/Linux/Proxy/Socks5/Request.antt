-- ===== src/Linux/Proxy/Socks5/Request.antt =====
-- The bytes of the request for a connection.
use libtr.Base.{
  ℕ, ◌+◌, ◌≤◌, ◌<◌, ◌≡◌, refl, sym, ap, List, [], ◌∷◌, ◌++◌, some, Bool, true, false, length, drop,
  length-append, length-drop, take-append, le→leb, arith, Bool-cases, inl, inr,
}
use libtr.Base.Int.{pos}
use libtr.Error.{ok}
use libtr.Memory.{read}
use libtr.Memory.Laws.{memcpy-append}
use libtr.Linux.Proxy.{SockaddrIn, quad_bytes, port_bytes, uses_hostname, host_of}
use libtr.Linux.Proxy.Socks5.{destination, connect_request}
use libtr.Linux.Proxy.Socks5.Layout.{field, put_text-field}

-- Where the connection is to go: the name of a host, or an address.
abbrev pub place : Bool → List ℕ → SockaddrIn → List ℕ
place true host sin = 3 ∷ field host
place false host sin = 1 ∷ quad_bytes sin.sin_addr

abbrev pub request5 : Bool → List ℕ → SockaddrIn → List ℕ
request5 named host sin = (5 ∷ 1 ∷ 0 ∷ place named host sin) ++ port_bytes sin

pub read-front : (pre old : List ℕ) (n : ℕ) → n ≡ length pre → read (pre ++ old) 0 n ≡ ok pre
unfolding read
read-front pre old n e =
    rw (le→leb (0 + n) (length (pre ++ old)) (omega (arith, length-append pre old)))
      (ap ok (take-append n pre old e))

destination_layout :
    (old addr host : List ℕ) (sin : SockaddrIn)
    → length old ≡ 509
    → host_of addr ≡ ok host
    → length host < 128
    → (old' : List ℕ) × (destination ((5 ∷ 1 ∷ 0 ∷ []) ++ old) addr sin
        ≡ ok (
          ((5 ∷ 1 ∷ 0 ∷ []) ++ place (uses_hostname addr) host sin) ++ old',
          pos (length ((5 ∷ 1 ∷ 0 ∷ []) ++ place (uses_hostname addr) host sin)),
        ))
      × (2 ≤ length old')
unfolding destination
destination_layout old addr host sin size fits short = elim (Bool-cases (uses_hostname addr)) [
  | inl named ↦
      let kind = memcpy-append (5 ∷ 1 ∷ 0 ∷ []) old (3 ∷ []) 3 refl (omega arith) in
      let (old', wrote, left) =
        put_text-field (5 ∷ 1 ∷ 0 ∷ 3 ∷ []) (drop 1 old) 252 (some host) short (omega arith)
          (omega (arith, length-drop 1 old)) in
      let end : 4 + length host + 1 ≡ length (5 ∷ 1 ∷ 0 ∷ 3 ∷ field host) = omega arith in
      (
        old',
        rw (named, destination)
            (rw (kind, fits, wrote)
              (ap (λ n. ok ((5 ∷ 1 ∷ 0 ∷ 3 ∷ field host) ++ old', pos n)) end)),
        omega (arith, left, length-drop 1 old),
      )
  | inr numeric ↦
      let kind = memcpy-append (5 ∷ 1 ∷ 0 ∷ []) old (1 ∷ []) 3 refl (omega arith) in
      let quad =
        memcpy-append (5 ∷ 1 ∷ 0 ∷ 1 ∷ []) (drop 1 old) (quad_bytes sin.sin_addr) 4 refl
          (omega (arith, length-drop 1 old)) in
      (
        drop 4 (drop 1 old),
        rw (numeric, destination) (rw (kind, quad) refl),
        omega (arith, length-drop 4 (drop 1 old), length-drop 1 old),
      )
]

-- The request stands at the front of the buffer.
pub connect_request_layout :
    (buf addr host : List ℕ) (sin : SockaddrIn)
    → length buf ≡ 512
    → host_of addr ≡ ok host
    → length host < 128
    → (old : List ℕ) × (connect_request buf addr sin
        ≡ ok (
          request5 (uses_hostname addr) host sin ++ old,
          length (request5 (uses_hostname addr) host sin),
        ))
unfolding connect_request destination
connect_request_layout buf addr host sin size fits short =
    let start = memcpy-append [] buf (5 ∷ 1 ∷ 0 ∷ []) 0 refl (omega arith) in
    let old = drop 3 buf in
    let front = (5 ∷ 1 ∷ 0 ∷ []) ++ place (uses_hostname addr) host sin in
    let (old', placed, left) =
      destination_layout old addr host sin (omega (arith, length-drop 3 buf)) fits short in
    let ported = memcpy-append front old' (port_bytes sin) (length front) refl left in
    let size_of : length front + 2 ≡ length (front ++ port_bytes sin) =
      sym (length-append front (port_bytes sin)) in
    (
      drop 2 old',
      rw (start, connect_request)
          (rw placed
            (rw ported (ap (λ n. ok ((front ++ port_bytes sin) ++ drop 2 old', n)) size_of))),
    )
