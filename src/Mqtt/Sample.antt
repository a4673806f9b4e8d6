-- ===== src/Mqtt/Sample.antt =====
-- A platform for runs on concrete values: the world is the bytes that the broker still sends, the
-- socket hands them over one at a time, and the clock stands.
use libtr.Base.{ap, ◌<◌, ℕ, ◌≡◌, refl, List, [], ◌∷◌, ◌++◌, true, arith, length}
use libtr.Base.Int.{pos}
use libtr.Error.{err_tr50_tcp_timeout}
use libtr.Mqtt.Net.{Received, got, failed, Net}
use libtr.Mqtt.Recv.Stream.{Delivers}

abbrev pub one_byte : List ℕ → Received × List ℕ
one_byte [] = (failed err_tr50_tcp_timeout, [])
one_byte (b ∷ bytes) = (got (b ∷ []), bytes)

abbrev pub line : Net (List ℕ)
line = record {
  tcp_connect = λ w params secure. (pos 0, w);
  tcp_connect_proxy = λ w params secure. (pos 0, w);
  tcp_disconnect = λ w. w;
  tcp_send = λ w buf. (pos 0, w);
  tcp_recv = λ w n. one_byte w;
  time_now = λ w. (7, w);
  time_now_in_sec = λ w. 7;
  should_reconnect = λ w total counter. (true, w);
  can_realloc = λ n. true;
}

-- The content of the stream is the world itself.
abbrev pub all_left : List ℕ → List ℕ
all_left w = w

delivers_one :
    (w : List ℕ) (n : ℕ) (b : ℕ) (bytes : List ℕ)
    → 0 < n
    → w ≡ b ∷ bytes
    → (xs : List ℕ) × (ys : List ℕ) × ((one_byte w).0 ≡ got (b ∷ xs))
      × (length xs < n)
      × (bytes ≡ xs ++ ys)
      × ((one_byte w).1 ≡ ys)
delivers_one w n b bytes some_n e =
    ([], bytes, ap (λ t. (one_byte t).0) e, some_n, refl, ap (λ t. (one_byte t).1) e)

pub line-Delivers : Delivers line all_left 0 5000
line-Delivers = record {
  early = λ w. omega arith;
  late = λ w. omega arith;
  still = λ w. refl;
  grants = λ n. refl;
  delivers = delivers_one;
}
