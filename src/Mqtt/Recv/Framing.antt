-- ===== src/Mqtt/Recv/Framing.antt =====
-- `mqtt_recv` takes one message from the stream, however the socket cuts it.
use libtr.Base.{
  ℕ, zero, suc, ◌+◌, ◌-◌, ◌^◌, ◌≤◌, ◌<◌, ◌≡◌, refl, ap, ◌∙◌, sym, List, [], ◌∷◌, ◌++◌, append-nil,
  true, false, not, ◌&&◌, length, ltb, if◌then◌else◌, lt→ltb, le→ltb_false, arith,
}
use libtr.Base.Int.{pos}
use libtr.Base.Order.{lt_wf}
use libtr.Error.{ok}
use libtr.Mqtt.Net.{Net}
use libtr.Mqtt.Header.{encode_fixed_header_len, decode_header_length}
use libtr.Mqtt.Header.RoundTrip.{length-encode_loop, decode_header_length-encode}
use libtr.Mqtt.Client.{MqttClient}
use libtr.Mqtt.Recv.{
  Reading, reading, grown, ends_header, header_loop, body_loop, finish, recv_body, mqtt_recv,
  default_recv_buf_len,
}
use libtr.Mqtt.Recv.Stream.{
  Digits, encode_loop-Digits, tail_of, Delivers, Took, Ready, header_step, header_run, Took-join,
  body_run,
}

encode-Digits : (l : ℕ) → l < 2 ^ 28 → Digits (encode_fixed_header_len l)
unfolding encode_fixed_header_len
encode-Digits l h = encode_loop-Digits 3 l (lt_wf.apply l) (omega arith)

recv_body_eq :
    {W : Type 0} (net : Net W) (fuel : ℕ) (r r' : Reading W) (n l : ℕ)
    → decode_header_length r.buffer 1 (length r.buffer) ≡ ok (n, l)
    → net.can_realloc (length r.buffer + l) ≡ true
    → body_loop net fuel l (record r {
      max_len = grown r.max_len (length r.buffer) l;
      world = (net.time_now r.world).1;
    })
      ≡ reading r'
    → recv_body net fuel r ≡ finish net r'
unfolding recv_body
recv_body_eq net fuel r r' n l decoded granted run =
    let no_failure : (ltb (r.max_len - length r.buffer) l
          && not (net.can_realloc (length r.buffer + l)))
        ≡ false =
      ground (arith, granted) in
    ground (arith, decoded, no_failure, run)

length-encode_le : (l : ℕ) → l < 2 ^ 28 → length (encode_fixed_header_len l) ≤ 4
unfolding encode_fixed_header_len
length-encode_le l h = length-encode_loop 3 l (lt_wf.apply l) (omega arith)

mqtt_recv_eq :
    {W : Type 0} (net : Net W) (fuel timeout : ℕ) (client : MqttClient) (w : W) (r : Reading W)
    → header_loop net timeout fuel 2 (record {
      buffer = [];
      max_len = default_recv_buf_len;
      starting_time = (net.time_now w).0;
      client = client;
      world = (net.time_now w).1;
    })
      ≡ reading r
    → mqtt_recv net fuel true client timeout w ≡ recv_body net fuel r
unfolding mqtt_recv
mqtt_recv_eq net fuel timeout client w r run = rw run refl

module _ {W : Type 0} (net : Net W) (content : W → List ℕ) (t0 timeout : ℕ)
    (socket : Delivers net content t0 timeout) where
  -- Behind the first read, which takes one byte or two.
  header_rest :
      (fuel : ℕ) (r r' : Reading W) (b : ℕ) (digits rest xs ys : List ℕ)
      → Digits digits
      → r.buffer ≡ []
      → length digits ≤ fuel
      → Ready t0 r (1 + length digits)
      → length xs < 2
      → digits ++ rest ≡ xs ++ ys
      → Took content r r' (b ∷ xs) ys
      → r'.max_len ≡ r.max_len
      → t0 ≤ r'.starting_time
      → (r'' : Reading W) × ((if ends_header r'.buffer
            then reading r'
            else header_loop net timeout fuel 1 r')
          ≡ reading r'')
        × Took content r r'' (b ∷ digits) rest
        × (r''.max_len ≡ r.max_len)
  header_rest fuel r r' b digits rest [] ys shape front enough ready few split took max start =
      let first : r'.buffer ≡ b ∷ [] = took.buffer ∙ ap (λ t. t ++ (b ∷ [])) front in
      let goes_on : ends_header r'.buffer ≡ false = ap ends_header first in
      let stream : content r'.world ≡ digits ++ rest = took.content_left ∙ sym split in
      let size : length r'.buffer ≡ 1 = ap length first in
      let old_size : length r.buffer ≡ 0 = ap length front in
      let (r'', run, took', max') =
        header_run net content t0 timeout socket fuel r' b [] digits rest shape first stream enough
          (record { room = omega (arith, size, old_size, max, ready.room); started = start }) in
      (
        r'',
        ap (λ t. if t then reading r' else header_loop net timeout fuel 1 r') goes_on ∙ run,
        Took-join net content t0 timeout socket r r' r'' (b ∷ []) digits ys rest took took',
        max' ∙ max,
      )
  header_rest fuel r r' b [] rest (x ∷ []) ys shape front enough ready few split took max start =
      absurd shape
  header_rest fuel r r' b (d ∷ []) rest (x ∷ []) ys shape front enough ready few split took max
        start =
      let same : d ≡ x = cc in
      let two : r'.buffer ≡ b ∷ d ∷ [] =
        took.buffer ∙ (ap (λ t. t ++ (b ∷ x ∷ [])) front ∙ ap (λ t. b ∷ t ∷ []) (sym same)) in
      let ends : ends_header r'.buffer ≡ true = ap ends_header two ∙ lt→ltb d 128 shape in
      (
        r',
        ap (λ t. if t then reading r' else header_loop net timeout fuel 1 r') ends,
        record {
          buffer = took.buffer ∙ ap (λ t. r.buffer ++ (b ∷ t ∷ [])) (sym same);
          content_left = took.content_left ∙ sym (ap tail_of split);
          count = took.count;
        },
        max,
      )
  header_rest fuel r r' b (d ∷ e ∷ digits) rest (x ∷ []) ys (large, shape) front enough ready few
        split took max start =
      let same : d ≡ x = cc in
      let two : r'.buffer ≡ b ∷ d ∷ [] =
        took.buffer ∙ (ap (λ t. t ++ (b ∷ x ∷ [])) front ∙ ap (λ t. b ∷ t ∷ []) (sym same)) in
      let goes_on : ends_header r'.buffer ≡ false = ap ends_header two ∙ le→ltb_false d 128 large in
      let stream : content r'.world ≡ (e ∷ digits) ++ rest =
        took.content_left ∙ sym (ap tail_of split) in
      let size : length r'.buffer ≡ 2 = ap length two in
      let old_size : length r.buffer ≡ 0 = ap length front in
      let (r'', run, took', max') =
        header_run net content t0 timeout socket fuel r' b (d ∷ []) (e ∷ digits) rest shape two
          stream (omega arith)
          (record { room = omega (arith, size, old_size, max, ready.room); started = start }) in
      let took_two : Took content r r' (b ∷ d ∷ []) ys = record {
        buffer = took.buffer ∙ ap (λ t. r.buffer ++ (b ∷ t ∷ [])) (sym same);
        content_left = took.content_left;
        count = took.count;
      } in
      (
        r'',
        ap (λ t. if t then reading r' else header_loop net timeout fuel 1 r') goes_on ∙ run,
        Took-join net content t0 timeout socket r r' r'' (b ∷ d ∷ []) (e ∷ digits) ys rest took_two
            took',
        max' ∙ max,
      )
  header_rest fuel r r' b digits rest (x ∷ y ∷ xs) ys shape front enough ready few split took max
        start =
      absurd (omega arith)

  body_all :
      (fuel : ℕ) (r : Reading W) (b l : ℕ) (body rest : List ℕ)
      → l < 2 ^ 28
      → l ≡ length body
      → l ≤ fuel
      → r.buffer ≡ b ∷ encode_fixed_header_len l
      → length r.buffer ≤ r.max_len
      → content r.world ≡ body ++ rest
      → (client : MqttClient) × (w : W) × (recv_body net fuel r
          ≡ ok (pos 0, (b ∷ encode_fixed_header_len l) ++ body, client, w))
        × (content w ≡ rest)
        × (client.byte_recv ≡ r.client.byte_recv + l)
  unfolding recv_body finish
  body_all fuel r b l body rest fits size enough front room stream =
      let header = encode_fixed_header_len l in
      let whole : r.buffer ≡ (b ∷ []) ++ (header ++ []) =
        front ∙ ap (λ t. b ∷ t) (sym (append-nil header)) in
      let bytes : length r.buffer ≡ suc (length header) = ap length front in
      let decoded : decode_header_length r.buffer 1 (length r.buffer) ≡ ok (length header, l) =
        ap (λ t. decode_header_length t 1 (length r.buffer)) whole
        ∙ decode_header_length-encode (b ∷ []) [] l (length r.buffer) fits (omega arith) in
      let max = grown r.max_len (length r.buffer) l in
      let granted = socket.grants (length r.buffer + l) in
      let start : Reading W = record r { max_len = max; world = (net.time_now r.world).1 } in
      let still = socket.still r.world in
      let large : length r.buffer + length body ≤ max = ground (arith, size, room) in
      let (r', run, took) =
        body_run net content t0 timeout socket fuel start body rest (omega arith) (still ∙ stream)
          large in
      let run' : body_loop net fuel l start ≡ reading r' =
        ap (λ n. body_loop net fuel n start) size ∙ run in
      let eq : recv_body net fuel r ≡ finish net r' =
        recv_body_eq net fuel r r' (length header) l decoded granted run' in
      (
        record r'.client { last_recv = (net.time_now r'.world).0 },
        (net.time_now r'.world).1,
        eq
            ∙ ap
                (λ t. ok (
                  pos 0,
                  t,
                  record r'.client { last_recv = (net.time_now r'.world).0 },
                  (net.time_now r'.world).1,
                ))
                (took.buffer ∙ ap (λ t. t ++ body) front),
        socket.still r'.world ∙ took.content_left,
        omega (arith, took.count),
      )

  -- Where the socket delivers the stream in order, at least a byte and at most as many as were asked
  -- for at a time, every call of the clock lies between `t0` and `t0 + timeout` and `realloc` does
  -- not fail, `mqtt_recv` takes from a stream that starts with a message of at most 2^28 - 1 bytes
  -- behind its header exactly that message, however it is cut, and leaves what follows; the count of
  -- bytes received grows by the message's. Fuel for a round per byte is enough.
  pub mqtt_recv-framing :
      (fuel : ℕ) (client : MqttClient) (w : W) (b l : ℕ) (body rest : List ℕ)
      → l < 2 ^ 28
      → l ≡ length body
      → l + 5 ≤ fuel
      → content w ≡ b ∷ (encode_fixed_header_len l ++ (body ++ rest))
      → (client' : MqttClient) × (w' : W) × (mqtt_recv net fuel true client timeout w
          ≡ ok (pos 0, (b ∷ encode_fixed_header_len l) ++ body, client', w'))
        × (content w' ≡ rest)
        × (client'.byte_recv ≡ client.byte_recv + (1 + length (encode_fixed_header_len l)) + l)
  mqtt_recv-framing zero client w b l body rest fits size enough stream = absurd (omega arith)
  mqtt_recv-framing (suc fuel) client w b l body rest fits size enough stream =
      let header = encode_fixed_header_len l in
      let shape = encode-Digits l fits in
      let short = length-encode_le l fits in
      let r : Reading W = record {
        buffer = [];
        max_len = default_recv_buf_len;
        starting_time = (net.time_now w).0;
        client = client;
        world = (net.time_now w).1;
      } in
      let ready : Ready t0 r (1 + length header) = record {
        room = omega (arith, short);
        started = socket.early w;
      } in
      let (xs, ys, r', eq, few, split, took, max, start) =
        header_step net content t0 timeout socket fuel 2 r b (header ++ (body ++ rest))
          (omega arith) (socket.still w ∙ stream)
          (record { room = omega arith; started = socket.early w }) in
      let (r'', run, took', max') =
        header_rest fuel r r' b header (body ++ rest) xs ys shape refl (omega (arith, short)) ready
          few split took max start in
      let bytes : length r''.buffer ≡ suc (length header) = ap length took'.buffer in
      let (client', w', out, left, count) =
        body_all (suc fuel) r'' b l body rest fits size (omega arith) took'.buffer
          (omega (arith, bytes, short, max')) took'.content_left in
      (
        client',
        w',
        mqtt_recv_eq net (suc fuel) timeout client w r'' (eq ∙ run) ∙ out,
        left,
        omega (arith, count, took'.count),
      )
