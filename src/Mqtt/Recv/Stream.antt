-- ===== src/Mqtt/Recv/Stream.antt =====
-- The loops of `mqtt_recv` on a stream of bytes that the socket may cut anywhere.
use libtr.Base.{
  le→ltb_false, lt→ltb, ℕ, zero, suc, ◌+◌, ◌-◌, ◌/◌, ◌%◌, ◌^◌, ◌≤◌, ◌<◌, ◌≡◌, refl, ap, ◌∙◌, sym,
  List, [], ◌∷◌, ◌++◌, append-nil, append_assoc, true, false, length, length-append, ltb, leb, ◌==◌,
  if◌then◌else◌, Bool-cases, inl, inr, arith,
}
use libtr.Mqtt.Net.{got, Net}
use libtr.Mqtt.Header.{encode_loop}
use libtr.Mqtt.Header.RoundTrip.{encode_last, encode_more}
use libtr.Mqtt.Recv.{Reading, reading, ends_header, received, header_loop, body_loop}
use mathlib.Core.WellFounded.{Acc}

-- The bytes of a length: all but the last have the top bit.
abbrev pub Digits : List ℕ → Type 0
Digits [] = ⊥
Digits (d ∷ []) = d < 128
Digits (d ∷ e ∷ digits) = (128 ≤ d) × Digits (e ∷ digits)

Digits-cons : (d : ℕ) (digits : List ℕ) → 128 ≤ d → Digits digits → Digits (d ∷ digits)
Digits-cons d [] h digits = absurd digits
Digits-cons d (e ∷ rest) h digits = (h, digits)

pub encode_loop-Digits : (k l : ℕ) (w : Acc ◌<◌ l) → l < 128 ^ suc k → Digits (encode_loop l w)
encode_loop-Digits zero l w h = rw (encode_last l w (omega arith)) (omega arith)
encode_loop-Digits (suc k) l w h = elim (Bool-cases (ltb l 128)) [
  | inl small ↦ let small' : l < 128 = ground (arith, small) in rw (encode_last l w small') small'
  | inr large ↦
      let large' : 128 ≤ l = ground (arith, large) in
      let (w', eq) = encode_more l w large' in
      rw eq (
        Digits-cons (l % 128 + 128) (encode_loop (l / 128) w') (omega arith)
          (encode_loop-Digits k (l / 128) w' (omega arith)))
]

ends_header-last : (b : ℕ) (bs : List ℕ) (t : ℕ) → ends_header ((b ∷ bs) ++ (t ∷ [])) ≡ ltb t 128
ends_header-last b [] t = refl
ends_header-last b (c ∷ []) t = refl
ends_header-last b (c ∷ d ∷ bs) t = ends_header-last c (d ∷ bs) t

abbrev pub tail_of : List ℕ → List ℕ
tail_of [] = []
tail_of (x ∷ xs) = xs

-- A prefix that is not longer than the first part is a prefix of the first part.
split_prefix :
    (xs ys body rest : List ℕ)
    → body ++ rest ≡ xs ++ ys
    → length xs ≤ length body
    → (body' : List ℕ) × (body ≡ xs ++ body') × (ys ≡ body' ++ rest)
split_prefix [] ys body rest e h = (body, refl, sym e)
split_prefix (x ∷ xs) ys [] rest e h = absurd (omega arith)
split_prefix (x ∷ xs) ys (b ∷ body) rest e h =
    let (body', front, back) = split_prefix xs ys body rest (ap tail_of e) (omega arith) in
    let same : b ≡ x = cc in (body', cc, back)

nil_of : (xs : List ℕ) → length xs < 1 → xs ≡ []
nil_of [] h = refl
nil_of (x ∷ xs) h = absurd (omega arith)

-- How a socket hands over a stream of bytes: at least one and at most as many as were asked for,
-- in order. Between `t0` and `t0 + timeout` nothing times out, and the clock takes no bytes.
pub record Delivers {W : Type 0} (net : Net W) (content : W → List ℕ) (t0 timeout : ℕ)
    : Type 0 where
  pub early : (w : W) → t0 ≤ (net.time_now w).0
  pub late : (w : W) → (net.time_now w).0 ≤ t0 + timeout
  pub still : (w : W) → content (net.time_now w).1 ≡ content w
  pub grants : (n : ℕ) → net.can_realloc n ≡ true
  pub delivers :
      (w : W) (n : ℕ) (b : ℕ) (bytes : List ℕ)
      → 0 < n
      → content w ≡ b ∷ bytes
      → (xs : List ℕ) × (ys : List ℕ) × ((net.tcp_recv w n).0 ≡ got (b ∷ xs))
        × (length xs < n)
        × (bytes ≡ xs ++ ys)
        × (content (net.tcp_recv w n).1 ≡ ys)

-- What a stretch of reading did to the state.
pub record Took {W : Type 0} (content : W → List ℕ) (r r' : Reading W) (bytes rest : List ℕ)
    : Type 0 where
  pub buffer : r'.buffer ≡ r.buffer ++ bytes
  pub content_left : content r'.world ≡ rest
  pub count : r'.client.byte_recv ≡ r.client.byte_recv + length bytes

-- A state while the header is read: the block is large enough, and the clock started in time.
pub record Ready {W : Type 0} (t0 : ℕ) (r : Reading W) (n : ℕ) : Type 0 where
  pub room : length r.buffer + n ≤ r.max_len
  pub started : t0 ≤ r.starting_time

module _ {W : Type 0} (net : Net W) (content : W → List ℕ) (t0 timeout : ℕ)
    (socket : Delivers net content t0 timeout) where
  pub body_run :
      (fuel : ℕ) (r : Reading W) (body rest : List ℕ)
      → length body ≤ fuel
      → content r.world ≡ body ++ rest
      → length r.buffer + length body ≤ r.max_len
      → (r' : Reading W) × (body_loop net fuel (length body) r ≡ reading r')
        × Took content r r' body rest
  unfolding body_loop
  body_run zero r [] rest enough stream room = (
    r,
    refl,
    record { buffer = sym (append-nil r.buffer); content_left = stream; count = omega arith },
  )
  body_run zero r (b ∷ body) rest enough stream room = absurd (omega arith)
  body_run (suc fuel) r [] rest enough stream room = (
    r,
    refl,
    record { buffer = sym (append-nil r.buffer); content_left = stream; count = omega arith },
  )
  body_run (suc fuel) r (b ∷ body) rest enough stream room =
      let n = length (b ∷ body) in
      let (xs, ys, answer, few, split, left) =
        socket.delivers r.world n b (body ++ rest) (omega arith) stream in
      let (body', front, back) = split_prefix xs ys body rest split (omega arith) in
      let r1 : Reading W = record {
        buffer = r.buffer ++ (b ∷ xs);
        max_len = r.max_len;
        starting_time = r.starting_time;
        client = record r.client { byte_recv = r.client.byte_recv + length (b ∷ xs) };
        world = (net.tcp_recv r.world n).1;
      } in
      let len : length body ≡ length xs + length body' = ap length front ∙ length-append xs body' in
      let fits : leb (length r.buffer + length (b ∷ xs)) r.max_len ≡ true =
        ground (arith, len, room) in
      let some_left : (n == 0) ≡ false = ground arith in
      let eq : body_loop net (suc fuel) n r ≡ body_loop net fuel (n - length (b ∷ xs)) r1 =
        ground (arith, answer, fits, some_left) in
      let less : n - length (b ∷ xs) ≡ length body' = omega arith in
      let (r', run, took) =
        body_run fuel r1 body' rest (omega arith) (left ∙ back)
          (omega (arith, length-append r.buffer (b ∷ xs))) in
      (
        r',
        eq ∙ (ap (λ m. body_loop net fuel m r1) less ∙ run),
        record {
          buffer =
              took.buffer
              ∙ (append_assoc r.buffer (b ∷ xs) body' ∙ ap (λ t. r.buffer ++ (b ∷ t)) (sym front));
          content_left = took.content_left;
          count = omega (arith, took.count);
        },
      )

  received-Took :
      (r : Reading W) (max_len : ℕ) (bytes rest : List ℕ) (w : W)
      → content w ≡ rest
      → t0 ≤ r.starting_time
      → Took content r (received net r max_len bytes w) bytes rest
        × (t0 ≤ (received net r max_len bytes w).starting_time)
  unfolding received
  received-Took r max_len bytes rest w left started =
      let start = socket.early w in
      let still = socket.still w in
      elim (Bool-cases (length r.buffer == 0)) [
        | inl first ↦
            rw first (record { buffer = refl; content_left = still ∙ left; count = refl }, start)
        | inr later ↦
            rw later (record { buffer = refl; content_left = left; count = refl }, started)
      ]

  max_len-received :
      (r : Reading W) (max_len : ℕ) (bytes : List ℕ) (w : W)
      → (received net r max_len bytes w).max_len ≡ max_len
  unfolding received
  max_len-received r max_len bytes w = refl

  header_step_eq :
      (fuel n : ℕ) (r : Reading W) (bytes : List ℕ)
      → (net.tcp_recv (net.time_now r.world).1 n).0 ≡ got bytes
      → length bytes ≤ n
      → Ready t0 r n
      → header_loop net timeout (suc fuel) n r ≡ (
          if ends_header
            (received net r r.max_len bytes (net.tcp_recv (net.time_now r.world).1 n).1).buffer
          then reading (received net r r.max_len bytes (net.tcp_recv (net.time_now r.world).1 n).1)
          else header_loop net timeout fuel 1
              (received net r r.max_len bytes (net.tcp_recv (net.time_now r.world).1 n).1))
  unfolding header_loop received
  header_step_eq fuel n r bytes answer few ready =
      let now_late = socket.late r.world in
      let in_time : ltb (r.starting_time + timeout) (net.time_now r.world).0 ≡ false =
        ground (arith, now_late, ready.started) in
      let no_growth : ltb (r.max_len - length r.buffer) n ≡ false = ground (arith, ready.room) in
      let fits : leb (length r.buffer + length bytes) r.max_len ≡ true =
        ground (arith, few, ready.room) in
      elim (Bool-cases (ends_header (r.buffer ++ bytes))) [
        | inl ends ↦ ground (arith, in_time, no_growth, answer, fits, ends)
        | inr goes_on ↦ ground (arith, in_time, no_growth, answer, fits, goes_on)
      ]

  pub header_step :
      (fuel n : ℕ) (r : Reading W) (b : ℕ) (bytes : List ℕ)
      → 0 < n
      → content r.world ≡ b ∷ bytes
      → Ready t0 r n
      → (xs : List ℕ) × (ys : List ℕ) × (r' : Reading W) × (header_loop net timeout (suc fuel) n r
          ≡ (if ends_header r'.buffer then reading r' else header_loop net timeout fuel 1 r'))
        × (length xs < n)
        × (bytes ≡ xs ++ ys)
        × Took content r r' (b ∷ xs) ys
        × (r'.max_len ≡ r.max_len)
        × (t0 ≤ r'.starting_time)
  header_step fuel n r b bytes some_n stream ready =
      let w = (net.time_now r.world).1 in
      let (xs, ys, answer, few, split, left) =
        socket.delivers w n b bytes some_n (socket.still r.world ∙ stream) in
      let w' = (net.tcp_recv w n).1 in
      let eq = header_step_eq fuel n r (b ∷ xs) answer (omega (arith, few)) ready in
      let (took, start) = received-Took r r.max_len (b ∷ xs) ys w' left ready.started in
      (
        xs,
        ys,
        received net r r.max_len (b ∷ xs) w',
        eq,
        few,
        split,
        took,
        max_len-received r r.max_len (b ∷ xs) w',
        start,
      )

  -- A read of one byte.
  header_one :
      (fuel : ℕ) (r : Reading W) (d : ℕ) (more : List ℕ)
      → content r.world ≡ d ∷ more
      → Ready t0 r 1
      → (r' : Reading W) × (header_loop net timeout (suc fuel) 1 r
          ≡ (if ends_header r'.buffer then reading r' else header_loop net timeout fuel 1 r'))
        × Took content r r' (d ∷ []) more
        × (r'.max_len ≡ r.max_len)
        × (t0 ≤ r'.starting_time)
  header_one fuel r d more stream ready =
      let (xs, ys, r', eq, few, split, took, max, start) =
        header_step fuel 1 r d more (omega arith) stream ready in
      let nil = nil_of xs few in
      (
        r',
        eq,
        record {
          buffer = took.buffer ∙ ap (λ t. r.buffer ++ (d ∷ t)) nil;
          content_left = took.content_left ∙ sym (split ∙ ap (λ t. t ++ ys) nil);
          count = took.count ∙ ap (λ t. r.client.byte_recv + length (d ∷ t)) nil;
        },
        max,
        start,
      )

  pub Took-join :
      (r r' r'' : Reading W) (xs ys more rest : List ℕ)
      → Took content r r' xs more
      → Took content r' r'' ys rest
      → Took content r r'' (xs ++ ys) rest
  Took-join r r' r'' xs ys more rest first next = record {
    buffer = next.buffer ∙ (ap (λ t. t ++ ys) first.buffer ∙ append_assoc r.buffer xs ys);
    content_left = next.content_left;
    count = omega (arith, first.count, next.count, length-append xs ys);
  }

  -- The rest of the header, a byte at a time.
  pub header_run :
      (fuel : ℕ) (r : Reading W) (b : ℕ) (bs digits rest : List ℕ)
      → Digits digits
      → r.buffer ≡ b ∷ bs
      → content r.world ≡ digits ++ rest
      → length digits ≤ fuel
      → Ready t0 r (length digits)
      → (r' : Reading W) × (header_loop net timeout fuel 1 r ≡ reading r')
        × Took content r r' digits rest
        × (r'.max_len ≡ r.max_len)
  header_run fuel r b bs [] rest shape front stream enough ready = absurd shape
  header_run zero r b bs (d ∷ digits) rest shape front stream enough ready = absurd (omega arith)
  header_run (suc fuel) r b bs (d ∷ []) rest small front stream enough ready =
      let (r', eq, took, max, start) = header_one fuel r d rest stream ready in
      let last : ends_header r'.buffer ≡ true =
        ap ends_header (took.buffer ∙ ap (λ t. t ++ (d ∷ [])) front)
        ∙ (ends_header-last b bs d ∙ lt→ltb d 128 small) in
      (
        r',
        eq ∙ ap (λ t. if t then reading r' else header_loop net timeout fuel 1 r') last,
        took,
        max,
      )
  header_run (suc fuel) r b bs (d ∷ e ∷ digits) rest (large, shape) front stream enough ready =
      let more = (e ∷ digits) ++ rest in
      let (r', eq, took, max, start) =
        header_one fuel r d more stream
          (record { room = omega (arith, ready.room); started = ready.started }) in
      let grew : r'.buffer ≡ b ∷ (bs ++ (d ∷ [])) = took.buffer ∙ ap (λ t. t ++ (d ∷ [])) front in
      let inner : ends_header r'.buffer ≡ false =
        ap ends_header grew ∙ (ends_header-last b bs d ∙ le→ltb_false d 128 large) in
      let longer : length r'.buffer ≡ length r.buffer + 1 =
        ap length took.buffer ∙ length-append r.buffer (d ∷ []) in
      let (r'', run, took', max') =
        header_run fuel r' b (bs ++ (d ∷ [])) (e ∷ digits) rest shape grew took.content_left
          (omega arith)
          (record { room = omega (arith, longer, max, ready.room); started = start }) in
      (
        r'',
        eq ∙ (ap (λ t. if t then reading r' else header_loop net timeout fuel 1 r') inner ∙ run),
        Took-join r r' r'' (d ∷ []) (e ∷ digits) more rest took took',
        max' ∙ max,
      )
