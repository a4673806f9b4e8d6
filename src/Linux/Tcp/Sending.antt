-- ===== src/Linux/Tcp/Sending.antt =====
-- What `_tcp_send` hands to the kernel.
use libtr.Base.{
  ◌≢◌, ◌⊎◌, ℕ, zero, suc, ◌+◌, ◌≤◌, ◌<◌, ◌≡◌, refl, sym, ap, ◌∙◌, List, ◌++◌, append-nil,
  append_assoc, none, some, true, false, ◌==◌, length, take, drop, length-drop, Bool-cases, inl,
  inr, arith, take-take, length-take_le, take_more, take-nonempty,
}
use libtr.Base.Int.{ℤ, pos, is_zero}
use libtr.Error.{err_tr50_sock_other, Res, ok, ◌>>=◌, err_tr50_sock_send_failed}
use libtr.Linux.Tcp.{
  plain_send, Kernel, Socket, Selected, ready, timed_out, unselected, Sent, accepted, refused,
  dtcpbuf, waits, selected, not_selected, moved, noting, bad_timeout, send_loop, tcp_send,
}

-- What `send` and `select` promise for a socket that blocks: `stream w` are the bytes that the kernel
-- has taken. A call takes the first of the bytes, and at least one where it does not fail.
pub record Accepts {W : Type 0} (kernel : Kernel W) (stream : W → List ℕ) : Type 0 where
  pub selecting : (w : W) → stream (kernel.select_write w).1 ≡ stream w
  pub refusing :
      (w : W) (bytes : List ℕ) (code : ℤ)
      → (kernel.send w bytes).0 ≡ refused code
      → stream (kernel.send w bytes).1 ≡ stream w
  pub accepting :
      (w : W) (bytes : List ℕ) (n : ℕ)
      → (kernel.send w bytes).0 ≡ accepted n
      → (n ≤ length bytes)
        × (0 < length bytes → 0 < n)
        × (stream (kernel.send w bytes).1 ≡ stream w ++ take n bytes)

-- `n` of the bytes came to the stream, all of them where the code is 0.
pub record Delivered {W : Type 0} (stream : W → List ℕ) (before : W) (bytes : List ℕ) (ret : ℤ)
    (behind : W) : Type 0 where
  pub count : ℕ
  pub in_bounds : count ≤ length bytes
  pub in_order : stream behind ≡ stream before ++ take count bytes
  pub complete : is_zero ret ≡ true → count ≡ length bytes

equal_of : (a b : ℕ) → (a == b) ≡ true → a ≡ b
equal_of a b e = ground arith

differs_of : (a b : ℕ) → (a == b) ≡ false → a ≢ b
differs_of a b e = ground arith

Sent-cases : (s : Sent) → ((n : ℕ) × (s ≡ accepted n)) ⊎ ((code : ℤ) × (s ≡ refused code))
Sent-cases (accepted n) = inl (n, refl)
Sent-cases (refused code) = inr (code, refl)

module _ {W : Type 0} (kernel : Kernel W) (stream : W → List ℕ)
    (accepts : Accepts kernel stream) where
  nothing_sent :
      (before behind : W) (bytes : List ℕ) (ret : ℤ)
      → stream behind ≡ stream before
      → is_zero ret ≡ false
      → Delivered stream before bytes ret behind
  nothing_sent before behind bytes ret still bad = record {
    count = 0;
    in_bounds = omega arith;
    in_order = still ∙ sym (append-nil (stream before));
    complete = λ good. absurd cc;
  }

  waiting_keeps :
      (timeout : ℤ) (w : W) → stream (selected timeout kernel.select_write w).1 ≡ stream w
  waiting_keeps timeout w = elim (Bool-cases (waits timeout)) [
    | inl long ↦ rw long (accepts.selecting w)
    | inr short ↦ rw short refl
  ]

  not_selected-cases :
      (sock : Socket W) (waited : Selected × W) (bytes : List ℕ)
      → stream waited.1 ≡ stream sock.world
      → (not_selected sock waited ≡ none)
        ⊎ ((failure : ℤ × Socket W) × (not_selected sock waited ≡ some failure)
            × Delivered stream sock.world bytes failure.0 failure.1.world)
  not_selected-cases sock (ready, w) bytes still = inl refl
  not_selected-cases sock (timed_out, w) bytes still =
      inr (_, refl, nothing_sent sock.world w bytes _ still refl)
  not_selected-cases sock (unselected code, w) bytes still =
      inr (_, refl, nothing_sent sock.world w bytes _ still refl)

  -- What one `send` and the rounds behind it did together.
  Delivered-then :
      (before between behind : W) (n : ℕ) (bytes : List ℕ) (ret : ℤ)
      → n ≤ length bytes
      → stream between ≡ stream before ++ take n bytes
      → Delivered stream between (drop n bytes) ret behind
      → Delivered stream before bytes ret behind
  Delivered-then before between behind n bytes ret bound first rest = record {
    count = n + rest.count;
    in_bounds = omega (arith, rest.in_bounds, length-drop n bytes);
    in_order =
        rest.in_order
        ∙ ap (λ t. t ++ take rest.count (drop n bytes)) first
        ∙ append_assoc (stream before) (take n bytes) (take rest.count (drop n bytes))
        ∙ ap (λ t. stream before ++ t) (take_more n rest.count bytes bound);
    complete = λ good. omega (arith, rest.complete good, length-drop n bytes);
  }

  abbrev Sends : ℕ → ℤ → List ℕ → Socket W → Type 0
  Sends fuel timeout rest sock =
      (out : ℤ × Socket W) × (send_loop kernel fuel timeout rest sock ≡ ok out)
      × Delivered stream sock.world rest out.0 out.1.world

  -- One round behind a `select` that says that the socket is ready.
  send_step :
      (fuel : ℕ) (timeout : ℤ) (rest : List ℕ) (sock : Socket W)
      → length rest < suc fuel
      → not_selected sock (selected timeout kernel.select_write sock.world) ≡ none
      → ((rest' : List ℕ) (sock' : Socket W) → length rest' < fuel → Sends fuel timeout rest' sock')
      → Sends (suc fuel) timeout rest sock
  unfolding send_loop
  send_step fuel timeout rest sock enough waited again =
      let w = (selected timeout kernel.select_write sock.world).1 in
      let still = waiting_keeps timeout sock.world in
      let (answer, w') = kernel.send w (take dtcpbuf rest) in
      elim (Sent-cases answer) [
        | inr (code, bad) ↦ (
          (err_tr50_sock_send_failed, noting sock w' code),
          rw (waited, bad, send_loop) refl,
          nothing_sent sock.world w' rest err_tr50_sock_send_failed
              (accepts.refusing w (take dtcpbuf rest) code bad ∙ still) refl,
        )
        | inl (n, good) ↦
            let (bound, some_sent, order) = accepts.accepting w (take dtcpbuf rest) n good in
            let bound' : n ≤ length rest = omega (arith, bound, length-take_le dtcpbuf rest) in
            let first : stream w' ≡ stream sock.world ++ take n rest =
              order
              ∙ ap (λ t. stream w ++ t) (take-take n dtcpbuf rest bound)
              ∙ ap (λ t. t ++ take n rest) still in
            elim (Bool-cases (n == length rest)) [
              | inl all ↦ (
                (pos 0, moved sock w'),
                rw (waited, good, all, send_loop) refl,
                record {
                  count = n;
                  in_bounds = bound';
                  in_order = first;
                  complete = λ done. equal_of n (length rest) all;
                },
              )
              | inr part ↦
                  let differs : n ≢ length rest = differs_of n (length rest) part in
                  let left : 0 < length rest = omega arith in
                  let advanced = some_sent (take-nonempty 65534 rest left) in
                  let (out, run, delivered) =
                    again (drop n rest) (moved sock w')
                      (omega (arith, length-drop n rest, advanced)) in
                  (
                    out,
                    rw (waited, good, part, send_loop) run,
                    Delivered-then sock.world w' out.1.world n rest out.0 bound' first delivered,
                  )
            ]
      ]

  send_loop-Delivered :
      (fuel : ℕ) (timeout : ℤ) (rest : List ℕ) (sock : Socket W)
      → length rest < fuel
      → Sends fuel timeout rest sock
  unfolding send_loop
  send_loop-Delivered zero timeout rest sock enough = absurd (omega arith)
  send_loop-Delivered (suc fuel) timeout rest sock enough =
      elim (not_selected-cases sock (selected timeout kernel.select_write sock.world) rest
        (waiting_keeps timeout sock.world)) [
          | inl waited ↦
              send_step fuel timeout rest sock enough waited (send_loop-Delivered fuel timeout)
          | inr (failure, unready, delivered) ↦ (failure, rw (unready, send_loop) refl, delivered)
        ]

  plain_send-Delivered :
      (fuel : ℕ) (sock : Socket W) (buffer : List ℕ) (timeout : ℤ)
      → length buffer < fuel
      → (out : ℤ × Socket W) × (plain_send kernel fuel sock buffer timeout ≡ ok out)
        × Delivered stream sock.world buffer out.0 out.1.world
  unfolding plain_send
  plain_send-Delivered fuel sock buffer timeout enough = elim (Bool-cases (bad_timeout timeout)) [
    | inl bad ↦ (
      (err_tr50_sock_other, noting sock sock.world (kernel.errno sock.world)),
      rw (bad, plain_send) refl,
      nothing_sent sock.world sock.world buffer err_tr50_sock_other refl refl,
    )
    | inr good ↦
        let (out, run, delivered) = send_loop-Delivered fuel timeout buffer sock enough in
        (out, rw (good, plain_send) run, delivered)
  ]

  -- On a plain socket that blocks, `_tcp_send` returns after at most one round for each byte and one
  -- more. What the kernel has taken then is what it had before and a prefix of the buffer in
  -- order, and the whole buffer where the code is 0.
  pub tcp_send-Delivered :
      (fuel : ℕ) (sock : Socket W) (buffer : List ℕ) (timeout : ℤ)
      → sock.is_ssl ≡ false
      → length buffer < fuel
      → (ret : ℤ) × (sock' : Socket W) × (tcp_send kernel fuel (some sock) buffer timeout
          ≡ ok (ret, some sock'))
        × Delivered stream sock.world buffer ret sock'.world
  unfolding tcp_send
  tcp_send-Delivered fuel sock buffer timeout plain enough =
      let (out, run, delivered) = plain_send-Delivered fuel sock buffer timeout enough in
      (
        out.0,
        out.1,
        ap
              (λ b.
                elim b as (λ _. Res (ℤ × Socket W)) [
                  | true ↦
                      (let (ret, w) = kernel.ssl_send sock.world buffer timeout in
                        ok (ret, moved sock w))
                  | false ↦ plain_send kernel fuel sock buffer timeout
                ]
                >>= (λ (ret, sock'). ok (ret, some sock')))
              plain
            ∙ ap (λ m. m >>= (λ (ret, sock'). ok (ret, some sock'))) run,
        delivered,
      )
