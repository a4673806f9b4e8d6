-- ===== src/Tr50/Api/Ids.antt =====
-- The identifiers of calls wrap behind 65536, and the last 65536 are distinct.
use libtr.Base.{ℕ, zero, suc, ◌+◌, ◌%◌, ◌≤◌, ◌<◌, ◌≡◌, ◌≢◌, arith}
use libtr.Tr50.Api.{msg_id_next, nth_id}

step :
    (seq_id : ℕ)
    → seq_id ≤ 65536
    → (1 ≤ msg_id_next seq_id)
      × (msg_id_next seq_id ≤ 65536)
      × (msg_id_next seq_id % 65536 ≡ (seq_id + 1) % 65536)
unfolding msg_id_next
step seq_id h = ground arith

-- From a `seq_id` of at most 65536 on, the identifier of each call lies between 1 and 65536, and it
-- is `seq_id` plus the number of the call modulo 65536.
pub nth_id_bounds :
    (seq_id n : ℕ)
    → seq_id ≤ 65536
    → (1 ≤ nth_id seq_id (suc n))
      × (nth_id seq_id (suc n) ≤ 65536)
      × (nth_id seq_id (suc n) % 65536 ≡ (seq_id + suc n) % 65536)
unfolding nth_id
nth_id_bounds seq_id zero h = step seq_id h
nth_id_bounds seq_id (suc n) h =
    let (low, high, before) = nth_id_bounds seq_id n h in
    let (low', high', next) = step (nth_id seq_id (suc n)) high in
    (low', high', omega (arith, before, next))

-- From a `seq_id` of at most 65536 on, two different calls that are fewer than 65536 apart do not
-- share an identifier.
pub nth_id_distinct :
    (seq_id n k : ℕ)
    → seq_id ≤ 65536
    → 1 ≤ k
    → k < 65536
    → nth_id seq_id (suc n) ≢ nth_id seq_id (suc (n + k))
nth_id_distinct seq_id n k h some_k few same =
    absurd (omega (arith, (nth_id_bounds seq_id n h).2, (nth_id_bounds seq_id (n + k) h).2, same))
