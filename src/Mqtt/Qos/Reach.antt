-- ===== src/Mqtt/Qos/Reach.antt =====
-- The life of a table: what `mqtt_qos_create` makes and the other functions lead to.
use libtr.Base.{
  ℕ, zero, suc, ◌≤◌, ◌≡◌, refl, ap, Option, true, arith, sym, replicate, length-replicate,
}
use mathlib.Core.Path.{subst}
use libtr.Base.Int.{ℤ}
use libtr.Error.{Res, ok}
use libtr.Mqtt.Qos.{Qos, blank, create, add, signal, clear, any_expired}
use libtr.Mqtt.Qos.Count.{used_count, IsValid, used_count-le, add_lem}
use libtr.Mqtt.Qos.Slots.{signal_lem, clear_lem}
use libtr.Mqtt.Qos.Expiry.{any_expired_lem}

-- A table that some sequence of calls leads to, from its creation on.
pub data Reachable (size timeout : ℕ) : Qos → Type 0 where
  made : (q : Qos) → create true true size timeout ≡ ok q → Reachable size timeout q
  added :
      (q : Qos) (msg_id : ℕ) (callback : Option ℕ) (custom now : ℕ)
      → Reachable size timeout q
      → Reachable size timeout (add q msg_id callback custom now).0
  signalled :
      (q : Qos) (msg_id : ℕ) → Reachable size timeout q → Reachable size timeout (signal q msg_id).0
  cleared :
      (q : Qos) (status : ℤ) → Reachable size timeout q → Reachable size timeout (clear q status).0
  checked :
      (q : Qos) (now : ℕ) → Reachable size timeout q → Reachable size timeout (any_expired q now).0

used_count-blank : (n : ℕ) → used_count (replicate n blank) ≡ 0
used_count-blank zero = refl
used_count-blank (suc n) = omega (arith, used_count-blank n)

fresh : ℕ → ℕ → Qos
fresh size timeout = record {
  max_size = size;
  current_size = 0;
  records = replicate size blank;
  timeout_in_sec = timeout;
}

fresh-IsValid : (size timeout : ℕ) → IsValid (fresh size timeout)
unfolding fresh
fresh-IsValid size timeout = record {
  size = length-replicate size blank;
  count = sym (used_count-blank size);
}

value_of : Qos → Res Qos → Qos
value_of q (ok r) = r
value_of q _ = q

created-fresh :
    (size timeout : ℕ) (q : Qos) → create true true size timeout ≡ ok q → fresh size timeout ≡ q
unfolding create fresh value_of
created-fresh size timeout q e = ap (value_of q) e

reach-IsValid : (size timeout : ℕ) (q : Qos) → Reachable size timeout q → IsValid q
reach-IsValid size timeout _ (made q e) =
    subst IsValid (created-fresh size timeout q e) (fresh-IsValid size timeout)
reach-IsValid size timeout _ (added q msg_id callback custom now r) =
    (add_lem q msg_id callback custom now 0 (reach-IsValid size timeout q r)).0
reach-IsValid size timeout _ (signalled q msg_id r) =
    (signal_lem q msg_id 0 (reach-IsValid size timeout q r)).0
reach-IsValid size timeout _ (cleared q status r) =
    (clear_lem q status (reach-IsValid size timeout q r)).0
reach-IsValid size timeout _ (checked q now r) =
    (any_expired_lem q now 0 (reach-IsValid size timeout q r)).0

-- Every table that a sequence of calls leads to is consistent: it holds `max_size` records, and
-- `current_size` is the number of those in use, so at most `max_size`.
pub Reachable-IsValid :
    (size timeout : ℕ) (q : Qos)
    → Reachable size timeout q
    → IsValid q × (q.current_size ≤ q.max_size)
Reachable-IsValid size timeout q reach =
    let valid = reach-IsValid size timeout q reach in
    (valid, omega (arith, used_count-le q.records, valid.size, valid.count))
