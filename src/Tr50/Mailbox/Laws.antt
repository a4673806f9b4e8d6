-- ===== src/Tr50/Mailbox/Laws.antt =====
-- One check at a time, and no request that is forgotten.
use mathlib.Core.Path.{subst}
use libtr.Base.{
  ap, ◌<◌, ℕ, ◌-◌, ◌≤◌, ◌≡◌, refl, Option, none, some, Bool, true, false, ◌||◌, ltb, if◌then◌else◌,
  Bool-cases, inl, inr, arith,
}
use libtr.Base.Int.{ℤ, is_zero}
use libtr.Tr50.Mailbox.{
  err_tr50_mailbox_check_in_progress, Mailbox, mailbox_check, mailbox_suspend, mailbox_resume,
  check_callback, item_count,
}

-- The flag tells whether a check is outstanding, there is at most one, and another one is only
-- remembered while one is.
pub record IsConsistent (box : Mailbox) : Type 0 where
  pub one : box.outstanding ≡ (if box.mailbox_send_in_progress then 1 else 0)
  pub remembered : box.mailbox_another_request ≡ true → box.mailbox_send_in_progress ≡ true

mailbox_check-IsConsistent :
    (box : Mailbox) (sent : ℤ) → IsConsistent box → IsConsistent (mailbox_check box sent).1
unfolding mailbox_check
mailbox_check-IsConsistent box sent whole = record { one = ground arith; remembered = ground arith }

check_callback-IsConsistent :
    (box : Mailbox) (status : ℤ) (messages : Option ℕ) (sent : ℤ)
    → IsConsistent box
    → IsConsistent (check_callback box status messages sent)
unfolding check_callback
check_callback-IsConsistent box status messages sent whole =
    let over : Mailbox = record box {
      mailbox_send_in_progress = false;
      outstanding = box.outstanding - 1;
    } in
    let left : box.outstanding - 1 ≡ 0 = ground arith in
    elim (Bool-cases (ltb 0 (item_count status messages) || box.mailbox_another_request)) [
      | inl again ↦ rw again (
          mailbox_check-IsConsistent (record over { mailbox_another_request = false }) sent
            (record { one = left; remembered = λ h. cc }))
      | inr done ↦ rw done (record { one = left; remembered = ground (arith, done) })
    ]

-- A mailbox that a sequence of calls and of callbacks leads to.
pub data Reachable : Mailbox → Type 0 where
  fresh : Reachable (record {
    mailbox_suspend = false;
    mailbox_send_in_progress = false;
    mailbox_another_request = false;
    outstanding = 0;
  })
  checked : (box : Mailbox) (sent : ℤ) → Reachable box → Reachable (mailbox_check box sent).1
  suspended :
      (box box' : Mailbox) (ret : ℤ)
      → Reachable box
      → mailbox_suspend (some box) ≡ (ret, some box')
      → Reachable box'
  resumed :
      (box box' : Mailbox) (check_immediately : Bool) (sent ret : ℤ)
      → Reachable box
      → mailbox_resume (some box) check_immediately sent ≡ (ret, some box')
      → Reachable box'
  called_back :
      (box : Mailbox) (status : ℤ) (messages : Option ℕ) (sent : ℤ)
      → 0 < box.outstanding
      → Reachable box
      → Reachable (check_callback box status messages sent)

box_of : Mailbox → ℤ × Option Mailbox → Mailbox
box_of box (ret, none) = box
box_of box (ret, some box') = box'

suspend-IsConsistent :
    (box box' : Mailbox) (ret : ℤ)
    → IsConsistent box
    → mailbox_suspend (some box) ≡ (ret, some box')
    → IsConsistent box'
unfolding mailbox_suspend box_of
suspend-IsConsistent box box' ret whole e =
    let same = ap (box_of box) e in
    subst IsConsistent same (record { one = whole.one; remembered = whole.remembered })

resume-IsConsistent :
    (box box' : Mailbox) (now : Bool) (sent ret : ℤ)
    → IsConsistent box
    → mailbox_resume (some box) now sent ≡ (ret, some box')
    → IsConsistent box'
unfolding mailbox_resume box_of
resume-IsConsistent box box' now sent ret whole e =
    let resumed : Mailbox = record box { mailbox_suspend = false } in
    let fine : IsConsistent resumed = record { one = whole.one; remembered = whole.remembered } in
    let result : IsConsistent (if now then (mailbox_check resumed sent).1 else resumed) =
      elim (Bool-cases now) [
        | inl at_once ↦ rw at_once (mailbox_check-IsConsistent resumed sent fine)
        | inr later ↦ rw later fine
      ] in
    subst IsConsistent (ap (box_of box) e) result

-- In each mailbox that a sequence of calls and callbacks leads to, at most one check is outstanding,
-- `mailbox_send_in_progress` tells whether one is, and another request is only remembered while one
-- is.
pub Reachable-IsConsistent :
    (box : Mailbox) → Reachable box → IsConsistent box × (box.outstanding ≤ 1)
Reachable-IsConsistent box reach = let whole = go box reach in (whole, ground (arith, whole.one))
  where
    go : (box : Mailbox) → Reachable box → IsConsistent box
    go _ fresh = record { one = refl; remembered = λ h. cc }
    go _ (checked box sent reach) = mailbox_check-IsConsistent box sent (go box reach)
    go _ (suspended box box' ret reach e) = suspend-IsConsistent box box' ret (go box reach) e
    go _ (resumed box box' now sent ret reach e) =
        resume-IsConsistent box box' now sent ret (go box reach) e
    go _ (called_back box status messages sent some_out reach) =
        check_callback-IsConsistent box status messages sent (go box reach)

-- The end of a check while another request is remembered.
served :
    (box : Mailbox) (status : ℤ) (messages : Option ℕ) (sent : ℤ)
    → box.mailbox_another_request ≡ true
    → box.outstanding ≡ 1
    → box.mailbox_suspend ≡ false
    → ((check_callback box status messages sent).outstanding ≡ (if is_zero sent then 1 else 0))
      × ((check_callback box status messages sent).mailbox_send_in_progress ≡ is_zero sent)
      × ((check_callback box status messages sent).mailbox_another_request ≡ false)
unfolding check_callback mailbox_check
served box status messages sent asked one open_box = (ground arith, ground arith, ground arith)

mailbox_check-remembers :
    (box : Mailbox) (sent : ℤ)
    → box.mailbox_suspend ≡ false
    → box.mailbox_send_in_progress ≡ true
    → mailbox_check box sent
      ≡ (err_tr50_mailbox_check_in_progress, record box { mailbox_another_request = true })
unfolding mailbox_check
mailbox_check-remembers box sent open_box sending = simp (open_box, sending) refl

-- In a mailbox that a sequence of calls and callbacks leads to, that is not suspended and has a
-- check on its way, a second call of `tr50_mailbox_check` returns
-- ERR_TR50_MAILBOX_CHECK_IN_PROGRESS and sends nothing. When the first check is over, whatever it
-- brought, one more check is asked for: where it can be sent, one check is outstanding again and the
-- flag says so, else none is; no request is remembered in either case.
pub check_callback-again :
    (box : Mailbox) (sent0 : ℤ) (status : ℤ) (messages : Option ℕ) (sent : ℤ)
    → Reachable box
    → box.mailbox_suspend ≡ false
    → box.mailbox_send_in_progress ≡ true
    → ((mailbox_check box sent0).0 ≡ err_tr50_mailbox_check_in_progress)
      × ((mailbox_check box sent0).1.outstanding ≡ 1)
      × ((check_callback (mailbox_check box sent0).1 status messages sent).outstanding
          ≡ (if is_zero sent then 1 else 0))
      × ((check_callback (mailbox_check box sent0).1 status messages sent).mailbox_send_in_progress
          ≡ is_zero sent)
      × ((check_callback (mailbox_check box sent0).1 status messages sent).mailbox_another_request
          ≡ false)
check_callback-again box sent0 status messages sent reach open_box sending =
    let whole = (Reachable-IsConsistent box reach).0 in
    let one : box.outstanding ≡ 1 = rw whole.one (rw sending refl) in
    let asked = record box { mailbox_another_request = true } in
    let (out, flag, left) = served asked status messages sent refl one open_box in
    rw (mailbox_check-remembers box sent0 open_box sending) (refl, one, out, flag, left)

-- While the mailbox is suspended such a request is dropped: when the check is over, none is on its
-- way and none is remembered.
pub check_callback-drops :
    (box : Mailbox) (status : ℤ) (messages : Option ℕ) (sent : ℤ)
    → box.mailbox_another_request ≡ true
    → box.mailbox_suspend ≡ true
    → ((check_callback box status messages sent).mailbox_send_in_progress ≡ false)
      × ((check_callback box status messages sent).mailbox_another_request ≡ false)
unfolding check_callback mailbox_check
check_callback-drops box status messages sent asked shut = (ground arith, ground arith)
