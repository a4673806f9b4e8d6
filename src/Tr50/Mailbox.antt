-- ===== src/Tr50/Mailbox.antt =====
-- The mailbox: tr50.mailbox.c. One check is on its way at a time, and another one that is asked for
-- meanwhile is remembered. The items of a reply are handed to the commands and methods, which are
-- not modelled; what the sending of a check returns is given from outside.
pub mod Laws
mod Tests
use libtr.Base.{
  ℕ, zero, suc, ◌+◌, ◌-◌, Option, none, some, Bool, true, false, ◌||◌, ltb, if◌then◌else◌,
}
use libtr.Base.Int.{ℤ, pos, is_zero}
use libtr.Error.{err_tr50_parms, err_tr50_mailbox_suspended, err_tr50_mailbox_check_in_progress}

-- The fields of `_TR50_CLIENT` for the mailbox. `outstanding` counts the checks that were sent and
-- whose callback was not called yet; the source does not keep it.
pub record Mailbox : Type 0 where
  pub mailbox_suspend : Bool
  pub mailbox_send_in_progress : Bool
  pub mailbox_another_request : Bool
  pub outstanding : ℕ

-- `tr50_mailbox_check`; `sent` is the first code that is not 0 of `tr50_message_create` and
-- `tr50_api_call_async`, or 0.
unfoldable pub mailbox_check : Mailbox → ℤ → ℤ × Mailbox
mailbox_check box sent =
    if box.mailbox_suspend
    then (err_tr50_mailbox_suspended, box)
    else if box.mailbox_send_in_progress
    then (err_tr50_mailbox_check_in_progress, record box { mailbox_another_request = true })
    else if is_zero sent
    then (pos 0, record box { mailbox_send_in_progress = true; outstanding = box.outstanding + 1 })
    else (sent, record box { mailbox_send_in_progress = false; mailbox_another_request = false })

-- `tr50_mailbox_suspend` and `tr50_mailbox_resume`; `none` is a NULL client.
unfoldable pub mailbox_suspend : Option Mailbox → ℤ × Option Mailbox
mailbox_suspend none = (err_tr50_parms, none)
mailbox_suspend (some box) = (pos 0, some (record box { mailbox_suspend = true }))

unfoldable pub mailbox_resume : Option Mailbox → Bool → ℤ → ℤ × Option Mailbox
unfolding mailbox_check
mailbox_resume none check_immediately sent = (err_tr50_parms, none)
mailbox_resume (some box) check_immediately sent =
    let resumed = record box { mailbox_suspend = false } in
    (pos 0, some (if check_immediately then (mailbox_check resumed sent).1 else resumed))

-- The number of items of a reply: none where the check failed or the reply has no messages.
abbrev pub item_count : ℤ → Option ℕ → ℕ
item_count status none = 0
item_count status (some count) = if is_zero status then count else 0

-- `_tr50_mailbox_check_callback`: the check is over, and another one is sent where items came or it
-- was asked for.
unfoldable pub check_callback : Mailbox → ℤ → Option ℕ → ℤ → Mailbox
unfolding mailbox_check
check_callback box status messages sent =
    let over = record box { mailbox_send_in_progress = false; outstanding = box.outstanding - 1 } in
    if ltb 0 (item_count status messages) || box.mailbox_another_request
    then (mailbox_check (record over { mailbox_another_request = false }) sent).1
    else over
