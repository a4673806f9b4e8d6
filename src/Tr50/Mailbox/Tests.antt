-- ===== src/Tr50/Mailbox/Tests.antt =====
-- The mailbox with a check on its way and another one asked for meanwhile.
use libtr.Base.{◌≡◌, ◌≤◌, refl, some, true, false}
use libtr.Base.Int.{pos}
use libtr.Tr50.Mailbox.{err_tr50_mailbox_check_in_progress, Mailbox, mailbox_check, check_callback}
use libtr.Tr50.Mailbox.Laws.{
  IsConsistent, fresh, checked, Reachable-IsConsistent, check_callback-again,
}

abbrev idle : Mailbox
idle = record {
  mailbox_suspend = false;
  mailbox_send_in_progress = false;
  mailbox_another_request = false;
  outstanding = 0;
}

abbrev busy : Mailbox
busy = (mailbox_check idle (pos 0)).1

Reachable-IsConsistent_example :
    IsConsistent (mailbox_check (mailbox_check idle (pos 0)).1 (pos 0)).1
    × ((mailbox_check (mailbox_check idle (pos 0)).1 (pos 0)).1.outstanding ≤ 1)
Reachable-IsConsistent_example =
    Reachable-IsConsistent (mailbox_check (mailbox_check idle (pos 0)).1 (pos 0)).1
      (checked (mailbox_check idle (pos 0)).1 (pos 0) (checked idle (pos 0) fresh))

check_callback-again_example :
    ((mailbox_check busy (pos 0)).0 ≡ err_tr50_mailbox_check_in_progress)
    × ((mailbox_check busy (pos 0)).1.outstanding ≡ 1)
    × ((check_callback (mailbox_check busy (pos 0)).1 (pos 0) (some 0) (pos 0)).outstanding ≡ 1)
    × ((check_callback
          (mailbox_check busy (pos 0)).1
          (pos 0)
          (some 0)
          (pos 0)).mailbox_send_in_progress
        ≡ true)
    × ((check_callback
          (mailbox_check busy (pos 0)).1
          (pos 0)
          (some 0)
          (pos 0)).mailbox_another_request
        ≡ false)
unfolding mailbox_check
check_callback-again_example =
    check_callback-again busy (pos 0) (pos 0) (some 0) (pos 0) (checked idle (pos 0) fresh) refl
      refl
