-- ===== src/Notifications/Examples.antt =====
-- A reminder that is sent twice under one key.
use tenora.Base.{true, ◌≡◌, none, some, []}
use tenora.Notifications.{Inbox, notify, bill_overdue}
use tenora.Notifications.Delivery.{notify_once}

abbrev inbox : Inbox
inbox = record { rows = []; preferences = []; is_active = λ _. true }

notify_once_example :
    notify 30 bill_overdue none []
      (some "bill-100-overdue")
      (notify 30 bill_overdue (some 1) [] (some "bill-100-overdue") inbox)
    ≡ notify 30 bill_overdue (some 1) [] (some "bill-100-overdue") inbox
notify_once_example = notify_once 30 bill_overdue (some 1) none [] [] "bill-100-overdue" inbox
