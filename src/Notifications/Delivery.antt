-- ===== src/Notifications/Delivery.antt =====
-- What `NotificationService.notify` of apps/notifications/services.py writes.
use tenora.Base.{
  ℕ, String, true, ◌&&◌, ◌||◌, ◌≡◌, ◌∙◌, refl, Option, none, some, List, [], ◌∷◌, ◌++◌, arith, ◌==◌,
}
use text.Mathlib.TextPositions.{eq_refl}
use tenora.Notifications.{Kind, Ref, Notification, Inbox, is_muted, is_sent, same_key, notify}

is_sent-append :
    (r : ℕ) (k : Option String) (ns : List Notification) (n : Notification)
    → is_sent r k (ns ++ n ∷ []) ≡ (is_sent r k ns || (n.recipient == r && same_key n.dedupe_key k))
unfolding is_sent
is_sent-append r k [] n = ground arith
is_sent-append r k (m ∷ ns) n = ground (arith, is_sent-append r k ns n)

is_muted-append :
    (box : Inbox) (r : ℕ) (k : Kind) (rows : List Notification)
    → is_muted (record box { rows = rows }) r k ≡ is_muted box r k
unfolding is_muted
is_muted-append box r k rows = refl

-- The notification that `notify` writes.
abbrev pub delivered : ℕ → Kind → Option ℕ → List Ref → Option String → Notification
delivered r k tenant refs key = record {
  recipient = r;
  tenant = tenant;
  kind = k;
  refs = refs;
  dedupe_key = key;
  read_at = none;
}

sent_then :
    (r : ℕ) (k : Kind) (tenant : Option ℕ) (refs : List Ref) (key : String)
    (rows : List Notification)
    → is_sent r (some key) (rows ++ delivered r k tenant refs (some key) ∷ []) ≡ true
sent_then r k tenant refs key rows =
    is_sent-append r (some key) rows (delivered r k tenant refs (some key))
    ∙ ground (arith, eq_refl key)

-- A second notify of the same kind to the same recipient under the same deduplication key changes
-- nothing after the first, whatever its workspace and references.
pub notify_once :
    (r : ℕ) (k : Kind) (tenant tenant' : Option ℕ) (refs refs' : List Ref) (key : String)
    (box : Inbox)
    → notify r k tenant' refs' (some key) (notify r k tenant refs (some key) box)
      ≡ notify r k tenant refs (some key) box
unfolding notify
notify_once r k tenant tenant' refs refs' key box = ground (
  arith,
  sent_then r k tenant refs key box.rows,
  is_muted-append box r k (box.rows ++ delivered r k tenant refs (some key) ∷ []),
)
