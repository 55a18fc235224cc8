-- ===== src/Notifications.antt =====
-- apps/notifications: the in-app notifications, who muted what, and `NotificationService`.
-- Titles and bodies, which are texts for display, are left out of the rows.
pub mod Delivery
pub mod Examples
use tenora.Base.{
  ℕ, String, Bool, true, false, not, ◌&&◌, ◌||◌, Option, none, some, List, [], ◌∷◌, ◌++◌, ◌==◌,
  if◌then◌else◌,
}
use tenora.Base.Table.{Table, lookup, save}
use tenora.Base.Text.{same_text}

pub data Kind : Type 0 where
  invitation_received invitation_accepted invitation_declined invitation_cancelled : Kind
  member_left membership_ended : Kind
  bill_published bill_due_soon bill_overdue bill_corrected bill_cancelled : Kind
  payment_recorded payment_voided receipt_issued online_payment_unapplied : Kind
  overdue_summary cycle_incomplete plan_limit : Kind

-- The routing hints in `data`.
pub data Ref : Type 0 where
  bill_ref payment_ref receipt_ref invitation_ref tenant_ref : ℕ → Ref
  membership_ref resident_ref : ℕ → Ref

pub record Notification : Type 0 where
  pub recipient : ℕ
  pub tenant : Option ℕ
  pub kind : Kind
  pub refs : List Ref
  pub dedupe_key : Option String
  pub read_at : Option ℕ

pub record Preferences : Type 0 where
  pub billing : Bool
  pub payments : Bool
  pub membership : Bool
  pub email_enabled : Bool

-- The rows, the preferences by user, and which accounts are active.
pub record Inbox : Type 0 where
  pub rows : List Notification
  pub preferences : Table Preferences
  pub is_active : ℕ → Bool

pub data Field : Type 0 where
  billing_field payments_field membership_field : Field

-- `PREFERENCE_FOR_KIND.get(kind)`
unfoldable pub preference_for : Kind → Option Field
preference_for invitation_accepted = some membership_field
preference_for invitation_declined = some membership_field
preference_for invitation_cancelled = some membership_field
preference_for member_left = some membership_field
preference_for membership_ended = some membership_field
preference_for bill_published = some billing_field
preference_for bill_due_soon = some billing_field
preference_for bill_overdue = some billing_field
preference_for bill_corrected = some billing_field
preference_for bill_cancelled = some billing_field
preference_for overdue_summary = some billing_field
preference_for cycle_incomplete = some billing_field
preference_for plan_limit = some billing_field
preference_for payment_recorded = some payments_field
preference_for payment_voided = some payments_field
preference_for receipt_issued = some payments_field
preference_for online_payment_unapplied = some payments_field
preference_for invitation_received = none

abbrev pub preference : Preferences → Field → Bool
preference p billing_field = p.billing
preference p payments_field = p.payments
preference p membership_field = p.membership

-- Whether the recipient's preferences silence the kind.
unfoldable pub is_muted : Inbox → ℕ → Kind → Bool
unfolding preference_for
is_muted box recipient kind = elim (preference_for kind) [
  | none ↦ false
  | some field ↦ elim (lookup recipient box.preferences) [
    | none ↦ false
    | some prefs ↦ not (preference prefs field)
  ]
]

abbrev pub same_key : Option String → Option String → Bool
same_key (some a) (some b) = same_text a b
same_key _ _ = false

-- UNIQUE(recipient, dedupe_key) where the key is not null.
unfoldable pub is_sent : ℕ → Option String → List Notification → Bool
is_sent recipient key [] = false
is_sent recipient key (n ∷ rows) =
    n.recipient == recipient && same_key n.dedupe_key key || is_sent recipient key rows

unfoldable pub notify : ℕ → Kind → Option ℕ → List Ref → Option String → Inbox → Inbox
notify recipient kind tenant refs key box =
    if not (box.is_active recipient)
    then box
    else if is_muted box recipient kind
    then box
    else if is_sent recipient key box.rows
    then box
    else record box {
      rows =
          box.rows
          ++ record {
            recipient = recipient;
            tenant = tenant;
            kind = kind;
            refs = refs;
            dedupe_key = key;
            read_at = none;
          }
            ∷ [];
    }

abbrev pub default_preferences : Preferences
default_preferences = record {
  billing = true;
  payments = true;
  membership = true;
  email_enabled = false;
}

-- `get_or_create(user=user)`: the row with its defaults, if there is none.
abbrev pub preferences_for : ℕ → Inbox → Preferences
preferences_for user box = elim (lookup user box.preferences) [
  | none ↦ default_preferences
  | some p ↦ p
]

-- The fields that a request names; the others keep their value.
pub record Changes : Type 0 where
  pub billing : Option Bool
  pub payments : Option Bool
  pub membership : Option Bool
  pub email_enabled : Option Bool

abbrev changed : Option Bool → Bool → Bool
changed none old = old
changed (some new) old = new

unfoldable pub update_preferences : ℕ → Changes → Inbox → Inbox
update_preferences user c box =
    let p = preferences_for user box in
    record box {
      preferences =
          save user
            (record {
              billing = changed c.billing p.billing;
              payments = changed c.payments p.payments;
              membership = changed c.membership p.membership;
              email_enabled = changed c.email_enabled p.email_enabled;
            })
            box.preferences;
    }
