-- ===== src/Property/Db.antt =====
-- The state that the services of apps/properties/services.py share: the tables, the numbering
-- sequences, the audit log and the notifications; and the calls that every service makes.
use tenora.Base.{
  ℕ, Bool, true, false, not, ◌&&◌, none, some, List, [], ◌∷◌, ◌+◌, ◌==◌, if◌then◌else◌,
}
use tenora.Base.Table.{Table}
use tenora.Notifications
use tenora.Notifications.{Inbox, Kind, Ref}
use tenora.Exec.{Exec, ok, Code, domain, modify, raise_if}
use tenora.Property.Rows.{
  WorkspaceSettings, Property, RentalUnit, Resident, Lease, Meter, MeterReading,
  MeterReadingCorrection, Tariff, Membership, owner, member, MembershipStatus, BillingCycle, Bill,
  LineItem, BillCorrection, Payment, Receipt,
}

pub data Action : Type 0 where
  workspace_settings_updated property_created property_updated unit_created unit_updated : Action
  resident_updated lease_created lease_rent_changed lease_updated lease_ended : Action
  meter_created meter_updated meter_reading_recorded meter_reading_corrected : Action
  tariff_created bill_line_item_added bill_line_item_removed bill_published bill_cancelled : Action
  bill_corrected billing_cycle_opened bills_generated billing_cycle_closed : Action
  payment_recorded receipt_issued payment_voided : Action

-- The target is a row of the type that the action names; summary and metadata are left out.
pub record AuditEvent : Type 0 where
  pub actor : ℕ
  pub tenant : ℕ
  pub action : Action
  pub target_id : ℕ

-- WorkspaceSequence.name
pub data Sequence : Type 0 where
  bill_sequence receipt_sequence : Sequence

pub record Db : Type 0 where
  pub settings : Table WorkspaceSettings
  pub properties : Table Property
  pub units : Table RentalUnit
  pub residents : Table Resident
  pub leases : Table Lease
  pub meters : Table Meter
  pub readings : Table MeterReading
  pub reading_corrections : Table MeterReadingCorrection
  pub tariffs : Table Tariff
  pub memberships : Table Membership
  pub cycles : Table BillingCycle
  pub bills : Table Bill
  pub line_items : Table LineItem
  pub corrections : Table BillCorrection
  pub payments : Table Payment
  pub receipts : Table Receipt
  -- the next value by workspace; a sequence with no row yet is at 1
  pub next_bill : ℕ → ℕ
  pub next_receipt : ℕ → ℕ
  pub audit : List AuditEvent
  pub inbox : Inbox

-- What the server's clock says: `timezone.now()`, its year, and `server_today()`.
pub record Clock : Type 0 where
  pub now : ℕ
  pub year : ℕ
  pub today : ℕ

-- `DomainError(code, message)` has the status 400.
abbrev pub refuse_if : Bool → Code → Exec {0} Db Unit
refuse_if c code = raise_if c (domain code 400)

-- `status_code=409`, `status_code=404`
abbrev pub conflict_if : Bool → Code → Exec {0} Db Unit
conflict_if c code = raise_if c (domain code 409)

abbrev pub missing_if : Bool → Code → Exec {0} Db Unit
missing_if c code = raise_if c (domain code 404)

-- `_audit`, by `AuditService.record_critical`
abbrev pub audit : ℕ → ℕ → Action → ℕ → Exec {0} Db Unit
audit actor tenant action target_id = modify λ db. record db {
  audit =
      record { actor = actor; tenant = tenant; action = action; target_id = target_id } ∷ db.audit;
}

-- `NotificationService.notify` of a user in a workspace
abbrev pub notify : ℕ → Kind → ℕ → List Ref → Exec {0} Db Unit
notify recipient kind tenant refs =
    modify λ db. record db {
      inbox = Notifications.notify recipient kind (some tenant) refs none db.inbox;
    }

abbrev pub is_active_owner : ℕ → Membership → Bool
is_active_owner tenant m =
    m.tenant == tenant
    && elim m.role [ owner ↦ true | member ↦ false ]
    && elim m.status [ MembershipStatus.active ↦ true | _ ↦ false ]

-- `_owners(tenant, exclude=…)`
unfoldable pub owners : ℕ → ℕ → Table Membership → List ℕ
owners tenant exclude [] = []
owners tenant exclude ((_, m) ∷ rows) =
    let rest = owners tenant exclude rows in
    if is_active_owner tenant m && not (m.user == exclude) then m.user ∷ rest else rest

-- One notification to each user of a list.
unfoldable pub notify_all : List ℕ → Kind → ℕ → List Ref → Inbox → Inbox
notify_all [] kind tenant refs box = box
notify_all (user ∷ users) kind tenant refs box =
    notify_all users kind tenant refs (Notifications.notify user kind (some tenant) refs none box)

abbrev pub bump : (ℕ → ℕ) → ℕ → ℕ → ℕ
bump next tenant t = if t == tenant then next t + 1 else next t

-- `SequenceService.next_value`
unfoldable pub next_value : ℕ → Sequence → Exec Db ℕ
next_value tenant bill_sequence db =
    (ok (db.next_bill tenant), record db { next_bill = bump db.next_bill tenant })
next_value tenant receipt_sequence db =
    (ok (db.next_receipt tenant), record db { next_receipt = bump db.next_receipt tenant })
