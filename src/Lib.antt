-- ===== src/Lib.antt =====
-- The billing of Tenora: how a rental workspace turns leases, meters and rates into bills,
-- corrects and cancels them, and takes payments; and how the workspace's own subscription to
-- Tenora lives by the webhooks of its payment provider.
--
-- Parts. A lease binds a unit and a resident for a range of days. A month is a billing cycle; for
-- each lease that it covers, BillService.generate_for_lease of apps/properties/services.py writes
-- a draft bill with a rent line, an electricity line for each meter of the unit, and a maintenance
-- line. A draft is edited by lines and published under the next number of the workspace's
-- sequence. An issued bill changes by corrections alone, which add an adjustment line; payments
-- raise the amount paid, voided payments lower it, and the status of the bill follows its amounts.
-- Every service writes audit events and notifies the users concerned.
--
-- An owner starts a checkout, which opens a subscription at the provider; the provider's webhooks
-- are stored once each and processed, at once or by a later sweep. An activation turns the
-- checkout into the workspace's subscription or upgrades the one it has, a charge moves its
-- period, trouble with a payment and a cancellation move its status, and every move goes through
-- SubscriptionService. Metering, proration and reconciliation write records beside it.
--
-- A user founds a workspace and owns it. Residents come in by invitation only: the owner invites
-- an account, and the invited user's answer makes the membership, within the seats of the
-- workspace's plan.
--
-- Files. Base: tests on numbers, integers over the native numbers, tables as lists of rows under
-- their primary keys, texts, runs of a step relation. Exec: a service call as a function from the
-- database to a result and the database after it, with the codes of DomainError, IntegrityError,
-- DoesNotExist, and transaction.atomic as a return to the database at its entry. Notifications:
-- apps/notifications/services.py. Property.Rows: the rows of apps/properties/models.py and the
-- memberships of apps/tenants/models.py. Property.Db: the tables, sequences, audit log and inbox
-- that the services share. Property.Constraints: the constraints of the models and the writes that
-- fail on them. Property.Calculations: apps/properties/calculations.py. Property.Aging:
-- apps/properties/aging.py. Of apps/properties/services.py: Property.Calendar is month_bounds,
-- Property.Tariffs is TariffService, Property.Premises is WorkspaceSettingsService.update,
-- PropertyService and UnitService, Property.Meters is MeterService and ResidentService,
-- Property.Leases is LeaseService, Property.Readings is sniff_proof and MeterReadingService,
-- Property.Usages is electricity_for_period, Property.Prerequisites is lease_prerequisites and
-- WorkspaceSettingsService.get, Property.Generation is generate_for_lease, Property.Bills is the
-- rest of BillService, Property.Corrections is BillCorrectionService, Property.Payments is
-- PaymentService and ReceiptService, Property.Cycles is BillingCycleService. Property.Books states
-- the invariant of the books: each bill agrees with its lines, its payments and its status, and no
-- line or payment counts for a bill that is not there. Property.Sessions takes the calls as steps.
-- Billing.Rows: the rows of apps/billing/models.py and the store of apps/billing/services.py. Of
-- that file, Billing.Plans is PlanChangePolicy and ProrationService, Billing.Subscriptions is
-- SubscriptionService, Billing.Checkouts is PlanSyncService and CheckoutService, Billing.Webhooks
-- is WebhookService and WebhookProcessingService, Billing.Metering is UsageMeteringService and
-- Billing.Reconciliation is ReconciliationService. Billing.Gateway is the adapter of
-- apps/billing/gateway/base.py, a parameter. Billing.Requests is apps/billing/views.py.
-- Billing.Lifecycle has the diagram of a subscription's states and the writes that its row may
-- see, and Billing.Sessions takes the calls as steps. Of apps/tenants, Workspaces.Rows is
-- models.py and the state of services.py, Workspaces.Limits is PlanLimitService of limits.py, and
-- Workspaces.Tenants, Workspaces.Memberships and Workspaces.Invitations are TenantService,
-- MembershipService and InvitationService of services.py. Workspaces.Edits has the writes to
-- workspaces and memberships that the calls make, and Workspaces.Sessions takes the calls as
-- steps. Workspaces.Tests, Property.Sample, Property.Tests, Property.Examples, Billing.Sample,
-- Billing.Tests and Notifications.Examples hold test data and runs.
--
-- Names. An operation has its source's name; create, update and correct stand in the module of
-- their service, or carry the name of its row (update_unit), open is open_month, end is end_lease,
-- record is record_reading or record_payment, void is void_payment; the handlers of the webhooks
-- lose the underscore before their names. A part of a long handler that is a definition of its own
-- says which block it is.
--
-- Values. Amounts are integers of minor units; readings and units are integers of thousandths,
-- multipliers and rates of ten-thousandths. Dates are ordinals, timestamps numbers. The clock is
-- an argument, and so are the keys that uuid4 gives new rows: an INSERT that stands with the
-- constraints of its table raises IntegrityError for a key that is taken, and the others are given
-- a fresh one. A document number is its year and its number. A sequence without a row stands at 1.
-- The times of the subscriptions are in microseconds, and the provider's identifiers are opaque: a
-- number, or none for a text that is missing or empty. A query for the first row that fits reads
-- the row by its key. The orders by columns of text, which the database's collation decides, are
-- arguments.
--
-- Recursion is on the lists of rows; nothing runs on fuel.
--
-- Not modelled: locks and concurrent transactions, each call being one transaction on the tables
-- as they are; the widths of the database's columns and the 28 digits of Decimal's context; texts
-- for display (descriptions, titles, bodies, audit summaries and metadata); the storage of proof
-- files; the HTTP layer but for the views of apps/billing, the gateways behind their adapter, the
-- online payment of bills, users and the platform's administration.
pub mod Base
pub mod Billing
pub mod Exec
pub mod Notifications
pub mod Property
pub mod Workspaces
