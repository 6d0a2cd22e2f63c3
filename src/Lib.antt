-- ===== src/Lib.antt =====
-- A verification library for pms-homestay, the management system of small lodgings.
--
-- The parts and how they interact
--
-- * The pricing engine, packages/pricing-engine/src: pure functions from a stay and a rate plan to
--   a quote. Money.antt is round.ts (roundVnd), Calendar.antt is dateutil.ts (addDays, addMonths,
--   diffCalendarDays, fullMonthsBetween, dayOfWeek). Engine/Types.antt is types.ts, Engine/Builder.antt
--   builder.ts, Engine/Rules.antt rules.ts, Engine/Daily.antt, Engine/Hourly.antt and
--   Engine/Monthly.antt the files of these names, and Engine/Quote.antt index.ts.
--   Engine/Double.antt computes the product of a percent rule as binary floating point does it.
-- * The occupancy of rooms, apps/api/src/modules/occupancy/occupancy.service.ts with the exclusion
--   constraint of infra/migrations-sql/0004_property_room_resource.sql: Occupancy.antt. A row stands
--   for a span in which a room is blocked, and an insertion that overlaps is refused.
-- * The blocks of rooms, apps/api/src/modules/rooms/room-blocks.service.ts: RoomBlocks.antt.
-- * The vouchers, apps/api/src/modules/discounts/discounts.service.ts (evaluate, redeemInTx):
--   Discounts.antt.
-- * The bookings, apps/api/src/modules/bookings: Bookings/Status.antt is booking-status-machine.ts,
--   Bookings/Types.antt the tables, and Bookings/Create.antt (create, createFromIcalTx),
--   Bookings/Lifecycle.antt (update, cancel, cancelFromIcalTx, confirm, confirmFromDepositPaid,
--   checkIn, checkOut), Bookings/Moves.antt (switchResource, reschedule), Bookings/Surcharges.antt
--   and Bookings/Expiry.antt (sweepExpiredHolds) are bookings.service.ts.
-- * The invoices, apps/api/src/modules/invoices, with infra/migrations-sql/0010_invoices.sql:
--   Invoices/Types.antt is the tables and invoice-status-machine.ts, Invoices/Triggers.antt the triggers
--   of invoice_items and payments, Invoices/Issue.antt (issueDepositForBooking, issueStayForBooking,
--   forfeitDepositForBooking) and Invoices/Service.antt (createAdHoc, issue, void, getQrTarget) are
--   invoices.service.ts.
-- * The payments, apps/api/src/modules/payments, with infra/migrations-sql/0011_payments.sql:
--   Payments.antt is payments.service.ts (record, refund, applyPaymentInTx), Reconciliation.antt
--   reconciliation.service.ts. Billing.antt runs the transactions of all of these on one store, the
--   bookings calling the invoices and the payments the bookings.
-- * The quotes that are kept, apps/api/src/modules/pricing/pricing.service.ts: Pricing.antt, over the
--   tables of Pricing/Tables.antt, calls the engine and, as a parameter, the vouchers.
-- * The cleaning of rooms, apps/api/src/modules/cleaning/cleaning.service.ts: Cleaning.antt, over the
--   tables of Cleaning/Types.antt. Cleaning/Paths.antt runs its transactions in any order.
--
-- How state is modelled
--
-- A store is the tables of one tenant. A method that throws gives an error and no store, since its
-- transaction is rolled back. Most methods load the booking in one transaction and write in a second
-- one: the second one is a function of its own (cancel_tx of cancel) that takes the booking as it was
-- loaded, so that others may run in between. Bookings/Transactions.antt runs such transactions in any
-- order and on any snapshots, Bookings/Requests.antt whole calls one after the other. Bookings/Spec.antt
-- says what a call may do, without its guards, and Bookings/Refinement.antt that every call keeps to it.
-- The quotes, vouchers, invoices, expenses and cleaning tasks are services that the bookings only call:
-- the record Services has a function for each, over a state of their own. Bookings/Others.antt shows
-- what a transaction of a booking keeps of that state, and with_invoices of Billing.antt gives the
-- invoices as such services.
--
-- Bounds and fuel
--
-- Natural numbers count milliseconds, dong and ids without a bound, dates are those of four-digit years.
-- full_months_between has the months between the two dates and one more as fuel, and overnight_loop
-- the days between the first and the last date and one more, which is a round for each cursor;
-- last_place doubles 1,024 times, past the greatest double. A fresh primary key is one more than the
-- largest that is in use.
--
-- What is not modelled
--
-- Intl.DateTimeFormat is a parameter of the engine. Advisory locks only make transactions wait. The
-- bookings only read the tables of resources and rooms. Lists, boards and reports only read. Which
-- tenant an account belongs to, and the regular expression that finds a code in a bank's text, are
-- inputs. cancelFromIcalTx is a transaction of Bookings/Transactions.antt and no call of
-- Bookings/Requests.antt, since the import of calendars, which calls it, has its guard. Of the
-- constraints of bookings, UNIQUE (tenant_id, booking_code) is met by the counter. The other
-- services, the user interfaces and the infrastructure are left out.
pub mod Prelude
pub mod Money
pub mod Calendar
pub mod Engine
pub mod Occupancy
pub mod Discounts
pub mod RoomBlocks
pub mod Invoices
pub mod Payments
pub mod Reconciliation
pub mod Billing
pub mod Pricing
pub mod Cleaning
pub mod Bookings
