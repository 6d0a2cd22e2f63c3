-- ===== src/Invoices/Types.antt =====
-- The tables of invoices, invoice_items, payments and payment_attempts, of
-- infra/migrations-sql/0010_invoices.sql and 0011_payments.sql, for one tenant.
use Prim.Native.String.{String}
use pms_homestay.Prelude.{ℕ, Bool, true, false, Option, List}
use pms_homestay.Prelude.Int.{ℤ}
use pms_homestay.Engine.Types.{LineItemType, Description, QuoteLineItem, DepositType}

pub data InvoiceKind : Type 0 where
  deposit stay monthly_rent adjustment : InvoiceKind

pub data InvoiceStatus : Type 0 where
  draft issued partially_paid paid overdue void refunded : InvoiceStatus

-- invoice-status-machine.ts: canTransition(from, to), which reads INVOICE_TRANSITIONS
unfoldable pub can_transition : InvoiceStatus → InvoiceStatus → Bool
can_transition draft issued = true
can_transition draft void = true
can_transition issued partially_paid = true
can_transition issued paid = true
can_transition issued overdue = true
can_transition issued void = true
can_transition partially_paid paid = true
can_transition partially_paid overdue = true
can_transition partially_paid void = true
can_transition overdue partially_paid = true
can_transition overdue paid = true
can_transition overdue void = true
can_transition paid refunded = true
can_transition _ _ = false

-- PAYABLE of payments.service.ts and reconciliation.service.ts
unfoldable pub is_payable : InvoiceStatus → Bool
is_payable issued = true
is_payable partially_paid = true
is_payable overdue = true
is_payable _ = false

unfoldable pub is_void : InvoiceStatus → Bool
is_void void = true
is_void _ = false

unfoldable pub is_paid : InvoiceStatus → Bool
is_paid paid = true
is_paid _ = false

unfoldable pub kind_eq : InvoiceKind → InvoiceKind → Bool
kind_eq deposit deposit = true
kind_eq stay stay = true
kind_eq monthly_rent monthly_rent = true
kind_eq adjustment adjustment = true
kind_eq _ _ = false

pub record Invoice : Type 0 where
  pub id : ℕ
  pub booking_id : Option ℕ
  pub kind : InvoiceKind
  pub invoice_number : ℕ
  pub status : InvoiceStatus
  pub subtotal_vnd : ℤ
  pub discount_vnd : ℤ
  pub tax_vnd : ℤ
  pub total_vnd : ℤ
  pub paid_vnd : ℤ
  pub due_date : Option ℕ
  pub issued_at : Option ℕ
  pub paid_at : Option ℕ
  pub void_reason : Option String
  pub voided_at : Option ℕ
  pub voided_by : Option ℕ
  pub version : ℕ

pub data ItemType : Type 0 where
  line : LineItemType → ItemType
  deposit_applied : ItemType

-- A whole number, or a double counted in units of 2^-80.
pub data Quantity : Type 0 where
  whole : ℤ → Quantity
  double : ℕ → Quantity

-- `booking_code` of the texts that name a booking
pub data ItemText : Type 0 where
  quoted : Description → ItemText
  written : String → ItemText
  deposit_of room_of no_show_of : ℕ → ItemText
  applied kept : ItemText

pub record InvoiceItem : Type 0 where
  pub invoice_id : ℕ
  pub item_type : ItemType
  pub description : ItemText
  pub quantity : Quantity
  pub unit_price_vnd : ℤ
  pub amount_vnd : ℤ
  pub ref_invoice_id : Option ℕ
  pub display_order : ℕ

pub data PaymentMethod : Type 0 where
  cash vietqr bank_transfer momo zalopay card ota_collected other : PaymentMethod

pub data PaymentStatus : Type 0 where
  pending succeeded failed refunded partially_refunded : PaymentStatus

-- Keys, providers and the references of a bank are only compared: numbers stand for them.
pub record Payment : Type 0 where
  pub id : ℕ
  pub invoice_id : ℕ
  pub amount_vnd : ℕ
  pub method : PaymentMethod
  pub status : PaymentStatus
  pub provider : Option ℕ
  pub reference_code : Option ℕ
  pub received_by : Option ℕ
  pub received_at : Option ℕ
  pub refunded_amount_vnd : ℕ
  pub refund_reason : Option String
  pub idempotency_key : Option ℕ

pub record PaymentAttempt : Type 0 where
  pub payment_id : ℕ
  pub attempt_number : ℕ
  pub status : PaymentStatus

pub data BillingEvent : Type 0 where
  invoice_issued : (invoice_id : ℕ) → (booking_id property_id : Option ℕ) → BillingEvent
  payment_received :
      (payment_id invoice_id : ℕ) → (booking_id property_id : Option ℕ) → BillingEvent
  payment_refunded : (payment_id invoice_id : ℕ) → (property_id : Option ℕ) → BillingEvent

pub data UnmatchedStatus : Type 0 where
  waiting resolved ignored : UnmatchedStatus

pub record UnmatchedPayment : Type 0 where
  pub id : ℕ
  pub provider : ℕ
  pub transaction_ref : ℕ
  pub amount_vnd : ℕ
  pub status : UnmatchedStatus
  pub resolved_payment_id : Option ℕ
  pub resolved_by : Option ℕ

pub record DepositRule : Type 0 where
  pub deposit_type : Option DepositType
  pub deposit_value : ℤ

-- `rate_plans` and `quotes` are what the invoices read of the tables of these names.
pub record Books : Type 0 where
  pub invoices : List Invoice
  pub items : List InvoiceItem
  pub payments : List Payment
  pub attempts : List PaymentAttempt
  pub unmatched : List UnmatchedPayment
  pub events : List BillingEvent
  pub counter : ℕ
  pub rate_plans : ℕ → Option DepositRule
  pub quotes : ℕ → Option (List QuoteLineItem)
