-- ===== src/Examples/Data.antt =====
-- One merchant with a bank account, and a few rows.
use wanpay.Base.{ℕ, ◌*◌, ◌/◌, nat_eq, pos, pos_part, true, false, none, some, [], ◌∷◌}
use wanpay.Entity.Fee.{FeeType, MethodFee, PlatformMargin}
use wanpay.Entity.Merchant.{Merchant, MerchantStatus, MerchantBankAccount}
use wanpay.Entity.Admin.{Admin, ProviderBalance}
use wanpay.Entity.Payment.{Payment, PaymentMethod, PaymentStatus}
use wanpay.Entity.Disbursement.{Disbursement, DisbursementStatus}
use wanpay.Entity.Mutation.{Mutation, MutationType, MutationReferenceType}
use wanpay.Db.Payload.{EventData, PaymentData}
use wanpay.Db.Tables.{Db, OutboxEvent}
use wanpay.Db.Monad.{Env}
use wanpay.Fee.{FloatOps}

-- Whole numbers in place of floats: the fees below are flat.
abbrev pub whole : FloatOps
whole = record {
  of_int64 = pos_part;
  mul = λ a b. a * b;
  div = λ a b. a / b;
  to_int64 = λ a. pos a;
  is_zero = λ a. nat_eq a 0;
}

abbrev pub env : Env
env = record {
  now = 5000000000;
  today = 7;
  day_start = 1000000000;
  statement_fails = λ n. false;
  uuid = λ n. "generated";
  row_uuid = λ n k. "generated";
  random_hex = λ n. "00ff";
  decimal = λ n. "0";
  others = λ n d. d;
  error_text = λ e. "failed";
  locks_counts = true;
}

abbrev pub flat : ℕ → MethodFee
flat n = record { type = FeeType.flat; amount = pos n; percentage = 0 }

abbrev pub no_fee : MethodFee
no_fee = record { type = FeeType.unset; amount = pos 0; percentage = 0 }

abbrev pub shop : Merchant
shop = record {
  id = "m1";
  name = "Shop";
  email = "shop@example.com";
  phone = "";
  status = MerchantStatus.active;
  api_key = "key";
  webhook_url = "https://shop.example.com/hook";
  webhook_secret = "";
  webhook_signing_key = "sign";
  fee_config = record { va = flat 400; qris = no_fee; disbursement = flat 250 };
  is_production = false;
  daily_cashout_limit = pos 20000;
  deleted_at = none;
  created_at = 0;
  updated_at = 0;
}

abbrev pub asleep : Merchant
asleep = record shop { id = "m2"; status = MerchantStatus.suspended }

abbrev pub account : MerchantBankAccount
account = record {
  id = "a1";
  merchant_id = "m1";
  bank_code = "BCA";
  account_number = "123";
  account_name = "Shop";
  is_primary = true;
  is_verified = true;
  created_at = 0;
  updated_at = 0;
}

abbrev pub unverified : MerchantBankAccount
unverified = record account {
  id = "a2";
  account_number = "456";
  is_primary = false;
  is_verified = false;
}

abbrev pub open_payment : Payment
open_payment = record {
  id = "p1";
  merchant_id = "m1";
  external_id = "wpay-1";
  provider_payment_id = "x1";
  method = PaymentMethod.va;
  provider = "xendit";
  status = PaymentStatus.pending;
  amount = pos 10000;
  fee_amount = pos 0;
  currency = "IDR";
  description = "";
  customer_name = "Ann";
  customer_email = "";
  customer_phone = "";
  va_number = "888";
  bank_code = "BCA";
  qr_string = "";
  qr_image_url = "";
  expiry_at = 9000000000;
  paid_at = none;
  failed_at = none;
  cancelled_at = none;
  created_at = 1;
  updated_at = 1;
  metadata = [];
}

abbrev pub late_payment : Payment
late_payment = record open_payment { id = "p2"; external_id = "wpay-2"; expiry_at = 1 }

abbrev pub paid_payment : Payment
paid_payment = record open_payment {
  id = "p3";
  external_id = "wpay-3";
  status = PaymentStatus.paid;
}

-- Of a provider that is not enabled.
abbrev pub orphan_payment : Payment
orphan_payment = record open_payment { id = "p4"; external_id = "wpay-4"; provider = "doku" }

-- Below the margin and the contract's fee together.
abbrev pub small_payment : Payment
small_payment = record open_payment { id = "p5"; external_id = "wpay-5"; amount = pos 450 }

abbrev pub credit_row : Mutation
credit_row = record {
  id = "t1";
  reference_id = "p3";
  reference_type = MutationReferenceType.payment;
  merchant_id = "m1";
  type = MutationType.cash_in;
  amount = pos 10000;
  fee_amount = pos 500;
  currency = "IDR";
  description = "";
  created_at = 2;
}

abbrev pub open_disbursement : Disbursement
open_disbursement = record {
  id = "d1";
  merchant_id = "m1";
  external_id = "";
  provider = "xendit";
  status = DisbursementStatus.pending;
  bank_code = "BCA";
  account_number = "123";
  account_name = "Shop";
  amount = pos 1000;
  fee_amount = pos 250;
  currency = "IDR";
  description = "";
  failure_reason = "";
  completed_at = none;
  failed_at = none;
  created_at = 3;
  updated_at = 3;
}

abbrev pub sent_disbursement : Disbursement
sent_disbursement = record open_disbursement { id = "d2"; external_id = "dis-2" }

abbrev pub failed_disbursement : Disbursement
failed_disbursement = record open_disbursement {
  id = "d3";
  external_id = "dis-3";
  status = DisbursementStatus.failed;
}

abbrev pub paid_data : PaymentData
paid_data = record {
  payment_id = "p3";
  external_id = "wpay-3";
  merchant_id = "m1";
  status = "paid";
  method = "va";
  provider = "xendit";
  amount = pos 10000;
  fee_amount = pos 500;
  net_amount = pos 9500;
  currency = "IDR";
  customer_name = "Ann";
  customer_email = "";
  paid_at = some 2;
  created_at = 1;
}

abbrev pub due_event : OutboxEvent
due_event = record {
  id = "e1";
  event_type = "payment.paid";
  payload = record {
    event_type = "payment.paid";
    delivery_id = "";
    created_at = 2;
    event_data = EventData.payment paid_data;
  };
  target_url = "https://shop.example.com/hook";
  attempt_count = 1;
  max_attempts = 5;
  next_retry_at = 3;
  delivered_at = none;
  failed_at = none;
  last_error = none;
  created_at = 2;
  merchant_id = some "m1";
}

abbrev pub other_event : OutboxEvent
other_event = record due_event { id = "e2"; next_retry_at = 20000000000 }

abbrev pub margin : PlatformMargin
margin = record {
  id = "g";
  enabled = true;
  va = flat 100;
  qris = flat 100;
  disbursement = flat 0;
  updated_by = "";
  updated_at = 0;
  created_at = 0;
}

abbrev pub root : Admin
root = record {
  id = "ad1";
  email = "root@example.com";
  password_hash = "#secret99";
  role = "super_admin";
  is_active = true;
  last_login_at = none;
  created_at = 1;
  updated_at = 1;
}

abbrev pub clerk : Admin
clerk = record root { id = "ad2"; email = "ops@example.com"; role = "ops"; is_active = false }

abbrev pub held : ProviderBalance
held = record {
  id = "b1";
  provider = "xendit";
  balance_idr = pos 700;
  last_reconciled_at = some 4;
  note = "counted";
  created_at = 1;
  updated_at = 4;
}

abbrev pub tables : Db
tables = record {
  payments = open_payment ∷ late_payment ∷ paid_payment ∷ orphan_payment ∷ small_payment ∷ [];
  audits = [];
  mutations = credit_row ∷ [];
  disbursements = open_disbursement ∷ sent_disbursement ∷ failed_disbursement ∷ [];
  outbox = due_event ∷ other_event ∷ [];
  merchants = shop ∷ asleep ∷ [];
  bank_accounts = account ∷ unverified ∷ [];
  fee_default = none;
  platform_margin = some margin;
  fee_holidays = [];
  admins = root ∷ clerk ∷ [];
  provider_balances = held ∷ [];
  fee_audit_logs = [];
}
