-- ===== src/Examples/Ports.antt =====
-- Providers and servers that answer at once.
use wanpay.Base.{pos, Bool, true, false, Option, none, some, ◌==◌}
use wanpay.Entity.Payment.{PaymentStatus}
use wanpay.Entity.Disbursement.{DisbursementStatus}
use wanpay.Db.Error.{ok}
use wanpay.Db.Monad.{World}
use wanpay.Payment.Types.{WebhookEvent, PaymentGateway, Gateways}
use wanpay.Disbursement.Types.{
  DisburseInput, DisbursementWebhookEvent, DisbursementGateway, DisbursementGateways,
}
use wanpay.Worker.Outbox.{UrlOps, HttpOps}
use wanpay.Examples.Data.{tables}

abbrev pub start : World
start = record { db = tables; clock = 0 }

abbrev pub paid_event : WebhookEvent
paid_event = record {
  external_id = "wpay-1";
  status = PaymentStatus.paid;
  paid_at = some 4;
  amount = pos 10000;
  raw_payload = "";
}

abbrev pub xendit : PaymentGateway
xendit = record {
  create_va = λ r w. (
    ok (record {
      external_id = r.external_id;
      provider_payment_id = "x9";
      va_number = "777";
      biller_code = "";
      bank_code = r.bank_code;
      amount = r.amount;
      expiry_at = r.expiry_at;
    }),
    w,
  );
  create_qris = λ r w. (
    ok (record {
      external_id = r.external_id;
      provider_payment_id = "x9";
      qr_string = "qr";
      qr_image_url = "";
      amount = r.amount;
      expiry_at = r.expiry_at;
    }),
    w,
  );
  cancel_payment = λ id w. (ok tt, w);
  parse_webhook = λ headers body. ok paid_event;
}

abbrev only {ℓ} : {A : Type ℓ} → A → Bool → Option A
only a true = some a
only a false = none

abbrev pub gateways : Gateways
gateways provider = only xendit (provider == "xendit")

abbrev pub completed_event : DisbursementWebhookEvent
completed_event = record {
  external_id = "dis-3";
  status = DisbursementStatus.completed;
  failure_reason = "";
  amount = pos 1000;
  raw_payload = "";
}

abbrev pub payer : DisbursementGateway
payer = record {
  disburse = λ r w. (
    ok (record {
      external_id = "dis-9";
      status = DisbursementStatus.processing;
      amount = r.amount;
    }),
    w,
  );
  parse_disbursement_webhook = λ headers body. ok completed_event;
}

abbrev pub payers : DisbursementGateways
payers provider = only payer (provider == "xendit")

abbrev pub input : DisburseInput
input = record {
  merchant_id = "m1";
  provider = "xendit";
  bank_account_id = "a1";
  amount = pos 5000;
  currency = "IDR";
  description = "";
}

abbrev pub urls : UrlOps
urls = record {
  parse_url = λ s. ok (record { scheme = "https"; hostname = "shop.example.com" });
  parse_ip = λ s. none;
  lower = λ s. s;
}

-- The merchant's server answers with an error.
abbrev pub http : HttpOps
http = record {
  build = λ url. ok tt;
  send = λ delivery w. (ok 500, w);
  elapsed = λ row w. 40000000;
  sign = λ key payload. "signature";
  truncate = λ s. s;
}
