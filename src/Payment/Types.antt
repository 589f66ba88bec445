-- ===== src/Payment/Types.antt =====
-- internal/usecase/payment.go (inputs and outputs), internal/domain/gateway/gateway.go (the port of a
-- payment provider) and the helpers of internal/usecase/impl/helpers.go that payments use.
use Prim.Native.String.{◌++◌ as append_text}
use wanpay.Base.{ℤ, String, Option, none, some, List}
use wanpay.Entity.Fee.{Time}
use wanpay.Entity.Payment.{Payment, PaymentStatus, PaymentMethod}
use wanpay.Db.Error.{bad_request, Result, ok}
use wanpay.Db.Monad.{Env, M, pure, throw}

pub record CreateVaInput : Type 0 where
  pub merchant_id : String
  pub provider : String
  pub bank_code : String
  pub amount : ℤ
  pub currency : String
  pub customer_name : String
  pub customer_email : String
  pub customer_phone : String
  pub description : String
  pub expiry_at : Time
  pub callback_url : String

pub record CreateQrisInput : Type 0 where
  pub merchant_id : String
  pub provider : String
  pub amount : ℤ
  pub currency : String
  pub customer_name : String
  pub customer_email : String
  pub customer_phone : String
  pub description : String
  pub expiry_at : Time
  pub callback_url : String

pub record PaymentOutput : Type 0 where
  pub id : String
  pub external_id : String
  pub method : PaymentMethod
  pub provider : String
  pub status : PaymentStatus
  pub amount : ℤ
  pub fee_amount : ℤ
  pub currency : String
  pub customer_name : String
  pub customer_email : String
  pub va_number : String
  pub bank_code : String
  pub qr_string : String
  pub qr_image_url : String
  pub expiry_at : Time
  pub paid_at : Option Time
  pub cancelled_at : Option Time
  pub created_at : Time

unfoldable pub to_payment_output : Payment → PaymentOutput
to_payment_output p = record {
  id = p.id;
  external_id = p.external_id;
  method = p.method;
  provider = p.provider;
  status = p.status;
  amount = p.amount;
  fee_amount = p.fee_amount;
  currency = p.currency;
  customer_name = p.customer_name;
  customer_email = p.customer_email;
  va_number = p.va_number;
  bank_code = p.bank_code;
  qr_string = p.qr_string;
  qr_image_url = p.qr_image_url;
  expiry_at = p.expiry_at;
  paid_at = p.paid_at;
  cancelled_at = p.cancelled_at;
  created_at = p.created_at;
}

pub record CreateVaRequest : Type 0 where
  pub external_id : String
  pub bank_code : String
  pub amount : ℤ
  pub currency : String
  pub customer_name : String
  pub customer_email : String
  pub customer_phone : String
  pub description : String
  pub expiry_at : Time

pub record CreateVaResponse : Type 0 where
  pub external_id : String
  pub provider_payment_id : String
  pub va_number : String
  pub biller_code : String
  pub bank_code : String
  pub amount : ℤ
  pub expiry_at : Time

pub record CreateQrisRequest : Type 0 where
  pub external_id : String
  pub amount : ℤ
  pub currency : String
  pub customer_name : String
  pub customer_email : String
  pub customer_phone : String
  pub description : String
  pub expiry_at : Time

pub record CreateQrisResponse : Type 0 where
  pub external_id : String
  pub provider_payment_id : String
  pub qr_string : String
  pub qr_image_url : String
  pub amount : ℤ
  pub expiry_at : Time

pub record WebhookEvent : Type 0 where
  pub external_id : String
  pub status : PaymentStatus
  pub paid_at : Option Time
  pub amount : ℤ
  pub raw_payload : String

abbrev pub Headers : Type 0
Headers = List (String × String)

-- The provider behind the port. While a call is in flight other requests are served, so a call may
-- change the world; `parse_webhook` only checks a signature and reads the body.
pub record PaymentGateway : Type 0 where
  pub create_va : CreateVaRequest → M CreateVaResponse
  pub create_qris : CreateQrisRequest → M CreateQrisResponse
  pub cancel_payment : String → M (Unit {0})
  pub parse_webhook : Headers → String → Result WebhookEvent

-- The enabled gateways, by provider; `none` is a missing or nil entry of the map.
abbrev pub Gateways : Type 0
Gateways = String → Option PaymentGateway

abbrev enabled : Option PaymentGateway → M PaymentGateway
enabled none = throw (bad_request "provider %s is not enabled")
enabled (some gw) = pure gw

unfoldable pub gateway : Gateways → String → M PaymentGateway
gateway gateways provider = enabled (gateways provider)

-- `wpay-%d-%s`: the time and eight random bytes in hexadecimal.
unfoldable pub external_id : Env → M String
external_id env w = (
  ok (
      append_text "wpay-"
        (append_text (env.decimal env.now) (append_text "-" (env.random_hex w.clock)))),
  w,
)
