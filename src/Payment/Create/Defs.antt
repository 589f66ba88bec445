-- ===== src/Payment/Create/Defs.antt =====
-- CreateVA, CreateQRIS and savePaymentWithAudit.
use Prim.Native.String.{◌++◌ as append_text}
use wanpay.Base.{pos, not, String, none, List, [], ◌∷◌, ◌==◌, if◌then◌else◌}
use wanpay.Entity.Merchant.{can_transact}
use wanpay.Entity.Payment.{Payment, PaymentStatus, PaymentMethod, MetaValue}
use wanpay.Entity.Audit.{PaymentAudit, AuditEventType}
use wanpay.Db.Error.{forbidden}
use wanpay.Db.Monad.{Env, M, ◌>>=◌, ◌>>◌, pure, throw_if, wrapped, run_in_tx}
use wanpay.Db.Payments.{save}
use wanpay.Db.Audits.{save_audit}
use wanpay.Db.Merchants.{find_merchant_by_id}
use wanpay.Payment.Types.{
  CreateVaInput, CreateVaRequest, CreateVaResponse, CreateQrisInput, CreateQrisRequest,
  CreateQrisResponse, PaymentOutput, Gateways, gateway, external_id, to_payment_output,
}

abbrev pub callback_metadata : String → List (String × MetaValue)
callback_metadata url = if url == "" then [] else ("callback_url", MetaValue.text url) ∷ []

unfoldable pub va_request : String → CreateVaInput → CreateVaRequest
va_request reference input = record {
  external_id = reference;
  bank_code = input.bank_code;
  amount = input.amount;
  currency = input.currency;
  customer_name = input.customer_name;
  customer_email = input.customer_email;
  customer_phone = input.customer_phone;
  description = input.description;
  expiry_at = input.expiry_at;
}

unfoldable pub qris_request : String → CreateQrisInput → CreateQrisRequest
qris_request reference input = record {
  external_id = reference;
  amount = input.amount;
  currency = input.currency;
  customer_name = input.customer_name;
  customer_email = input.customer_email;
  customer_phone = input.customer_phone;
  description = input.description;
  expiry_at = input.expiry_at;
}

-- The entity before it is saved: the columns that the database sets have Go's zero values.
unfoldable pub va_payment : CreateVaInput → CreateVaResponse → Payment
va_payment input resp = record {
  id = "";
  merchant_id = input.merchant_id;
  external_id = resp.external_id;
  provider_payment_id = resp.provider_payment_id;
  method = PaymentMethod.va;
  provider = input.provider;
  status = PaymentStatus.pending;
  amount = input.amount;
  fee_amount = pos 0;
  currency = input.currency;
  description = input.description;
  customer_name = input.customer_name;
  customer_email = input.customer_email;
  customer_phone = input.customer_phone;
  va_number = resp.va_number;
  bank_code = input.bank_code;
  qr_string = "";
  qr_image_url = "";
  expiry_at = resp.expiry_at;
  paid_at = none;
  failed_at = none;
  cancelled_at = none;
  created_at = 0;
  updated_at = 0;
  metadata = callback_metadata input.callback_url;
}

unfoldable pub qris_payment : CreateQrisInput → CreateQrisResponse → Payment
qris_payment input resp = record {
  id = "";
  merchant_id = input.merchant_id;
  external_id = resp.external_id;
  provider_payment_id = resp.provider_payment_id;
  method = PaymentMethod.qris;
  provider = input.provider;
  status = PaymentStatus.pending;
  amount = input.amount;
  fee_amount = pos 0;
  currency = input.currency;
  description = input.description;
  customer_name = input.customer_name;
  customer_email = input.customer_email;
  customer_phone = input.customer_phone;
  va_number = "";
  bank_code = "";
  qr_string = resp.qr_string;
  qr_image_url = resp.qr_image_url;
  expiry_at = resp.expiry_at;
  paid_at = none;
  failed_at = none;
  cancelled_at = none;
  created_at = 0;
  updated_at = 0;
  metadata = callback_metadata input.callback_url;
}

abbrev pub created_audit : Payment → String → PaymentAudit
created_audit p merchant_id = record {
  id = "";
  payment_id = p.id;
  event_type = AuditEventType.payment_created;
  old_status = none;
  new_status = PaymentStatus.pending;
  actor = append_text "merchant:" merchant_id;
  created_at = 0;
}

module _ (env : Env) where
  -- A new payment and its audit record, in one transaction.
  unfoldable pub save_payment_with_audit : Payment → String → M Payment
  save_payment_with_audit p merchant_id = run_in_tx env (do
    p' ← wrapped "save payment" (save env p)
    _ ← save_audit env (created_audit p' merchant_id)
    pure p')

  module _ (gateways : Gateways) where
    unfoldable pub create_va : CreateVaInput → M PaymentOutput
    create_va input = do
      merchant ← find_merchant_by_id env input.merchant_id
      throw_if (not (can_transact merchant))
          (forbidden "merchant account is not active or webhook URL not set")
      gw ← gateway gateways input.provider
      ext_id ← external_id env
      resp ← wrapped "create VA via %s" (gw.create_va (va_request ext_id input))
      p ← save_payment_with_audit (va_payment input resp) input.merchant_id
      pure (to_payment_output p)

    unfoldable pub create_qris : CreateQrisInput → M PaymentOutput
    create_qris input = do
      merchant ← find_merchant_by_id env input.merchant_id
      throw_if (not (can_transact merchant))
          (forbidden "merchant account is not active or webhook URL not set")
      gw ← gateway gateways input.provider
      ext_id ← external_id env
      resp ← wrapped "create QRIS via %s" (gw.create_qris (qris_request ext_id input))
      p ← save_payment_with_audit (qris_payment input resp) input.merchant_id
      pure (to_payment_output p)
