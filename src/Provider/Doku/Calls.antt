-- ===== src/Provider/Doku/Calls.antt =====
-- doku/doku.go: the calls of the SNAP API. An operation gets the gateway's access token and gives the
-- token that the gateway has afterwards beside its result.
use Prim.Native.String.{◌++◌ as append_text}
use wanpay.Base.{ℤ, pos, not, String, Option, some, [], ◌∷◌, ◌==◌, if◌then◌else◌}
use wanpay.Entity.Payment.{PaymentStatus}
use wanpay.Db.Error.{external, Result, ok, err}
use wanpay.Db.Monad.{Env, M, ◌>>=◌, pure, attempt, lift, wrapped, wrap_result}
use wanpay.Payment.Types.{CreateVaRequest, CreateVaResponse, CreateQrisRequest, CreateQrisResponse}
use wanpay.Disbursement.Types.{DisburseRequest, DisburseResponse}
use wanpay.Provider.Http.{Json, text, obj, end, field, Ports, unmarshalled}
use wanpay.Provider.Doku.Types.{
  DokuPorts, DokuGateway, AccessToken, VaCreateResponse, DokuDisbResponse, DokuJson, bank_channel,
  doku_status, doku_disb_status,
}
use wanpay.Provider.Doku.Token.{joined, access_token}

module _ {Key : Type 0} (ports : Ports) (doku : DokuPorts Key) (json : DokuJson) (env : Env) where
  module _ (g : DokuGateway Key) where
    unfoldable pub request_signature : String → String → String → String
    request_signature path token body = doku.hmac_hex g.hmac_key (
        joined (
          "POST:"
          ∷ path
          ∷ ":"
          ∷ token
          ∷ ":"
          ∷ ports.to_lower (doku.sha256_hex body)
          ∷ ":"
          ∷ doku.timestamp env.now
          ∷ []))

    abbrev doku_send : {A : Type 0} → (String → Option A) → String → String → Json → String → M A
    doku_send decode path external_id j token = do
      let body = ports.marshal j
      answer ← wrapped "doku http" (
          ports.send (record {
            method = "POST";
            url = append_text g.base_url path;
            headers =
                ("Content-Type", "application/json")
                ∷ ("Accept", "application/json")
                ∷ ("Authorization", append_text "Bearer " token)
                ∷ ("X-PARTNER-ID", g.client_id)
                ∷ ("X-EXTERNAL-ID", joined (external_id ∷ "-" ∷ doku.unix_nano env.now ∷ []))
                ∷ ("X-TIMESTAMP", doku.timestamp env.now)
                ∷ ("X-SIGNATURE", request_signature path token body)
                ∷ ("CHANNEL-ID", "H2H")
                ∷ [];
            body = some body;
          }))
      lift (unmarshalled (decode answer.body))

    abbrev with_token : {A : Type 0} → (String → M A) → Result String → M A
    with_token k (err e) w = (err e, w)
    with_token k (ok token) w = k token w

    abbrev pub doku_post :
        {A : Type 0}
        → (String → Option A)
        → String
        → String
        → Json
        → AccessToken
        → M (Result A × AccessToken)
    doku_post decode path external_id j t = do
      (token, t') ← access_token ports doku json env g t
      answer ← attempt (with_token (doku_send decode path external_id j) token)
      pure (answer, t')

    -- What an operation makes of the answer to its one request.
    abbrev concluded :
        {A B : Type 0}
        → String
        → (A → Result B)
        → M (Result A × AccessToken)
        → M (Result B × AccessToken)
    concluded context conclude m = do
      (answer, t) ← m
      pure ((elim (wrap_result context answer) [ err e ↦ err e | ok a ↦ conclude a ]), t)

    abbrev money : ℤ → Json
    money amount =
        obj (field "value" (text (doku.decimal amount)) (field "currency" (text "IDR") end))

    abbrev opened_va : CreateVaRequest → VaCreateResponse → Result CreateVaResponse
    opened_va req resp =
        if not (resp.response_code == "2002700")
        then err (external "doku create_va: %s")
        else if resp.virtual_account_no == ""
        then err (external "doku create_va: empty virtualAccountNo in response")
        else ok (record {
          external_id = req.external_id;
          provider_payment_id = "";
          va_number = resp.virtual_account_no;
          biller_code = "";
          bank_code = req.bank_code;
          amount = req.amount;
          expiry_at = req.expiry_at;
        })

    unfoldable pub doku_create_va :
        CreateVaRequest → AccessToken → M (Result CreateVaResponse × AccessToken)
    doku_create_va req t = concluded "doku create_va" (opened_va req) (
        doku_post json.va_create "/virtual-accounts/bi-snap-va/v1.1/transfer-va/create-va"
          req.external_id
          (obj (
            field "partnerServiceId" (text g.client_id) (
              field "customerNo" (text req.external_id) (
                field "virtualAccountNo" (text (append_text g.client_id req.external_id)) (
                  field "virtualAccountName" (text req.customer_name) (
                    field "virtualAccountEmail" (text req.customer_email) (
                      field "virtualAccountPhone" (text req.customer_phone) (
                        field "trxId" (text req.external_id) (
                          field "totalAmount" (money req.amount) (
                            field "additionalInfo"
                              (obj (field "channel" (text (bank_channel req.bank_code)) end))
                              (field "virtualAccountTrxType" (text "C") (
                                field "expiredDate" (text (doku.timestamp req.expiry_at))
                                  end))))))))))))
          t)

    -- The response code of the answer is not looked at.
    unfoldable pub doku_create_qris :
        CreateQrisRequest → AccessToken → M (Result CreateQrisResponse × AccessToken)
    doku_create_qris req t =
        concluded "doku create_qris"
          (λ resp. ok (record {
            external_id = resp.reference_no;
            provider_payment_id = "";
            qr_string = resp.qr_content;
            qr_image_url = "";
            amount = req.amount;
            expiry_at = req.expiry_at;
          }))
          (doku_post json.qr_create "/snap-adapter/b2b/v1.0/qr/qr-mpm-generate" req.external_id
            (obj (
              field "partnerReferenceNo" (text req.external_id) (
                field "amount" (money req.amount) (
                  field "feeAmount"
                    (obj (field "value" (text "0.00") (field "currency" (text "IDR") end)))
                    (field "validityPeriod" (text (ports.rfc3339 req.expiry_at)) end)))))
            t)

    unfoldable pub doku_cancel_payment : String → AccessToken → M (Result (Unit {0}) × AccessToken)
    doku_cancel_payment id t =
        concluded "doku cancel" (λ code. ok tt)
          (doku_post json.response_code "/snap-adapter/b2b/v1.0/qr/qr-expire" id
            (obj (field "partnerReferenceNo" (text id) end)) t)

    unfoldable pub doku_get_status : String → AccessToken → M (Result PaymentStatus × AccessToken)
    doku_get_status id t =
        concluded "doku get_status" (λ code. ok (doku_status code))
          (doku_post json.response_code "/virtual-accounts/bi-snap-va/v1.1/transfer-va/inquiry" id
            (obj (field "partnerServiceId" (text "") (field "trxId" (text id) end))) t)

    abbrev disbursement_of : ℤ → DokuDisbResponse → Result DisburseResponse
    disbursement_of amount resp = ok (record {
      external_id = resp.partner_reference_no;
      status = doku_disb_status resp.response_code;
      amount = amount;
    })

    unfoldable pub doku_disburse :
        DisburseRequest → AccessToken → M (Result DisburseResponse × AccessToken)
    doku_disburse req t = concluded "doku disburse" (disbursement_of req.amount) (
        doku_post json.disb_response "/snap/v1.1/emoney/transfer-bank" req.external_id
          (obj (
            field "partnerReferenceNo" (text req.external_id) (
              field "beneficiaryAccountName" (text req.account_name) (
                field "beneficiaryAccountNo" (text req.account_number) (
                  field "beneficiaryBankCode" (text req.bank_code) (
                    field "amount" (money req.amount)
                      (field "remark" (text req.description) end)))))))
          t)

    unfoldable pub doku_get_disbursement_status :
        String → AccessToken → M (Result DisburseResponse × AccessToken)
    doku_get_disbursement_status id t =
        concluded "doku get_disbursement_status" (disbursement_of (pos 0)) (
          doku_post json.disb_response "/snap/v1.1/emoney/transfer-bank-status" id
            (obj (field "partnerReferenceNo" (text id) end)) t)
