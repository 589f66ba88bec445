-- ===== src/Provider/Breaker.antt =====
-- circuit_breaker.go: the gateways behind a circuit breaker. The third-party breaker is a parameter:
-- `execute` runs a call or refuses it, as its own state, which is outside the model, has it.
use wanpay.Base.{ℕ, nat_eq, false, String, some, ◌≡◌, refl, if◌then◌else◌}
use wanpay.Db.Error.{Error, err, is_ok}
use wanpay.Db.Monad.{Env, World, M, wrapped}
use wanpay.Payment.Types.{PaymentGateway, Headers, Gateways, gateway}
use wanpay.Payment.Webhook.{handle_webhook}
use wanpay.Disbursement.Types.{DisbursementGateway}
use wanpay.Fee.{FloatOps}

pub record BreakerSettings : Type 0 where
  pub interval_seconds : ℕ
  pub timeout_seconds : ℕ
  pub max_requests : ℕ
  pub consecutive_failures : ℕ

abbrev or_default : ℕ → ℕ → ℕ
or_default n d = if nat_eq n 0 then d else n

-- Zero stands for the default.
unfoldable pub breaker_settings : BreakerSettings → BreakerSettings
breaker_settings cfg = record {
  interval_seconds = or_default cfg.interval_seconds 60;
  timeout_seconds = or_default cfg.timeout_seconds 30;
  max_requests = or_default cfg.max_requests 3;
  consecutive_failures = or_default cfg.consecutive_failures 5;
}

pub record Breaker : Type 1 where
  pub execute : {A : Type 0} → M A → M A

-- What the breaker does while it is open: no call is made.
abbrev pub IsOpen : Breaker → Type 1
IsOpen b = (A : Type 0) (call : M A) (w : World) → (e : Error) × (b.execute call w ≡ (err e, w))

module _ (b : Breaker) where
  abbrev pub run : {A : Type 0} → M A → M A
  run call = wrapped "provider %s" (b.execute call)

  unfoldable pub cb_payments : PaymentGateway → PaymentGateway
  cb_payments inner = record {
    create_va = λ req. run (inner.create_va req);
    create_qris = λ req. run (inner.create_qris req);
    cancel_payment = λ id. run (inner.cancel_payment id);
    parse_webhook = inner.parse_webhook;
  }

  unfoldable pub cb_disbursements : DisbursementGateway → DisbursementGateway
  cb_disbursements inner = record {
    disburse = λ req. run (inner.disburse req);
    parse_disbursement_webhook = inner.parse_disbursement_webhook;
  }

  -- A call through an open breaker is refused, and nothing is asked of the provider.
  pub run-IsOpen :
      {A : Type 0}
      → IsOpen b
      → (call : M A) (w : World) → (is_ok (run call w).0 ≡ false) × ((run call w).1 ≡ w)
  run-IsOpen {A = A} shut call w = let (e, h) = shut A call w in rw h (refl, refl)

  -- The webhook of a provider is handled alike with and without the breaker, whatever state it is in.
  pub handle_webhook-cb_payments :
      (ops : FloatOps) (env : Env) (gateways guarded : Gateways) (inner : PaymentGateway)
      (provider : String) (headers : Headers) (body : String) (w : World)
      → gateways provider ≡ some inner
      → guarded provider ≡ some (cb_payments inner)
      → handle_webhook ops env guarded provider headers body w
        ≡ handle_webhook ops env gateways provider headers body w
  unfolding handle_webhook cb_payments gateway
  handle_webhook-cb_payments ops env gateways guarded inner provider headers body w e e' =
      rw (e, e') refl
