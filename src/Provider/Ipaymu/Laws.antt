-- ===== src/Provider/Ipaymu/Laws.antt =====
-- The status of an open transaction, and a cancellation that the provider does not offer.
use wanpay.Base.{true, String, some, ◌≡◌, refl, ◌==◌, arith, if◌then◌else◌}
use wanpay.Entity.Fee.{Time}
use wanpay.Entity.Payment.{PaymentStatus}
use wanpay.Db.Error.{is_ok}
use wanpay.Db.Monad.{Env}
use wanpay.Payment.Types.{Headers}
use wanpay.Provider.Http.{Ports, header}
use wanpay.Provider.Ipaymu.Types.{IpaymuGateway, IpaymuJson, IpaymuNotification, ipaymu_status_of}
use wanpay.Provider.Ipaymu.Defs.{map_ipaymu_status, ipaymu_parse_webhook}

module _ (ports : Ports) (json : IpaymuJson) (sha256 : String → String) where
  module _ (hmac : String → String → String) (timestamp : Time → String) (env : Env) where
    module _ (g : IpaymuGateway) where
      -- A transaction that the provider calls unpaid is reported as failed, not as pending.
      pub map_ipaymu_status-unpaid :
          (s : String)
          → ports.to_lower s ≡ "unpaid"
          → map_ipaymu_status ports json sha256 hmac timestamp env g s ≡ PaymentStatus.failed
      unfolding map_ipaymu_status ipaymu_status_of
      map_ipaymu_status-unpaid s h = rw h refl

      -- Where no secret is configured, every notification is taken for the provider's; where one is, only
      -- those whose address carried it.
      pub ipaymu_parse_webhook_lem :
          (headers : Headers) (body : String) (n : IpaymuNotification)
          → json.notification body ≡ some n
          → is_ok (ipaymu_parse_webhook ports json sha256 hmac timestamp env g headers body)
            ≡ (if g.webhook_secret == "" then true else header "x-wt" headers == g.webhook_secret)
      unfolding ipaymu_parse_webhook
      ipaymu_parse_webhook_lem headers body n e = ground (arith, e)
