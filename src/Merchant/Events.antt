-- ===== src/Merchant/Events.antt =====
-- ListWebhookEvents of internal/usecase/impl/merchant.go.
use wanpay.Base.{ℕ, ℤ, pos, leb_ℤ, String, Option, List, map, if◌then◌else◌}
use wanpay.Entity.Fee.{Time}
use wanpay.Db.Tables.{OutboxEvent}
use wanpay.Db.Monad.{Env, M, ◌>>=◌, pure}
use wanpay.Db.Outbox.{list_by_merchant}

pub record WebhookEventOutput : Type 0 where
  pub id : String
  pub event_type : String
  pub target_url : String
  pub attempt_count : ℕ
  pub delivered_at : Option Time
  pub failed_at : Option Time
  pub next_retry_at : Time
  pub created_at : Time

pub record WebhookEventListOutput : Type 0 where
  pub items : List WebhookEventOutput
  pub total : ℕ
  pub page : ℤ
  pub limit : ℤ

unfoldable pub to_webhook_event_output : OutboxEvent → WebhookEventOutput
to_webhook_event_output e = record {
  id = e.id;
  event_type = e.event_type;
  target_url = e.target_url;
  attempt_count = e.attempt_count;
  delivered_at = e.delivered_at;
  failed_at = e.failed_at;
  next_retry_at = e.next_retry_at;
  created_at = e.created_at;
}

-- The page is answered as it was asked for.
unfoldable pub list_webhook_events : Env → String → ℤ → ℤ → M WebhookEventListOutput
list_webhook_events env merchant_id page limit = do
  (rows, total) ← list_by_merchant env merchant_id page limit
  pure (record {
    items = map to_webhook_event_output rows;
    total = total;
    page = page;
    limit = if leb_ℤ limit (pos 0) then pos 20 else limit;
  })
