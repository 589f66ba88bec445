-- ===== src/Entity/Audit.antt =====
-- internal/domain/entity/payment_audit.go. The code never sets the metadata of an audit record.
use wanpay.Base.{String, Option}
use wanpay.Entity.Fee.{Time}
use wanpay.Entity.Payment.{PaymentStatus}

pub data AuditEventType : Type 0 where
  payment_created status_changed webhook_received payment_cancelled payment_expired : AuditEventType

pub record PaymentAudit : Type 0 where
  pub id : String
  pub payment_id : String
  pub event_type : AuditEventType
  pub old_status : Option PaymentStatus
  pub new_status : PaymentStatus
  pub actor : String
  pub created_at : Time
