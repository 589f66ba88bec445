-- ===== src/Ledger/Runs.antt =====
-- Sequences of the requests that write the ledger: webhooks of payments (HandleWebhook) and callbacks
-- of disbursements (HandleDisbursementCallback). What other requests do meanwhile is the environment's.
use wanpay.Base.{◌≤◌, String, List, [], ◌∷◌, All}
use wanpay.Entity.Mutation.{MutationReferenceType}
use wanpay.Db.Monad.{Env, World}
use wanpay.Db.Mutations.{IsLedger, occurrences, occurrences-le-one}
use wanpay.Fee.{FloatOps}
use wanpay.Payment.Types.{Headers, Gateways}
use wanpay.Payment.Webhook.{handle_webhook}
use wanpay.Disbursement.Types.{DisbursementGateways}
use wanpay.Disbursement.Callback.{handle_disbursement_callback}
use wanpay.Ledger.Keeps.{Honest}
use wanpay.Ledger.Requests.{handle_webhook-Keeps, handle_disbursement_callback-Keeps}

pub data Request : Type 0 where
  webhook : String → Headers → String → Request
  callback : String → Headers → String → Request

-- A request, and the environment that it meets.
abbrev pub Incoming : Type 0
Incoming = Env × Request

abbrev pub IsHonest : Incoming → Type 0
IsHonest (env, request) = Honest env

module _ (ops : FloatOps) (gateways : Gateways) (payers : DisbursementGateways) where
  unfoldable pub serve : Incoming → World → World
  serve (env, Request.webhook provider headers body) w =
      (handle_webhook ops env gateways provider headers body w).1
  serve (env, Request.callback provider headers body) w =
      (handle_disbursement_callback env payers provider headers body w).1

  unfoldable pub serve_all : List Incoming → World → World
  unfolding serve
  serve_all [] w = w
  serve_all (r ∷ rs) w = serve_all rs (serve r w)

  serve-IsLedger :
      (r : Incoming) (w : World)
      → IsHonest r
      → IsLedger w.db.mutations
      → IsLedger (serve r w).db.mutations
  unfolding serve
  serve-IsLedger (env, Request.webhook provider headers body) w honest h =
      handle_webhook-Keeps env honest ops gateways provider headers body w h
  serve-IsLedger (env, Request.callback provider headers body) w honest h =
      handle_disbursement_callback-Keeps env honest payers provider headers body w h

  serve_all-IsLedger :
      (rs : List Incoming) (w : World)
      → All IsHonest rs
      → IsLedger w.db.mutations
      → IsLedger (serve_all rs w).db.mutations
  unfolding serve_all
  serve_all-IsLedger [] w honest h = h
  serve_all-IsLedger (r ∷ rs) w honest h =
      serve_all-IsLedger rs (serve r w) (honest.1) (serve-IsLedger r w (honest.0) h)

  -- However many webhooks and callbacks arrive, in whatever order, from whatever providers, and
  -- whichever of their statements fail: in a ledger that was well formed before, no two entries
  -- refer to one payment or to one disbursement. The premise on the environments: what other requests
  -- commit meanwhile leaves a well-formed ledger well formed.
  pub occurrences-serve_all :
      (rs : List Incoming) (w : World) (id : String) (type : MutationReferenceType)
      → All IsHonest rs
      → IsLedger w.db.mutations
      → occurrences id type (serve_all rs w).db.mutations ≤ 1
  occurrences-serve_all rs w id type honest h =
      occurrences-le-one id type (serve_all rs w).db.mutations (serve_all-IsLedger rs w honest h)
