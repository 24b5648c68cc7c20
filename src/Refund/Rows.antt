-- ===== src/Refund/Rows.antt =====
-- The rows that backend/src/executor/refund-executor.ts keeps, with the columns that it reads again.
use wbob_bridge.Prelude.{ℕ, Bool, Option, ◌==◌, none, some, false, ◌&&◌}
use wbob_bridge.Prelude.Text.{Text, text_eq}
use wbob_bridge.TxBuilder.RawTx.{RawTx}

pub data RefundStatus : Type 0 where
  queued signed broadcast confirmed needs_attention too_small : RefundStatus

abbrev pub status_code : RefundStatus → ℕ
status_code queued = 0
status_code signed = 1
status_code broadcast = 2
status_code confirmed = 3
status_code needs_attention = 4
status_code too_small = 5

abbrev pub same_status : RefundStatus → RefundStatus → Bool
same_status a b = status_code a == status_code b

-- A row of deposit_refunds. The table lists them by `created_at`.
pub record RefundRow : Type 0 where
  pub id : ℕ
  pub order_id : ℕ
  pub deposit_txid : ℕ
  pub deposit_vout : ℕ
  pub excess_sat : ℕ
  pub refund_address : Option Text
  pub status : RefundStatus
  pub split_alerted : Bool
  pub amount_sat : Option ℕ
  pub fee_sat : Option ℕ
  pub bridge_fee_sat : Option ℕ
  pub signed_hex : Option RawTx
  pub txid : Option ℕ
  pub change_sat : Option ℕ
  pub change_address : Option Text
  pub change_index : Option ℕ
  pub signed_at : ℕ
  pub confirmations : ℕ

pub data RefundEvent : Type 0 where
  refund_signed refund_broadcast refund_confirmed refund_needs_attention refund_too_small_event :
      RefundEvent

-- A row of audit_events that the refunds write.
pub record RefundAudit : Type 0 where
  pub order_id : ℕ
  pub event_type : RefundEvent
  pub from_status : RefundStatus
  pub to_status : RefundStatus

abbrev pub refund_is : ℕ → RefundRow → Bool
refund_is i r = r.id == i

abbrev pub is_refund_in : ℕ → RefundStatus → RefundRow → Bool
is_refund_in i status r = refund_is i r && same_status r.status status

abbrev pub same_address : Option Text → Option Text → Bool
same_address none b = false
same_address (some a) none = false
same_address (some a) (some b) = text_eq a b
