-- ===== src/Audit.antt =====
-- backend/app/audit/service.py
use railbook.Base.{ℕ, String, Option, none, some}
use railbook.Base.Outcome.{Result}
use railbook.Models.{Status, Action, Metadata, empty, AuditTrail, Db}
use railbook.Models.Constraints.{insert_audit}

-- `metadata or {}`
abbrev pub metadata_or_empty : Option Metadata → Metadata
metadata_or_empty none = empty
metadata_or_empty (some m) = m

-- The entry joins the session's transaction: where that rolls back, so does the entry.
unfoldable pub log_audit :
    (booking_id user_id : ℕ) (action : Action) (previous_status : Option Status)
    (new_status : Status) (metadata : Option Metadata) (ip_address : Option String) (tx_time : ℕ)
    → Db
    → Result Db
log_audit booking_id user_id action previous_status new_status metadata ip_address tx_time db =
    insert_audit entry db
  where
    entry : AuditTrail
    entry = record {
      id = db.audit_seq;
      booking_id = booking_id;
      user_id = user_id;
      action = action;
      previous_status = previous_status;
      new_status = new_status;
      metadata = metadata_or_empty metadata;
      ip_address = ip_address;
      created_at = tx_time;
    }
