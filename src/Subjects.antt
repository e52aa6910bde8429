-- ===== src/Subjects.antt =====
-- crates/contracts/src/subjects.rs: NATS subject and stream names.
mod Tests
use drone_dispatch.Common.{◌++◌}
use drone_dispatch.Text.{Text, text}

abbrev pub auth_grant_revoked : Text
auth_grant_revoked = text "auth.events.grant_revoked"

abbrev pub auth_user_deleted : Text
auth_user_deleted = text "auth.events.user_deleted"

abbrev pub stream_auth_events : Text
stream_auth_events = text "AUTH_EVENTS"

abbrev pub stream_merchant_events : Text
stream_merchant_events = text "MERCHANT_EVENTS"

abbrev pub stream_dispatch_requests : Text
stream_dispatch_requests = text "DISPATCH_REQUESTS"

abbrev pub stream_missions : Text
stream_missions = text "MISSIONS"

abbrev pub stream_telemetry : Text
stream_telemetry = text "TELEMETRY"

abbrev pub merchant_state : Text
merchant_state = text "merchant.state.>"

unfoldable pub catalog_state : Text → Text
catalog_state place_id = text "merchant.state.catalog." ++ place_id

unfoldable pub section_state : Text → Text
section_state section_id = text "merchant.state.section." ++ section_id

unfoldable pub item_state : Text → Text
item_state item_id = text "merchant.state.item." ++ item_id

unfoldable pub fulfilment_event : Text → Text → Text
fulfilment_event order_id status = text "merchant.fulfilment." ++ order_id ++ text "." ++ status

unfoldable pub dispatch_request : Text → Text
dispatch_request zone = text "dispatch." ++ zone ++ text ".request"

unfoldable pub dispatch_recall : Text → Text
dispatch_recall zone = text "dispatch." ++ zone ++ text ".recall"

unfoldable pub dispatch_commands : Text → Text
dispatch_commands zone = text "dispatch." ++ zone ++ text ".>"

unfoldable pub mission_event : Text → Text → Text
mission_event order_id event = text "mission." ++ order_id ++ text "." ++ event

unfoldable pub telemetry_raw : Text → Text → Text
telemetry_raw zone drone_id = text "tlm.raw." ++ zone ++ text "." ++ drone_id
