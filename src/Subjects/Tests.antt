-- ===== src/Subjects/Tests.antt =====
-- The subjects of the tests in subjects.rs.
use drone_dispatch.Common.{◌≡◌, refl}
use drone_dispatch.Subjects.{dispatch_recall, fulfilment_event, telemetry_raw}
use drone_dispatch.Text.{text}

recall_subject : dispatch_recall (text "sea-south") ≡ text "dispatch.sea-south.recall"
unfolding dispatch_recall
recall_subject = refl

fulfilment_subject :
    fulfilment_event (text "o1") (text "accepted") ≡ text "merchant.fulfilment.o1.accepted"
unfolding fulfilment_event
fulfilment_subject = refl

telemetry_subject : telemetry_raw (text "sea-north") (text "d7") ≡ text "tlm.raw.sea-north.d7"
unfolding telemetry_raw
telemetry_subject = refl
