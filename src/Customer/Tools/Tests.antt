-- ===== src/Customer/Tools/Tests.antt =====
-- A tool that an agent calls.
use drone_dispatch.Common.{◌≡◌, refl}
use drone_dispatch.Customer.Tools.{answer, reorder}
use drone_dispatch.Text.{text}

reorder_is_a_stub : (answer (reorder (text "o1"))).tool ≡ text "reorder"
unfolding answer
reorder_is_a_stub = refl
