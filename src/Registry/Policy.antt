-- ===== src/Registry/Policy.antt =====
-- registry.rs `MfaPolicy`: when a resource wants a second factor.
use drone_dispatch.Common.{Bool, true, false}

pub data MfaPolicy : Type 0 where
  none step_up always : MfaPolicy

-- `policy == MfaPolicy::Always`
abbrev pub is_always : MfaPolicy → Bool
is_always always = true
is_always _ = false
