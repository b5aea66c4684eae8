-- ===== src/Scheduling/Contact.antt =====
-- backend/src/fsm/scheduling/domain/contact_info.py.
use field_service_management.Base.{Bool, Option, none, some, []}
use field_service_management.Base.Text.{Text, strip, truthy}

pub record ContactInfo : Type 0 where
  pub address : Option Text
  pub phone : Option Text

-- `value or ""`.
abbrev pub or_empty : Option Text → Text
or_empty none = []
or_empty (some s) = s

unfoldable pub has_address : ContactInfo → Bool
has_address c = truthy (strip (or_empty c.address))

unfoldable pub has_phone : ContactInfo → Bool
has_phone c = truthy (strip (or_empty c.phone))

-- `ContactInfo()`.
unfoldable pub no_contact : ContactInfo
no_contact = record { address = none; phone = none }
