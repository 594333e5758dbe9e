-- ===== src/Tools/Types.antt =====
-- internal/tools/types.go: the trusted context of a call and its capabilities. Model supplied
-- arguments are kept apart from it.
use kontor.Prelude.{Bool, String, not, ◌&&◌, str_eq}

pub data Capability : Type 0 where
  schedule_read booking_create_self booking_write_self crm_contact_self crm_deal_after_book
        conversation_escalate never :
      Capability

-- `capabilities` is the map `Capabilities`; a nil map allows nothing.
pub record TrustedContext : Type 0 where
  pub tenant_id : String
  pub customer_id : String
  pub customer_display_name : String
  pub customer_email : String
  pub customer_phone : String
  pub conversation_id : String
  pub inbound_message_id : String
  pub agent_run_id : String
  pub capabilities : Capability → Bool

abbrev pub allows : TrustedContext → Capability → Bool
allows c capability = c.capabilities capability

abbrev pub is_empty : String → Bool
is_empty s = str_eq s ""

abbrev pub valid : TrustedContext → Bool
valid c =
    not (is_empty c.tenant_id) && (not (is_empty c.customer_id) && not (is_empty c.conversation_id))
