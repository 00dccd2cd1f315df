-- ===== src/Tests/Notifications.antt =====
-- The theorem on src/bms_2030_5_client/subscription/notification_handler.py at a concrete notification.
use ieee2030_5_cold_client.Prelude.{
  ◌≡◌, refl, String, false, Option, none, some, List, [], ◌∷◌, if◌then◌else◌, str_eq,
}
use ieee2030_5_cold_client.Prelude.Int.{ℤ, pos}
use ieee2030_5_cold_client.Prelude.Text.{is_in, strip_ns}
use ieee2030_5_cold_client.Models.{DerControl}
use ieee2030_5_cold_client.Client.State.{event_received}
use ieee2030_5_cold_client.Notifications.{
  ElementTree, Sending, each, new_control, control_child, parse_der_control, looks_like_der_control,
  find_control, extract_der_control, send_control_response,
}
use ieee2030_5_cold_client.Notifications.Unanswered.{send_control_response_never}
use ieee2030_5_cold_client.Tests.{world}

-- A document with a resource that holds an mRID and a primacy.
data Node : Type 0 where
  document_node resource_node m_rid_node primacy_node : Node

abbrev child_elements : Node → List Node
child_elements document_node = resource_node ∷ []
child_elements resource_node = m_rid_node ∷ primacy_node ∷ []
child_elements _ = []

abbrev tag_of : Node → String
tag_of document_node = "{urn:ieee:std:2030.5:ns}Notification"
tag_of resource_node = "{urn:ieee:std:2030.5:ns}Resource"
tag_of m_rid_node = "{urn:ieee:std:2030.5:ns}mRID"
tag_of _ = "{urn:ieee:std:2030.5:ns}primacy"

abbrev text_of : Node → Option String
text_of m_rid_node = some "C1F0"
text_of primacy_node = some "5"
text_of _ = none

abbrev number : String → Option ℤ
number s = if str_eq s "5" then some (pos 5) else none

abbrev etree : ElementTree Node
etree = record {
  fromstring = λ s. some document_node;
  children = child_elements;
  tag = tag_of;
  text = text_of;
  xsi_type = λ e. "DERControl";
  int = number;
  natural = λ s. none;
  lower = λ s. s;
}

abbrev notified : DerControl
notified = record (new_control "1") { m_rid = some "C1F0"; primacy = pos 5 }

abbrev sending : Sending
sending = record { lfdi = none; responses_sent = 0; errors = 0; posts = [] }

extracted : extract_der_control etree "1" "<Notification/>" ≡ some notified
unfolding extract_der_control find_control parse_der_control looks_like_der_control control_child
    each is_in strip_ns
extracted = refl

send_control_response_never_example :
    send_control_response event_received notified sending world ≡ (false, sending, world)
send_control_response_never_example =
    send_control_response_never etree "1" "<Notification/>" notified event_received sending world
      extracted
