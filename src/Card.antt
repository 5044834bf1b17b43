-- ===== src/Card.antt =====
-- src/a2a_hub/card.py: `build_agent_card`, and the extension URIs of the modules that it names.
use a2a_hub.Prelude.{Bool, true, false, List, [], ◌∷◌, ◌++◌}
use a2a_hub.Prelude.Text.{Str, codes, rstrip_char, lstrip_char}
use a2a_hub.Hub.{registry_extension_uri, marks_extension_uri}

abbrev pub recipient_extension_uri : Str
recipient_extension_uri = codes "https://github.com/TLmaK0/a2a-hub/ext/recipient-routing/v1"

abbrev pub session_extension_uri : Str
session_extension_uri = codes "https://github.com/TLmaK0/a2a-hub/ext/session-identity/v1"

abbrev pub security_scheme_name : Str
security_scheme_name = codes "bearer"

pub record Extension : Type 0 where
  pub uri : Str
  pub description : Str
  pub required : Bool

pub record Skill : Type 0 where
  pub id : Str
  pub name : Str
  pub description : Str
  pub tags : List Str
  pub examples : List Str
  pub input_modes : List Str
  pub output_modes : List Str

-- What the card says, `url` being that of its one JSON-RPC interface; a scheme is its name, its kind
-- of HTTP authentication and its description.
pub record AgentCard : Type 0 where
  pub name : Str
  pub description : Str
  pub version : Str
  pub url : Str
  pub protocol_version : Str
  pub streaming : Bool
  pub push_notifications : Bool
  pub extensions : List Extension
  pub input_modes : List Str
  pub output_modes : List Str
  pub skills : List Skill
  pub security_schemes : List (Str × Str × Str)
  pub security_requirements : List Str

unfoldable pub endpoint_of : (public_url rpc_url : Str) → Str
endpoint_of public_url rpc_url =
    rstrip_char b'/' public_url ++ codes "/" ++ lstrip_char b'/' rpc_url

abbrev pub recipient_extension : Extension
recipient_extension = record {
  uri = recipient_extension_uri;
  description =
      codes "SendMessage routes by the 'recipient' key in the message's metadata (e.g. "
      ++ codes "metadata: {\"recipient\": \"agent-b\"}); not part of A2A core, which has no "
      ++ codes "addressing field of its own. A message with none is rejected.";
  required = true;
}

abbrev pub session_extension : Extension
session_extension = record {
  uri = session_extension_uri;
  description =
      codes "Every authenticated request must carry the 'a2a-session' header, giving the "
      ++ codes "token's principal a sub-identity (principal/session) with its own mailbox. "
      ++ codes "Missing or malformed, the request is refused (400).";
  required = true;
}

abbrev pub registry_extension : Extension
registry_extension = record {
  uri = registry_extension_uri;
  description =
      codes "Agents declare identity, role, host, projects and status; the hub stamps last-seen "
      ++ codes "itself, so a dead agent cannot claim to be alive. POST /agents/register, GET "
      ++ codes "/agents.";
  required = false;
}

abbrev pub marks_extension : Extension
marks_extension = record {
  uri = marks_extension_uri;
  description =
      codes "Recipients mark a message processed, discarded or awaiting a decision, each with the "
      ++ codes "detail that close required; the sender may read what happened to what they sent. "
      ++ codes "POST/GET /messages/{task_id}/mark, GET /messages/marks.";
  required = false;
}

abbrev pub mailbox_skill : Skill
mailbox_skill = record {
  id = codes "mailbox";
  name = codes "Store-and-forward mailbox";
  description =
      codes "Delivers a message to the mailbox of the agent named in the 'recipient' metadata. The "
      ++ codes "recipient picks it up with ListTasks.";
  tags = codes "mailbox" ∷ codes "relay" ∷ codes "a2a" ∷ [];
  examples = codes "SendMessage with metadata {\"recipient\": \"agent-b\"}" ∷ [];
  input_modes = codes "text/plain" ∷ [];
  output_modes = codes "text/plain" ∷ [];
}

-- `version` is the installed one
unfoldable pub build_agent_card : (version public_url rpc_url : Str) → AgentCard
build_agent_card version public_url rpc_url = record {
  name = codes "a2a-hub";
  description =
      codes "A2A store-and-forward hub: a mailbox between agents. Routes each message to its "
      ++ codes "recipient's mailbox (Task), which is picked up with ListTasks/GetTask.";
  version = version;
  url = endpoint_of public_url rpc_url;
  protocol_version = codes "1.0";
  streaming = false;
  push_notifications = false;
  extensions = recipient_extension ∷ session_extension ∷ registry_extension ∷ marks_extension ∷ [];
  input_modes = codes "text/plain" ∷ [];
  output_modes = codes "text/plain" ∷ [];
  skills = mailbox_skill ∷ [];
  security_schemes =
      (
        security_scheme_name,
        codes "bearer",
        codes "One token per agent (Authorization: Bearer <token>).",
      )
      ∷ [];
  security_requirements = security_scheme_name ∷ [];
}
