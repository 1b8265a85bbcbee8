-- ===== src/Tests/AgentRuns.antt =====
-- portal_mcp_server/credential_agent.py on a short history: a password is set and read.
use portal_mcp_server.Base.{
  ◌≡◌, Text, codes, text_eq, text_has_eq, ◌==◌, List, [], ◌∷◌, none, some, arith, strip, true,
  if◌then◌else◌,
}
use portal_mcp_server.Agent.{
  sudo, Key, key_has_eq, Message, absent, unusable, unreadable, lasting, found,
}
use portal_mcp_server.Agent.Ops.{key_from_msg, usable_ttl}
use portal_mcp_server.Agent.Wire.{Codec, Peer}
use portal_mcp_server.Agent.Client.{store_message, fetch_message}
use portal_mcp_server.Agent.View.{view}
use portal_mcp_server.Agent.History.{Request, serve, serve-view}

abbrev sha : Text → Text
sha t = t

abbrev setting : Message
setting = record {
  op = some (codes "set");
  kind = some sudo;
  name = none;
  host = some (codes " web01 ");
  value = none;
  password = some (codes "pw");
  ttl = lasting 50;
}

abbrev getting : Message
getting = record setting { op = some (codes "get"); password = none; host = some (codes "web01") }

abbrev history : List Request
history =
    record { message = getting; now = 20; later = 20 }
    ∷ record { message = setting; now = 5; later = 5 }
    ∷ []

abbrev web01 : Key
web01 = record { kind = sudo; name = codes "web01" }

serve-view_example : view 30 (serve sha 10 history) web01 ≡ some (codes "pw")
unfolding key_from_msg usable_ttl text_eq strip
serve-view_example = serve-view sha 10 history 30 web01 (omega arith, (omega arith, tt))

-- A codec for the messages of one exchange, on a stream that delivers one character at a time.
abbrev storing : Message
storing = store_message sudo (codes "web01") (codes "pw") 50

abbrev one_each : Text → List Text
one_each [] = []
one_each (c ∷ s) = (c ∷ []) ∷ one_each s

abbrev codec : Codec
codec = record {
  encode_message = λ m. elim m.ttl [
    | lasting n ↦ codes "s"
    | absent ↦ codes "g"
    | unusable ↦ codes "g"
    | unreadable ↦ codes "g"
  ];
  decode_message =
      λ t. if t == codes "s" then some storing else some (fetch_message sudo (codes "web01"));
  encode_response = λ r. codes "pw";
  decode_response = λ t. some (found t);
  error_line = codes "e";
  cut = one_each;
  line_limit = 65536;
}

abbrev peer : Peer
peer = record {
  is_configured = true;
  is_reachable = true;
  agent_is_ours = true;
  client_is_ours = true;
}
