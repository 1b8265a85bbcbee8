-- ===== src/Agent/Client.antt =====
-- The client's calls of portal_mcp_server/credential_agent.py.
use portal_mcp_server.Base.{
  ℕ, Text, codes, text_has_eq, Bool, not, Option, none, some, [], if◌then◌else◌, Result, ok, err,
}
use portal_mcp_server.Agent.{
  Kind, secret, kind_eq, key_has_eq, Cache, absent, lasting, Message, Response, found,
}
use portal_mcp_server.Agent.Wire.{
  Codec, Peer, RequestFault, not_configured, os_error, no_response, foreign_agent, bad_json,
  send_request,
}

abbrev pub text_if : Bool → Text → Option Text
text_if b t = if b then some t else none

-- A message with the key under `name` or `host`, and the value under `value` or `password`.
abbrev pub key_message : Text → Kind → Text → Message
key_message op kind key = record {
  op = some op;
  kind = some kind;
  name = text_if (kind_eq kind secret) key;
  host = text_if (not (kind_eq kind secret)) key;
  value = none;
  password = none;
  ttl = absent;
}

-- The messages of `store`, `fetch`, `clear`, `fingerprint`, `list_entries` and `status`.
abbrev pub store_message : Kind → Text → Text → ℕ → Message
store_message kind key value ttl = record (key_message (codes "set") kind key) {
  value = text_if (kind_eq kind secret) value;
  password = text_if (not (kind_eq kind secret)) value;
  ttl = lasting ttl;
}

abbrev pub fetch_message : Kind → Text → Message
fetch_message kind key = key_message (codes "get") kind key

abbrev pub clear_message : Kind → Option Text → Message
clear_message kind (some key) = key_message (codes "clear") kind key
clear_message kind none = record (key_message (codes "clear") kind []) { name = none; host = none }

abbrev pub fingerprint_message : Kind → Text → Message
fingerprint_message kind key = key_message (codes "fingerprint") kind key

abbrev pub list_message : Kind → Message
list_message kind = record (key_message (codes "list") kind []) { name = none; host = none }

abbrev pub status_message : Message
status_message = record (list_message secret) { op = some (codes "status"); kind = none }

-- What `fetch` makes of the response: an agent that is not there has no value, and one that is not the
-- user's is an error.
abbrev pub fetched : Result RequestFault Response → Result RequestFault (Option Text)
fetched (ok (found value)) = ok (some value)
fetched (ok _) = ok none
fetched (err not_configured) = ok none
fetched (err os_error) = ok none
fetched (err no_response) = ok none
fetched (err foreign_agent) = err foreign_agent
fetched (err bad_json) = err bad_json

module _ (sha : Text → Text) (second : ℕ) (codec : Codec) (peer : Peer) where
  -- `store`
  unfoldable pub store_credential :
      Kind → Text → Text → ℕ → ℕ → Cache → Cache × Result RequestFault Response
  store_credential kind key value ttl now cache =
      send_request sha second codec peer (store_message kind key value ttl) now now cache

  -- `fetch`
  unfoldable pub fetch_credential :
      Kind → Text → ℕ → Cache → Cache × Result RequestFault (Option Text)
  fetch_credential kind key now cache =
      let (cache', answer) =
        send_request sha second codec peer (fetch_message kind key) now now cache in
      (cache', fetched answer)
