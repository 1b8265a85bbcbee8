-- ===== src/Agent/Exchange.antt =====
-- What comes of a request to the agent of portal_mcp_server/credential_agent.py, and of a value that is
-- stored and fetched.
use portal_mcp_server.Base.{
  ltb, length, ℕ, ◌<◌, ◌≡◌, refl, Text, text_has_eq, strip, true, false, some, [], ◌∷◌, ◌++◌,
  is_empty, join, ok,
}
use portal_mcp_server.Secrets.Stdin.{OneLine, read_line-OneLine}
use portal_mcp_server.Agent.{Kind, Key, key_has_eq, Cache, Message, Response}
use portal_mcp_server.Agent.Ops
use portal_mcp_server.Agent.Ops.{dispatch}
use portal_mcp_server.Agent.Wire.{
  Codec, Peer, handle, send_request, recv_line, recv_line_lem, read_response, Chunks,
}

module _ (sha : Text → Text) (second : ℕ) (codec : Codec) (peer : Peer) where
  -- The agent is there, and both ends are the user's.
  abbrev pub Trusted : Type 0
  Trusted =
      (peer.is_configured ≡ true)
      × ((peer.is_reachable ≡ true) × ((peer.agent_is_ours ≡ true) × (peer.client_is_ours ≡ true)))

  -- JSON makes one line of the message, that comes back, and that the agent's reader takes.
  abbrev pub CarriesMessage : Message → Type 0
  CarriesMessage m =
      OneLine (codec.encode_message m)
      × ((codec.decode_message (codec.encode_message m) ≡ some m)
          × (ltb codec.line_limit (length (codec.encode_message m)) ≡ false))

  -- JSON makes one line of the response, that is not empty and comes back.
  abbrev pub CarriesResponse : Response → Type 0
  CarriesResponse r =
      OneLine (codec.encode_response r)
      × ((is_empty (codec.encode_response r) ≡ false)
          × (codec.decode_response (codec.encode_response r) ≡ some r))

  -- What is sent arrives, in chunks.
  abbrev pub Delivers : Type 0
  Delivers = (s : Text) → Chunks (codec.cut s) × (join (codec.cut s) ≡ s)

  module _ (trusted : Trusted) (delivers : Delivers) where
    handle_lem :
        (m : Message) (now later : ℕ) (cache : Cache)
        → CarriesMessage m
        → handle sha second codec peer (codec.encode_message m ++ b'\n' ∷ []) now later cache ≡ (
          (dispatch sha second m now later cache).0,
          codec.encode_response (dispatch sha second m now later cache).1 ++ b'\n' ∷ [],
        )
    unfolding handle
    handle_lem m now later cache (one, (back, short)) =
        let (_, (_, (_, ours))) = trusted in
        rw (handle, ours, read_line-OneLine (codec.encode_message m) [] one, short, back) refl

    read_response_lem :
        (r : Response)
        → CarriesResponse r
        → read_response codec (recv_line (codec.cut (codec.encode_response r ++ b'\n' ∷ []))) ≡ ok r
    read_response_lem r (one, (full, back)) =
        let (chunks, whole) = delivers (codec.encode_response r ++ b'\n' ∷ []) in
        rw
          (
            recv_line_lem (codec.encode_response r) []
                (codec.cut (codec.encode_response r ++ b'\n' ∷ [])) one chunks whole,
            full,
            back,
          )
          refl

    -- A request to the user's own agent gives what the agent's dispatch answers, however the stream cuts
    -- the lines.
    pub send_request_lem :
        (m : Message) (now later : ℕ) (cache : Cache)
        → CarriesMessage m
        → CarriesResponse (dispatch sha second m now later cache).1
        → send_request sha second codec peer m now later cache ≡ (
          (dispatch sha second m now later cache).0,
          ok (dispatch sha second m now later cache).1,
        )
    unfolding send_request
    send_request_lem m now later cache message response =
        let (configured, (reachable, (ours, _))) = trusted in
        rw
          (
            send_request,
            handle_lem m now later cache message,
            read_response_lem (dispatch sha second m now later cache).1 response,
            configured,
            reachable,
            ours,
          )
          refl

    module _ (kind : Kind) (key value : Text) (ttl now : ℕ) (named : is_empty (strip key) ≡ false)
        (full : is_empty value ≡ false) (lasts : 0 < ttl) where
      abbrev stored : Key
      stored = record { kind = kind; name = strip key }
