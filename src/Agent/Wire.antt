-- ===== src/Agent/Wire.antt =====
-- How a client of portal_mcp_server/credential_agent.py and the agent talk: lines of JSON over a stream.
-- JSON and the stream's cuts are parameters.
use portal_mcp_server.Base.{
  ltb, length, ℕ, ◌≡◌, refl, ap, sym, ◌∙◌, Text, Bool, true, false, not, ◌||◌, Option, none, some,
  List, [], ◌∷◌, ◌++◌, append_assoc, append-nil, any, is_empty, nat_beq, arith, if◌then◌else◌, All,
  join, Result, ok, err,
}
use portal_mcp_server.Secrets.Stdin.{read_line, OneLine, read_line-OneLine}
use portal_mcp_server.Agent.{Cache, Message, Response}
use portal_mcp_server.Agent.Ops.{dispatch}

-- `b"\n" in buf`
abbrev pub has_newline : Text → Bool
has_newline = any (λ c. nat_beq c b'\n')

-- `_recv_line` with what is read so far; an empty chunk, or none, is the end of the stream.
unfoldable pub recv_from : Text → List Text → Text
recv_from buf [] = (read_line buf).0
recv_from buf (chunk ∷ chunks) =
    let rest = recv_from (buf ++ chunk) chunks in
    if has_newline buf || is_empty chunk then (read_line buf).0 else rest

-- `_recv_line`
abbrev pub recv_line : List Text → Text
recv_line chunks = recv_from [] chunks

-- JSON as both sides use it, how the stream cuts what is sent, and how long a line asyncio's
-- `readline` takes (64 KiB by default).
pub record Codec : Type 0 where
  pub encode_message : Message → Text
  pub decode_message : Text → Option Message
  pub encode_response : Response → Text
  pub decode_response : Text → Option Response
  pub error_line : Text
  pub cut : Text → List Text
  pub line_limit : ℕ

-- The agent as a client meets it.
pub record Peer : Type 0 where
  pub is_configured : Bool
  pub is_reachable : Bool
  pub agent_is_ours : Bool
  pub client_is_ours : Bool

-- `CredentialAgent.handle` on what comes over one connection: the cache, and what it writes.
unfoldable pub handle : (Text → Text) → ℕ → Codec → Peer → Text → ℕ → ℕ → Cache → Cache × Text
handle sha second codec peer sent now later cache =
    if not peer.client_is_ours
    then (cache, [])
    else if ltb codec.line_limit (length (read_line sent).0)
    then (cache, codec.error_line ++ b'\n' ∷ [])
    else elim (codec.decode_message (read_line sent).0) [
      | none ↦ (cache, codec.error_line ++ b'\n' ∷ [])
      | some m ↦
          let (cache', resp) = dispatch sha second m now later cache in
          (cache', codec.encode_response resp ++ b'\n' ∷ [])
    ]

-- Why a request fails.
pub data RequestFault : Type 0 where
  not_configured os_error foreign_agent no_response bad_json : RequestFault

-- `json.loads(resp)`, or the error for an empty one.
abbrev pub read_response : Codec → Text → Result RequestFault Response
read_response codec resp =
    if is_empty resp
    then err no_response
    else elim (codec.decode_response resp) [ none ↦ err bad_json | some r ↦ ok r ]

-- `request`, with the agent's part of the exchange.
unfoldable pub send_request :
    (Text → Text)
    → ℕ
    → Codec
    → Peer
    → Message
    → ℕ
    → ℕ
    → Cache
    → Cache × Result RequestFault Response
send_request sha second codec peer m now later cache =
    let (cache', written) =
      handle sha second codec peer (codec.encode_message m ++ b'\n' ∷ []) now later cache in
    if not peer.is_configured
    then (cache, err not_configured)
    else if not peer.is_reachable
    then (cache, err os_error)
    else if not peer.agent_is_ours
    then (cache, err foreign_agent)
    else (cache', read_response codec (recv_line (codec.cut written)))

-- A line that comes in chunks, none of which is empty, is read whole, whatever the cuts.
has_newline-OneLine : (line : Text) → OneLine line → has_newline line ≡ false
has_newline-OneLine [] one = refl
has_newline-OneLine (c ∷ line) (differs, one) = ground (arith, has_newline-OneLine line one)

-- No chunk is empty.
abbrev pub Chunks : List Text → Type 0
Chunks = All (λ chunk. is_empty chunk ≡ false)

-- Once the buffer has a line end, what comes later is not looked at.
read_line-append :
    (buf more : Text) → has_newline buf ≡ true → (read_line (buf ++ more)).0 ≡ (read_line buf).0
read_line-append [] more h = cc
read_line-append (c ∷ buf) more h = decide (nat_beq c b'\n') refl (read_line-append buf more)
  where
    decide :
        (b : Bool)
        → nat_beq c b'\n' ≡ b
        → (has_newline buf ≡ true → (read_line (buf ++ more)).0 ≡ (read_line buf).0)
        → (read_line (c ∷ buf ++ more)).0 ≡ (read_line (c ∷ buf)).0
    decide true e later = rw e refl
    decide false e later =
        let step : (read_line (buf ++ more)).0 ≡ (read_line buf).0 = later (ground (arith, e, h)) in
        rw e (ap (λ l. c ∷ l) step)

recv_from_lem :
    (buf : Text) (chunks : List Text)
    → Chunks chunks
    → recv_from buf chunks ≡ (read_line (buf ++ join chunks)).0
unfolding recv_from
recv_from_lem buf [] full = ap (λ s. (read_line s).0) (sym (append-nil buf))
recv_from_lem buf (chunk ∷ chunks) (some_text, full) =
    decide (has_newline buf) refl (recv_from_lem (buf ++ chunk) chunks full)
  where
    decide :
        (b : Bool)
        → has_newline buf ≡ b
        → recv_from (buf ++ chunk) chunks ≡ (read_line ((buf ++ chunk) ++ join chunks)).0
        → (if b || is_empty chunk then (read_line buf).0 else recv_from (buf ++ chunk) chunks)
          ≡ (read_line (buf ++ (chunk ++ join chunks))).0
    decide true e later = sym (read_line-append buf (chunk ++ join chunks) e)
    decide false e later =
        rw some_text (later ∙ ap (λ s. (read_line s).0) (append_assoc buf chunk (join chunks)))

-- Whatever the cuts, `_recv_line` gives the first line of what was sent.
pub recv_line_lem :
    (line rest : Text) (chunks : List Text)
    → OneLine line
    → Chunks chunks
    → join chunks ≡ line ++ b'\n' ∷ rest
    → recv_line chunks ≡ line
recv_line_lem line rest chunks one full sent =
    recv_from_lem [] chunks full
    ∙ ap (λ s. (read_line s).0) sent
    ∙ ap (λ p. p.0) (read_line-OneLine line rest one)
