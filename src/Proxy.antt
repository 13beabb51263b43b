-- ===== src/Proxy.antt =====
-- client-daemon/src/proxy.rs: the HTTP proxy. A request's messages become a prompt, and the tokens that
-- the engine sends become the events of the response. A string is its bytes.
pub mod Stream
mod Examples
use spmp.Prelude.{ℕ, List, [], ◌∷◌, ◌++◌, map, Bytes}
use spmp.Prelude.Text.{ascii}
use spmp.Results.{Result}

pub record ChatMessage : Type 0 where
  pub content : Bytes

pub record ChatCompletionRequest : Type 0 where
  pub messages : List ChatMessage

-- The engine behind the proxy: the tokens that it sends for a prompt, in their order, and how its call
-- ends.
pub record Engine : Type 0 where
  pub stream_inference : Bytes → List Bytes × Result (Unit {0})

-- The text that serde_json prints for `{"choices": [{"delta": {"content": token}}]}`.
abbrev pub DeltaJson : Type 0
DeltaJson = Bytes → Bytes

-- `.join("\n")`
abbrev pub join_lines : List Bytes → Bytes
join_lines [] = []
join_lines (x ∷ []) = x
join_lines (x ∷ y ∷ rest) = x ++ (10 ∷ join_lines (y ∷ rest))

abbrev pub prompt_of : ChatCompletionRequest → Bytes
prompt_of request = join_lines (map (λ message. message.content) request.messages)

-- `format!("data: {chunk}\n\n")`
unfoldable pub event : Bytes → Bytes
event chunk = ascii "data: " ++ (chunk ++ (10 ∷ 10 ∷ []))

abbrev pub done_marker : Bytes
done_marker = ascii "[DONE]"

-- What the body's stream yields for the tokens that it receives until the channel closes.
unfoldable pub body_stream : DeltaJson → List Bytes → List Bytes
body_stream json [] = event done_marker ∷ []
body_stream json (token ∷ tokens) = event (json token) ∷ body_stream json tokens

pub record Response : Type 0 where
  pub content_type : Bytes
  pub cache_control : Bytes
  pub body : List Bytes

-- The engine's call is a task of its own, whose error is logged and nothing else.
unfoldable pub chat_completions : DeltaJson → Engine → ChatCompletionRequest → Response
chat_completions json engine request =
    let (tokens, outcome) = engine.stream_inference (prompt_of request) in
    record {
      content_type = ascii "text/event-stream";
      cache_control = ascii "no-cache";
      body = body_stream json tokens;
    }

-- The server, with its engine.
pub record ProxyServer : Type 0 where
  pub addr : Bytes
  pub engine : Engine

pub new : Bytes → Engine → ProxyServer
new addr engine = record { addr = addr; engine = engine }

pub data Method : Type 0 where
  get post : Method

-- What a route is served by: the health answer, or the handler of chat completions.
pub data Route : Type 0 where
  health chat : Route

-- The routes that axum's router gets; it answers any other request by itself.
abbrev pub router : List (Bytes × Method × Route)
router = (ascii "/health", get, health) ∷ (ascii "/v1/chat/completions", post, chat) ∷ []
