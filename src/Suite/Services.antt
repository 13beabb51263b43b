-- ===== src/Suite/Services.antt =====
-- The tests in client-daemon/src/proxy.rs, provider-daemon/src/worker.rs and
-- provider-daemon/src/settlement.rs: the proxy's events in front of an engine of two tokens, the stream
-- of a mock backend, and a new settlement worker.
use spmp.Prelude.{Option, none}
use spmp.Prelude.{
  ◌≡◌, refl, ◌&&◌, ◌||◌, ◌==◌, Bool, true, false, some, List, [], ◌∷◌, ◌++◌, Bytes, bytes_eq,
}
use spmp.Prelude.Text.{ascii, be_bytes}
use spmp.Results.{Result, ok, ◌>>=◌, ◌>>◌}
use spmp.Types.{Address}
use spmp.Signer.{Wallet, strip_0x}
use spmp.Proxy.{DeltaJson, Engine, ChatCompletionRequest, chat_completions, body_stream, event}
use spmp.Settlement.{new}
use spmp.Suite.{assert}
use spmp.Suite.Signing.{expect, test_contract}

-- `body.contains(text)` and `body.ends_with(text)`
abbrev starts_with : Bytes → Bytes → Bool
starts_with [] body = true
starts_with (x ∷ xs) [] = false
starts_with (x ∷ xs) (b ∷ bs) = (x == b) && starts_with xs bs

abbrev contains : Bytes → Bytes → Bool
contains text [] = starts_with text []
contains text (b ∷ bs) = starts_with text (b ∷ bs) || contains text bs

abbrev ends_with : Bytes → Bytes → Bool
ends_with text [] = bytes_eq text []
ends_with text (b ∷ bs) = bytes_eq text (b ∷ bs) || ends_with text bs

-- What `axum::body::to_bytes` collects.
abbrev collected : List Bytes → Bytes
collected [] = []
collected (b ∷ bs) = b ++ collected bs

abbrev mock_engine : Engine
mock_engine = record { stream_inference = λ prompt. (ascii "Hello" ∷ ascii " world!" ∷ [], ok tt) }

abbrev say_hello : ChatCompletionRequest
say_hello = record { messages = (record { content = ascii "Say hello" }) ∷ [] }

abbrev hello_json : Bytes
hello_json = ascii "{\"choices\":[{\"delta\":{\"content\":\"Hello\"}}]}"

abbrev world_json : Bytes
world_json = ascii "{\"choices\":[{\"delta\":{\"content\":\" world!\"}}]}"

unfoldable streams_openai_sse_chunks_and_done_marker : DeltaJson → Result (Unit {0})
streams_openai_sse_chunks_and_done_marker json = do
  let response = chat_completions json mock_engine say_hello
  let body = collected response.body
  assert (contains (ascii "data: " ++ hello_json) body)
  assert (contains (ascii "data: " ++ world_json) body)
  assert (ends_with (ascii "data: [DONE]" ++ (10 ∷ 10 ∷ [])) body)

-- Where serde_json prints the two tokens as it documents.
streams_openai_sse_chunks_and_done_marker-passes :
    (json : DeltaJson)
    → json (ascii "Hello") ≡ hello_json
    → json (ascii " world!") ≡ world_json
    → streams_openai_sse_chunks_and_done_marker json ≡ ok tt
unfolding streams_openai_sse_chunks_and_done_marker chat_completions body_stream event
streams_openai_sse_chunks_and_done_marker-passes json hello world = rw (hello, world) refl

-- A backend: the tokens of its stream, in their order, for a prompt.
abbrev LlmBackend : Type 0
LlmBackend = Bytes → Result (List Bytes)

abbrev mock_backend : LlmBackend
mock_backend prompt = ok (ascii "Hello" ∷ ascii " world" ∷ [])

-- `stream.next().await`
abbrev next_token : List Bytes → Option Bytes × List Bytes
next_token [] = (none, [])
next_token (token ∷ tokens) = (some token, tokens)

-- `assert_eq!` on an optional string
abbrev token_eq : Option Bytes → Option Bytes → Bool
token_eq none none = true
token_eq (some a) (some b) = bytes_eq a b
token_eq _ _ = false

unfoldable test_mock_backend_stream : Result (Unit {0})
test_mock_backend_stream = do
  stream ← expect (mock_backend (ascii "test"))
  let (first, stream₁) = next_token stream
  assert (token_eq first (some (ascii "Hello")))
  let (second, stream₂) = next_token stream₁
  assert (token_eq second (some (ascii " world")))
  let (last, _) = next_token stream₂
  assert (token_eq last none)

test_mock_backend_stream-passes : test_mock_backend_stream ≡ ok tt
unfolding test_mock_backend_stream
test_mock_backend_stream-passes = refl

abbrev test_provider_key : Bytes
test_provider_key = ascii "0x59c6995e998f97a5a0044966f0945389dc9e86dae88c7a8412f4603b6b78690d"

abbrev test_rpc : Bytes
test_rpc = ascii "http://127.0.0.1:8545"

abbrev anvil_1 : Address
anvil_1 = be_bytes 20 0x70997970C51812dc3A010C7d01b50e0d17dc79C8

unfoldable test_settlement_worker_initialization : {Key : Type 0} → Wallet Key → Result (Unit {0})
test_settlement_worker_initialization keys = do
  worker ← expect (new keys test_rpc test_contract test_provider_key)
  assert (bytes_eq worker.provider_address anvil_1)

-- Where the local signer parses the key and gives its address.
test_settlement_worker_initialization-passes :
    {Key : Type 0} (keys : Wallet Key) (key : Key)
    → keys.parse (strip_0x test_provider_key) ≡ some key
    → keys.address key ≡ anvil_1
    → test_settlement_worker_initialization keys ≡ ok tt
unfolding test_settlement_worker_initialization new
test_settlement_worker_initialization-passes keys key parsed address = rw (parsed, address) refl
