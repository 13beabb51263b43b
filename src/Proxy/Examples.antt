-- ===== src/Proxy/Examples.antt =====
-- A request of two messages, answered with two tokens by an engine that then fails.
use spmp.Prelude.{◌≡◌, refl, arith, [], ◌∷◌, ◌++◌, Bytes}
use spmp.Prelude.Text.{ascii}
use spmp.Results.{err, io_failure}
use spmp.Proxy.{DeltaJson, Engine, ChatCompletionRequest, prompt_of, done_marker, chat_completions}
use spmp.Proxy.Stream.{IsOneLine, received, received-chat_completions}

abbrev request : ChatCompletionRequest
request = record {
  messages = (record { content = ascii "Say" }) ∷ (record { content = ascii "hello" }) ∷ [];
}

prompt_test : prompt_of request ≡ ascii "Say" ++ (10 ∷ ascii "hello")
prompt_test = refl

abbrev engine : Engine
engine = record {
  stream_inference = λ prompt. (ascii "Hello" ∷ ascii " world!" ∷ [], err io_failure);
}

abbrev json : DeltaJson
json token = ascii "{}"

json-IsOneLine : (token : Bytes) → IsOneLine (json token)
json-IsOneLine token = ground arith

received-chat_completions_example :
    received (chat_completions json engine request).body
    ≡ ascii "{}" ∷ ascii "{}" ∷ done_marker ∷ []
received-chat_completions_example = received-chat_completions json engine request json-IsOneLine
