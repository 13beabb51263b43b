-- ===== src/Backend.antt =====
-- provider-daemon/src/worker.rs: the client of the LLM server. A string is its bytes.
pub mod Stream
mod Examples
use spmp.Prelude.{ℕ, Bool, true, false, Option, none, some, List, [], ◌∷◌, ◌++◌, map, Bytes}
use spmp.Prelude.Text.{ascii}
use spmp.Results.{Result, ok, ok_or, ◌>>=◌, request_failed}
use spmp.Utf8.{between, followers}

-- U+FFFD
abbrev pub replacement : Bytes
replacement = 0xEF ∷ 0xBF ∷ 0xBD ∷ []

-- `String::from_utf8_lossy` behind some bytes of a character, `pending`, that needs those in the ranges
-- `due`: what cannot be continued to a character is replaced.
unfoldable pub lossy_from : List (ℕ × ℕ) → Bytes → Bytes → Bytes
lossy_from [] pending [] = pending
lossy_from (r ∷ due) pending [] = replacement
lossy_from [] pending (b ∷ bs) = pending ++ (elim (followers b) [
  | none ↦ replacement ++ lossy_from [] [] bs
  | some due ↦ lossy_from due (b ∷ []) bs
])
lossy_from (r ∷ due) pending (b ∷ bs) = elim (between r b) [
  | true ↦ lossy_from due (pending ++ (b ∷ [])) bs
  | false ↦ replacement ++ (elim (followers b) [
    | none ↦ replacement ++ lossy_from [] [] bs
    | some due' ↦ lossy_from due' (b ∷ []) bs
  ])
]

abbrev pub from_utf8_lossy : Bytes → Bytes
from_utf8_lossy = lossy_from [] []

pub record OllamaClient : Type 0 where
  pub base_url : Bytes
  pub model : Bytes

pub new : Bytes → Bytes → OllamaClient
new base_url model = record { base_url = base_url; model = model }

pub record Payload : Type 0 where
  pub model : Bytes
  pub prompt : Bytes
  pub stream : Bool

-- reqwest: a request to a URL with a JSON body, and the chunks of the response's body; `none` where
-- the request, or the reading of a chunk, fails.
abbrev pub Post : Type 0
Post = Bytes → Payload → Option (List (Option Bytes))

-- What a chunk becomes.
abbrev pub text_of_chunk : Option Bytes → Bytes
text_of_chunk (some bytes) = from_utf8_lossy bytes
text_of_chunk none = []

unfoldable pub generate_token_stream : Post → OllamaClient → Bytes → Result (List Bytes)
generate_token_stream post self prompt = do
  let url = self.base_url ++ ascii "/api/generate"
  let payload : Payload = record { model = self.model; prompt = prompt; stream = true }
  chunks ← ok_or (post url payload) request_failed
  ok (map text_of_chunk chunks)
