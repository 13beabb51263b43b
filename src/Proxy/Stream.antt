-- ===== src/Proxy/Stream.antt =====
-- What a client of the proxy reads from the response.
use spmp.Prelude.{
  arith, ◌≡◌, ◌≢◌, ◌∙◌, ap, refl, sym, List, [], ◌∷◌, ◌++◌, map, Bytes, All, ◌==◌, ==_false, true,
  false, bytes_eq, take, drop,
}
use spmp.Prelude.Text.{ascii}
use spmp.Proxy.{
  DeltaJson, Engine, ChatCompletionRequest, prompt_of, event, done_marker, body_stream,
  chat_completions,
}
use mathlib.Core.List.{append_assoc, append-nil}

-- The lines of a text, and after them what is behind its last line feed.
abbrev pub lines : Bytes → Bytes → List Bytes
lines line [] = line ∷ []
lines line (b ∷ bs) = elim (b == 10) [
  | true ↦ line ∷ lines [] bs
  | false ↦ lines (line ++ (b ∷ [])) bs
]

-- The payload of a line that starts with `data: `.
abbrev payload : Bytes → List Bytes
payload line = elim (bytes_eq (take 6 line) (ascii "data: ")) [
  | true ↦ drop 6 line ∷ []
  | false ↦ []
]

abbrev payloads : List Bytes → List Bytes
payloads [] = []
payloads (line ∷ rest) = payload line ++ payloads rest

abbrev concat : List Bytes → Bytes
concat [] = []
concat (b ∷ bs) = b ++ concat bs

-- The client's reading: the payloads of the lines of all that it receives.
abbrev pub received : List Bytes → List Bytes
received body = payloads (lines [] (concat body))

abbrev pub IsOneLine : Bytes → Type 0
IsOneLine = All (λ b. b ≢ 10)

lines-line :
    (line text rest : Bytes)
    → IsOneLine text
    → lines line (text ++ (10 ∷ rest)) ≡ (line ++ text) ∷ lines [] rest
lines-line line [] rest h = ap (λ l. l ∷ lines [] rest) (sym (append-nil line))
lines-line line (b ∷ text) rest h =
    rw (lines, ==_false b 10 h.0)
      (lines-line (line ++ (b ∷ [])) text rest h.1
        ∙ ap (λ l. l ∷ lines [] rest) (append_assoc line (b ∷ []) text))

IsOneLine-append : (xs ys : Bytes) → IsOneLine xs → IsOneLine ys → IsOneLine (xs ++ ys)
IsOneLine-append [] ys hx hy = hy
IsOneLine-append (x ∷ xs) ys hx hy = (hx.0, IsOneLine-append xs ys hx.1 hy)

-- An event is read as its payload.
received-event :
    (chunk rest : Bytes)
    → IsOneLine chunk
    → payloads (lines [] (event chunk ++ rest)) ≡ chunk ∷ payloads (lines [] rest)
unfolding event
received-event chunk rest one =
    let layout : event chunk ++ rest ≡ (ascii "data: " ++ chunk) ++ (10 ∷ 10 ∷ rest) =
      ap (λ t. ascii "data: " ++ t) (append_assoc chunk (10 ∷ 10 ∷ []) rest) in
    let one_line : IsOneLine (ascii "data: " ++ chunk) =
      IsOneLine-append (ascii "data: ") chunk (ground arith) one in
    rw (layout, lines-line [] (ascii "data: " ++ chunk) (10 ∷ rest) one_line) refl

-- The client reads the events of all tokens, and the marker after them.
received-body_stream :
    (json : DeltaJson) (tokens : List Bytes)
    → ((token : Bytes) → IsOneLine (json token))
    → received (body_stream json tokens) ≡ map json tokens ++ (done_marker ∷ [])
unfolding body_stream event
received-body_stream json [] one = refl
received-body_stream json (token ∷ tokens) one =
    received-event (json token) (concat (body_stream json tokens)) (one token)
    ∙ ap (λ l. json token ∷ l) (received-body_stream json tokens one)

-- Where serde_json prints no line feed, as documented, a client of the proxy that reads the payloads of
-- the response's `data: ` lines gets one JSON text for each token that the engine sent for the
-- request's prompt, in their order, and the end marker behind them, and it gets them also where the
-- engine's call failed.
pub received-chat_completions :
    (json : DeltaJson) (engine : Engine) (request : ChatCompletionRequest)
    → ((token : Bytes) → IsOneLine (json token))
    → let (tokens, outcome) = engine.stream_inference (prompt_of request) in
      received (chat_completions json engine request).body ≡ map json tokens ++ (done_marker ∷ [])
unfolding chat_completions
received-chat_completions json engine request one =
    received-body_stream json (engine.stream_inference (prompt_of request)).0 one
