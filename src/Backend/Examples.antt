-- ===== src/Backend/Examples.antt =====
-- A server that sends two chunks.
use spmp.Prelude.{◌≡◌, refl, arith, none, some, [], ◌∷◌, ◌++◌}
use spmp.Prelude.Text.{ascii}
use spmp.Results.{ok}
use spmp.Utf8.{is_utf8, utf8_from}
use spmp.Backend.{replacement, OllamaClient, Post, generate_token_stream}
use spmp.Backend.Stream.{generate_token_stream-cut, generate_token_stream-whole}

abbrev client : OllamaClient
client = record { base_url = ascii "http://localhost:11434"; model = ascii "llama3" }

-- The two bytes of U+00E9 in two chunks.
abbrev cafe : Post
cafe url payload = some (some (ascii "caf" ++ (0xC3 ∷ [])) ∷ some (0xA9 ∷ ascii "!") ∷ [])

generate_token_stream-cut_example :
    generate_token_stream cafe client (ascii "hi")
    ≡ ok ((ascii "caf" ++ replacement) ∷ (replacement ++ ascii "!") ∷ [])
unfolding is_utf8 utf8_from
generate_token_stream-cut_example =
    generate_token_stream-cut cafe client (ascii "hi") (ascii "caf") (ascii "!") 0xC3 0xA9 refl refl
      refl (omega arith) (omega arith) (omega arith) (omega arith)

-- Two chunks that hold whole characters, with a chunk between them that cannot be read.
abbrev whole : Post
whole url payload = some (some (ascii "caf" ++ (0xC3 ∷ 0xA9 ∷ [])) ∷ none ∷ some (ascii "!") ∷ [])

generate_token_stream-whole_example :
    generate_token_stream whole client (ascii "hi")
    ≡ ok ((ascii "caf" ++ (0xC3 ∷ 0xA9 ∷ [])) ∷ [] ∷ ascii "!" ∷ [])
unfolding is_utf8 utf8_from
generate_token_stream-whole_example =
    generate_token_stream-whole whole client (ascii "hi")
      (some (ascii "caf" ++ (0xC3 ∷ 0xA9 ∷ [])) ∷ none ∷ some (ascii "!") ∷ []) refl
      (refl, (tt, (refl, tt)))
