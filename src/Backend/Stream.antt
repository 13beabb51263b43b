-- ===== src/Backend/Stream.antt =====
-- What the token stream keeps of the server's bytes.
use spmp.Prelude.{
  ℕ, ◌≡◌, ◌∙◌, ap, refl, arith, true, false, Option, none, some, Bool-cases, sym, inl, inr, List,
  [], ◌∷◌, ◌++◌, map, Bytes, All, ◌≤◌,
}
use spmp.Prelude.Text.{ascii}
use spmp.Results.{ok}
use spmp.Utf8.{between, followers, utf8_from, is_utf8}
use spmp.Backend.{
  replacement, lossy_from, from_utf8_lossy, OllamaClient, Post, text_of_chunk,
  generate_token_stream,
}
use mathlib.Core.List.{append_assoc, append-nil}

-- Whole characters are kept as they are, and what follows them is decoded by itself.
lossy_from-append :
    (due : List (ℕ × ℕ)) (pending bytes more : Bytes)
    → utf8_from due bytes ≡ true
    → lossy_from due pending (bytes ++ more) ≡ pending ++ (bytes ++ from_utf8_lossy more)
unfolding lossy_from utf8_from
lossy_from-append [] pending [] [] h = sym (append-nil pending)
lossy_from-append [] pending [] (b ∷ bs) h = refl
lossy_from-append (r ∷ due) pending [] more h = absurd (cc)
lossy_from-append [] pending (b ∷ bs) more h =
    (elim (followers b)
        as (λ f.
          (elim f [ none ↦ false | some due ↦ utf8_from due bs ]) ≡ true
          → pending ++ (elim f [
            | none ↦ replacement ++ lossy_from [] [] (bs ++ more)
            | some due ↦ lossy_from due (b ∷ []) (bs ++ more)
          ])
            ≡ pending ++ (b ∷ (bs ++ from_utf8_lossy more))) [
              | none ↦ λ h. absurd (cc)
              | some due ↦ λ h. ap (λ l. pending ++ l) (lossy_from-append due (b ∷ []) bs more h)
            ])
      h
lossy_from-append (r ∷ due) pending (b ∷ bs) more h = elim (Bool-cases (between r b)) [
  | inl e ↦
      rw (lossy_from, e)
        (lossy_from-append due (pending ++ (b ∷ [])) bs more (rw (utf8_from, e) at h)
          ∙ append_assoc pending (b ∷ []) (bs ++ from_utf8_lossy more))
  | inr e ↦ absurd (ground arith)
]

-- A whole character sequence is kept as it is.
from_utf8_lossy-utf8 : (bytes : Bytes) → is_utf8 bytes ≡ true → from_utf8_lossy bytes ≡ bytes
unfolding is_utf8 lossy_from
from_utf8_lossy-utf8 bytes h =
    ap from_utf8_lossy (sym (append-nil bytes))
    ∙ lossy_from-append [] [] bytes [] h
    ∙ append-nil bytes

-- A chunk that failed, or that is UTF-8 by itself.
abbrev pub IsWhole : Option Bytes → Type 0
IsWhole none = Unit
IsWhole (some bytes) = is_utf8 bytes ≡ true

-- The bytes of the chunks that arrived.
abbrev pub arrived : Option Bytes → Bytes
arrived none = []
arrived (some bytes) = bytes

texts-whole :
    (chunks : List (Option Bytes))
    → All IsWhole chunks
    → map text_of_chunk chunks ≡ map arrived chunks
texts-whole [] h = refl
texts-whole (none ∷ chunks) h = ap (λ l. [] ∷ l) (texts-whole chunks h.1)
texts-whole (some bytes ∷ chunks) h =
    ap (λ l. text_of_chunk (some bytes) ∷ l) (texts-whole chunks h.1)
    ∙ ap (λ t. t ∷ map arrived chunks) (from_utf8_lossy-utf8 bytes h.0)

-- Where each chunk that arrives is UTF-8 by itself, the token stream has one token for each chunk, which
-- is the chunk, byte for byte, and the empty token for a chunk whose reading failed.
pub generate_token_stream-whole :
    (post : Post) (self : OllamaClient) (prompt : Bytes) (chunks : List (Option Bytes))
    → post
        (self.base_url ++ ascii "/api/generate")
        (record { model = self.model; prompt = prompt; stream = true })
      ≡ some chunks
    → All IsWhole chunks
    → generate_token_stream post self prompt ≡ ok (map arrived chunks)
unfolding generate_token_stream
generate_token_stream-whole post self prompt chunks answered whole =
    rw (answered, texts-whole chunks whole) refl

lead_alone : (lead : ℕ) → 0xC2 ≤ lead → lead ≤ 0xDF → from_utf8_lossy (lead ∷ []) ≡ replacement
unfolding lossy_from
lead_alone lead low high = ground arith

tail_first :
    (b : ℕ) (rest : Bytes)
    → 0x80 ≤ b
    → b ≤ 0xBF
    → from_utf8_lossy (b ∷ rest) ≡ replacement ++ from_utf8_lossy rest
unfolding lossy_from
tail_first b rest low high = ground arith

-- Where the server's bytes are cut into two chunks inside a character of two bytes, with whole
-- characters before and behind it, the token stream has a replacement character for each of its two
-- bytes, and not the character.
pub generate_token_stream-cut :
    (post : Post) (self : OllamaClient) (prompt before behind : Bytes) (lead b : ℕ)
    → post
        (self.base_url ++ ascii "/api/generate")
        (record { model = self.model; prompt = prompt; stream = true })
      ≡ some (some (before ++ (lead ∷ [])) ∷ some (b ∷ behind) ∷ [])
    → is_utf8 before ≡ true
    → is_utf8 behind ≡ true
    → 0xC2 ≤ lead
    → lead ≤ 0xDF
    → 0x80 ≤ b
    → b ≤ 0xBF
    → generate_token_stream post self prompt
      ≡ ok ((before ++ replacement) ∷ (replacement ++ behind) ∷ [])
unfolding generate_token_stream is_utf8
generate_token_stream-cut post self prompt before behind lead b answered whole whole' l₁ l₂ b₁ b₂ =
    rw
      (
        answered,
        lossy_from-append [] [] before (lead ∷ []) whole,
        lead_alone lead l₁ l₂,
        tail_first b behind b₁ b₂,
        from_utf8_lossy-utf8 behind whole',
      )
      refl
