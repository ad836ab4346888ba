-- ===== src/RootProtocol/Base64.antt =====
-- `base64` and `unbase64` of src/root_v1.rs, over bytes.
pub mod RoundTrip
use agent_bash_tool.Common.{
  ℕ, zero, suc, ◌+◌, ◌-◌, ◌*◌, ◌/◌, ◌%◌, ◌^◌, Bool, true, false, Option, none, some, List, [], ◌∷◌,
  ◌++◌, ◌==◌, ltb, leb, if◌then◌else◌, length, take,
}
use agent_bash_tool.Common.Bytes.{codes, text_eq}

abbrev pub alphabet : List ℕ
alphabet = codes "ABCDEFGHIJKLMNOPQRSTUVWXYZabcdefghijklmnopqrstuvwxyz0123456789+/"

-- '='
abbrev pub padding : ℕ
padding = 61

abbrev byte_at : List ℕ → ℕ → ℕ
byte_at [] n = 0
byte_at (b ∷ bs) zero = b
byte_at (b ∷ bs) (suc n) = byte_at bs n

abbrev find_from : ℕ → ℕ → List ℕ → Option ℕ
find_from i wanted [] = none
find_from i wanted (b ∷ bs) = if b == wanted then some i else find_from (suc i) wanted bs

unfoldable pub symbol : ℕ → ℕ
symbol n = byte_at alphabet n

-- `ALPHABET.iter().position(|&a| a == c)`
unfoldable pub position : ℕ → Option ℕ
position c = find_from 0 c alphabet

-- The bits of the bytes do not meet, so `|` is a sum.
abbrev triple_from : ℕ → List ℕ → ℕ
triple_from i [] = 0
triple_from i (b ∷ bs) = b * 2 ^ (16 - 8 * i) + triple_from (suc i) bs

abbrev letter : ℕ → ℕ → ℕ → ℕ
letter size triple i = if leb i size then symbol (triple / 2 ^ (18 - 6 * i) % 64) else padding

abbrev pub encode_chunk : List ℕ → List ℕ
encode_chunk chunk =
    let triple = triple_from 0 chunk in
    letter (length chunk) triple 0
    ∷ letter (length chunk) triple 1
    ∷ letter (length chunk) triple 2
    ∷ letter (length chunk) triple 3
    ∷ []

-- Over `bytes.chunks(3)`.
unfoldable pub base64 : List ℕ → List ℕ
base64 [] = []
base64 (a ∷ []) = encode_chunk (a ∷ [])
base64 (a ∷ b ∷ []) = encode_chunk (a ∷ b ∷ [])
base64 (a ∷ b ∷ c ∷ rest) = encode_chunk (a ∷ b ∷ c ∷ []) ++ base64 rest

-- `quad.iter().rev().take_while(|&&c| c == b'=').count()`, on the reversed quad
abbrev leading_padding : List ℕ → ℕ
leading_padding [] = 0
leading_padding (c ∷ cs) = if c == padding then suc (leading_padding cs) else 0

abbrev value_at : ℕ → ℕ → ℕ → Option ℕ
value_at pad i c = if leb (4 - pad) i then some 0 else position c

abbrev triple_to_bytes : ℕ → List ℕ
triple_to_bytes triple = triple / 65536 % 256 ∷ triple / 256 % 256 ∷ triple % 256 ∷ []

abbrev decode_values : ℕ → Option ℕ → Option ℕ → Option ℕ → Option ℕ → Option (List ℕ)
decode_values pad (some a) (some b) (some c) (some d) =
    some (take (3 - pad) (triple_to_bytes (a * 262144 + b * 4096 + c * 64 + d)))
decode_values pad (some a) (some b) (some c) none = none
decode_values pad (some a) (some b) none d = none
decode_values pad (some a) none c d = none
decode_values pad none b c d = none

abbrev pub decode_quad : ℕ → ℕ → ℕ → ℕ → Option (List ℕ)
decode_quad a b c d =
    let pad = leading_padding (d ∷ c ∷ b ∷ a ∷ []) in
    if ltb 2 pad
    then none
    else decode_values pad (value_at pad 0 a) (value_at pad 1 b) (value_at pad 2 c)
        (value_at pad 3 d)

abbrev pub joined : Option (List ℕ) → Option (List ℕ) → Option (List ℕ)
joined (some xs) (some ys) = some (xs ++ ys)
joined (some xs) none = none
joined none ys = none

-- Over `text.as_bytes().chunks(4)`, when the length is a multiple of 4.
unfoldable pub decode_quads : List ℕ → Option (List ℕ)
decode_quads (a ∷ b ∷ c ∷ d ∷ rest) = joined (decode_quad a b c d) (decode_quads rest)
decode_quads [] = some []
decode_quads (a ∷ []) = none
decode_quads (a ∷ b ∷ []) = none
decode_quads (a ∷ b ∷ c ∷ []) = none

unfoldable pub if_canonical : List ℕ → Option (List ℕ) → Option (List ℕ)
unfolding base64
if_canonical text none = none
if_canonical text (some out) = if text_eq (base64 out) text then some out else none

unfoldable pub unbase64 : List ℕ → Option (List ℕ)
unfolding decode_quads base64 if_canonical
unbase64 text = if length text % 4 == 0 then if_canonical text (decode_quads text) else none
