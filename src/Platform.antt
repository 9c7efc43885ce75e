-- ===== src/Platform.antt =====
-- What the code takes from outside itself and that has no use to be spelled out: the float64
-- operations of the hardware and SHA-256. Also the decimal text of a number (strconv.Itoa), the
-- hexadecimal text of bytes (encoding/hex) and the identifier rules of internal/names/names.go.
use Prim.Native.Char.{Char, code}
use Prim.Native.String.{◌++◌ as append_str}
use packtrail.Prelude.{
  ℕ, zero, suc, ◌+◌, ◌/◌, ◌%◌, ◌≡◌, refl, String, Bool, ◌&&◌, ◌||◌, List, [], ◌∷◌, ltb, leb, ◌==◌,
  if◌then◌else◌, take,
}
use packtrail.Json.{Float64}

pub record Platform : Type 0 where
  pub fadd : Float64 → Float64 → Float64
  -- a > b
  pub fgt : Float64 → Float64 → Bool
  -- neither infinite nor not a number: what json.Marshal accepts
  pub finite : Float64 → Bool
  pub sha256 : String → List ℕ

infixr 66 ◌⧺◌
abbrev pub ◌⧺◌ : String → String → String
s ⧺ t = append_str s t

digit : ℕ → Char
digit zero = "0"
digit (suc zero) = "1"
digit (suc (suc zero)) = "2"
digit (suc (suc (suc zero))) = "3"
digit (suc (suc (suc (suc zero)))) = "4"
digit (suc (suc (suc (suc (suc zero))))) = "5"
digit (suc (suc (suc (suc (suc (suc zero)))))) = "6"
digit (suc (suc (suc (suc (suc (suc (suc zero))))))) = "7"
digit (suc (suc (suc (suc (suc (suc (suc (suc zero)))))))) = "8"
digit (suc (suc (suc (suc (suc (suc (suc (suc (suc zero))))))))) = "9"
digit (suc (suc (suc (suc (suc (suc (suc (suc (suc (suc zero)))))))))) = "a"
digit (suc (suc (suc (suc (suc (suc (suc (suc (suc (suc (suc zero))))))))))) = "b"
digit (suc (suc (suc (suc (suc (suc (suc (suc (suc (suc (suc (suc zero)))))))))))) = "c"
digit (suc (suc (suc (suc (suc (suc (suc (suc (suc (suc (suc (suc (suc zero))))))))))))) = "d"
digit (suc (suc (suc (suc (suc (suc (suc (suc (suc (suc (suc (suc (suc (suc zero)))))))))))))) = "e"
digit _ = "f"

-- A number has at most as many digits as its own size, so `suc n` rounds are enough.
itoa_loop : ℕ → ℕ → String → String
itoa_loop zero n text = text
itoa_loop (suc fuel) n text =
    let text' = String.◌∷◌ (digit (n % 10)) text in
    let rest = itoa_loop fuel (n / 10) text' in if ltb n 10 then text' else rest

-- strconv.Itoa, of a number that is not negative
unfoldable pub itoa : ℕ → String
unfolding digit itoa_loop
itoa n = itoa_loop (suc n) n ""

-- hex.EncodeToString
unfoldable pub hex : List ℕ → String
unfolding digit
hex [] = ""
hex (b ∷ bs) = String.◌∷◌ (digit (b / 16 % 16)) (String.◌∷◌ (digit (b % 16)) (hex bs))

token_char : Char → Bool
token_char c =
    (leb b'A' (code c) && leb (code c) b'Z')
    || (leb b'a' (code c) && leb (code c) b'z')
    || (leb b'0' (code c) && leb (code c) b'9')
    || code c == b'_'
    || code c == b'-'

token_chars : ℕ → String → Bool
token_chars n String.[] = leb 1 n && leb n 128
token_chars n (String.◌∷◌ c s) = token_char c && token_chars (n + 1) s

-- names.ValidToken: ^[A-Za-z0-9_-]{1,128}$
unfoldable pub valid_token : String → Bool
unfolding token_char token_chars
valid_token s = token_chars 0 s

-- fold.ChildID
unfoldable pub child_id : Platform → String → ℕ → String
unfolding itoa hex valid_token
child_id p parent n =
    let id = parent ⧺ "-c" ⧺ itoa n in
    if valid_token id then id else hex (take 12 (p.sha256 parent)) ⧺ "-c" ⧺ itoa n

itoa_test : itoa 1024 ⧺ hex (1 ∷ 255 ∷ []) ≡ "102401ff"
unfolding itoa hex
itoa_test = refl
