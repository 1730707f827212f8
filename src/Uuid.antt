-- ===== src/Uuid.antt =====
-- `newUUID`, which six packages repeat (the map names backend/internal/document/service.go), and
-- the random tokens of the share links and the sessions.
use Prim.Native.Char.{Char}
use Prim.Native.String.{[], ◌∷◌, ◌++◌, char_at}
use Prim.Native.Nat.{bit_and, bit_or}
use online_colab_document.Base.{
  ℕ, zero, suc, ◌+◌, ◌*◌, ◌/◌, ◌%◌, String, nat_eq, if◌then◌else◌, ◌≡◌, arith,
}
use online_colab_document.World.{World, ok, M, pure, ◌>>=◌, ◌>>◌, call}

-- The bytes that `rand.Read` gives at the next outside call.
abbrev pub rand_read : M (ℕ → ℕ)
rand_read w = (call >> λ w'. (ok (λ i. w.env.byte w.calls i % 256), w')) w

-- `b[6] = (b[6] & 0x0f) | 0x40` and `b[8] = (b[8] & 0x3f) | 0x80`.
unfoldable pub stamp : (ℕ → ℕ) → ℕ → ℕ
stamp b i =
    if nat_eq i 6
    then bit_or (bit_and (b 6) 0x0f) 0x40
    else if nat_eq i 8
    then bit_or (bit_and (b 8) 0x3f) 0x80
    else b i

abbrev hex_digit : ℕ → Char
hex_digit n = char_at "0123456789abcdef" n

-- `%x` of the `n` bytes from `from`, in front of a rest.
hex : (ℕ → ℕ) → ℕ → ℕ → String → String
hex b from zero rest = rest
hex b from (suc n) rest =
    hex_digit (b from / 16) ∷ hex_digit (b from % 16) ∷ hex b (suc from) n rest

unfoldable pub uuid_text : (ℕ → ℕ) → String
unfolding hex
uuid_text b =
    hex b 0 4 ("-" ++ hex b 4 2 ("-" ++ hex b 6 2 ("-" ++ hex b 8 2 ("-" ++ hex b 10 6 ""))))

unfoldable pub new_uuid : M String
new_uuid = do b ← rand_read; pure (uuid_text (stamp b))

abbrev base64_digit : ℕ → Char
base64_digit n = char_at "ABCDEFGHIJKLMNOPQRSTUVWXYZabcdefghijklmnopqrstuvwxyz0123456789-_" n

-- `base64.RawURLEncoding` of 32 bytes: ten groups of three bytes, and one of two.
base64_groups : (ℕ → ℕ) → ℕ → ℕ → String
base64_groups b from zero =
    base64_digit (b from / 4)
    ∷ base64_digit (b from % 4 * 16 + b (from + 1) / 16)
    ∷ base64_digit (b (from + 1) % 16 * 4)
    ∷ []
base64_groups b from (suc n) =
    base64_digit (b from / 4)
    ∷ base64_digit (b from % 4 * 16 + b (from + 1) / 16)
    ∷ base64_digit (b (from + 1) % 16 * 4 + b (from + 2) / 64)
    ∷ base64_digit (b (from + 2) % 64)
    ∷ base64_groups b (from + 3) n

unfoldable pub token_text : (ℕ → ℕ) → String
unfolding base64_groups
token_text b = base64_groups b 0 10

unfoldable pub new_token : M String
new_token = do b ← rand_read; pure (token_text b)

pub new_uuid-ReadsOnly : (w : World) → (new_uuid w).1 ≡ record w { calls = (new_uuid w).1.calls }
unfolding new_uuid
new_uuid-ReadsOnly w = ground arith

pub new_token-ReadsOnly : (w : World) → (new_token w).1 ≡ record w { calls = (new_token w).1.calls }
unfolding new_token
new_token-ReadsOnly w = ground arith
