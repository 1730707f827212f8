-- ===== src/Local/Password.antt =====
-- backend/internal/auth/local/password.go: PBKDF2 over the HMAC of the environment, and the text that
-- a hash is stored as.
pub mod RoundTrip
use Prim.Native.Char.{Char, code}
use Prim.Native.Nat.{bit_xor}
use Prim.Native.String.{String, ◌++◌ as push_str}
use online_colab_document.Base.{
  ℕ, zero, suc, ◌+◌, ◌-◌, ◌*◌, ◌/◌, ◌%◌, ◌^◌, ℤ, pos, negsuc, List, [], ◌∷◌, ◌++◌, Option, none,
  some, Bool, true, false, not, ◌&&◌, ◌||◌, nat_eq, ltb, leb, ◌==◌, if◌then◌else◌, length, take,
  le_zero, pos_part, is_nil,
}
use online_colab_document.World.{panic, Result, ok, err, Env, M, pure, throw, ◌>>=◌, ◌>>◌}
use online_colab_document.Uuid.{rand_read}
use online_colab_document.Encoding.Bytes.{utf8, same_bytes}
use online_colab_document.Encoding.Base64.{std_alphabet, encode, decode}
use online_colab_document.Encoding.Split.{split, join}

abbrev pub password_hash_algorithm : String
password_hash_algorithm = "pbkdf2-sha256"

abbrev pub password_iterations : ℕ
password_iterations = 210000

abbrev pub password_salt_bytes : ℕ
password_salt_bytes = 16

abbrev pub password_key_bytes : ℕ
password_key_bytes = 32

-- `out[j] ^= u[j]` for each byte of `out`; a shorter `u` would be an index out of range, and is taken
-- as zeros, since every `u` is a digest of the length of `out`.
unfoldable pub xor_bytes : List ℕ → List ℕ → List ℕ
xor_bytes [] us = []
xor_bytes (o ∷ os) [] = o ∷ xor_bytes os []
xor_bytes (o ∷ os) (u ∷ us) = (bit_xor o u % 2 ^ 8) ∷ xor_bytes os us

module _ (hmac : List ℕ → List ℕ) where
  -- The rounds that are left, with the last digest and the sum so far.
  unfoldable pub pbkdf2_rounds : ℕ → List ℕ → List ℕ → List ℕ
  unfolding xor_bytes
  pbkdf2_rounds zero u out = out
  pbkdf2_rounds (suc n) u out = pbkdf2_rounds n (hmac u) (xor_bytes out (hmac u))

  -- `byte(block >> 24)` and so on.
  abbrev block_bytes : ℕ → List ℕ
  block_bytes block =
      (block / 2 ^ 24 % 2 ^ 8)
      ∷ (block / 2 ^ 16 % 2 ^ 8)
      ∷ (block / 2 ^ 8 % 2 ^ 8)
      ∷ (block % 2 ^ 8)
      ∷ []

  unfoldable pub pbkdf2_block : List ℕ → ℕ → ℕ → List ℕ
  unfolding pbkdf2_rounds
  pbkdf2_block salt iterations block =
      let u = hmac (salt ++ block_bytes block) in pbkdf2_rounds (iterations - 1) u u

  -- The blocks from `block` on.
  unfoldable pub pbkdf2_blocks : List ℕ → ℕ → ℕ → ℕ → List ℕ
  unfolding pbkdf2_block
  pbkdf2_blocks salt iterations block zero = []
  pbkdf2_blocks salt iterations block (suc n) =
      pbkdf2_block salt iterations block ++ pbkdf2_blocks salt iterations (suc block) n

  unfoldable pub pbkdf2_sha256 : List ℕ → ℕ → ℕ → Result (List ℕ)
  unfolding pbkdf2_blocks
  pbkdf2_sha256 salt iterations key_len =
      if nat_eq iterations 0 || nat_eq key_len 0
      then err panic
      else ok (take key_len (pbkdf2_blocks salt iterations 1 ((key_len + 31) / 32)))

unfoldable pub first_bytes : (ℕ → ℕ) → ℕ → ℕ → List ℕ
first_bytes b from zero = []
first_bytes b from (suc n) = b from ∷ first_bytes b (suc from) n

abbrev pub mac_of : Env → String → String → List ℕ → List ℕ
mac_of env password pepper = env.hmac_sha256 (utf8 (push_str password pepper))

-- `strconv.Itoa(passwordIterations)`.
abbrev iterations_text : String
iterations_text = "210000"

abbrev pub hash_text : List ℕ → List ℕ → String
hash_text salt key = join "$" (
    password_hash_algorithm
    ∷ iterations_text
    ∷ encode std_alphabet salt
    ∷ encode std_alphabet key
    ∷ [])

abbrev lift_key : List ℕ → Result (List ℕ) → M String
lift_key salt (ok key) = pure (hash_text salt key)
lift_key salt (err e) = throw e

unfoldable pub hash_password : String → String → M String
hash_password password pepper = do
  b ← rand_read
  let salt = first_bytes b 0 password_salt_bytes
  λ w.
      lift_key salt
        (pbkdf2_sha256 (mac_of w.env password pepper) salt password_iterations password_key_bytes) w

-- The digits of `strconv.Atoi`, after those that have been read.
abbrev digit_of : Char → Option ℕ
digit_of c = if leb b'0' (code c) && leb (code c) b'9' then some (code c - b'0') else none

abbrev next_digit : Option ℕ → ℕ → Option ℕ
next_digit none n = none
next_digit (some d) n = some (n * 10 + d)

digits : Option ℕ → String → Option ℕ
digits none s = none
digits (some n) String.[] = some n
digits (some n) (String.◌∷◌ c s) = digits (next_digit (digit_of c) n) s

unsigned : String → Option ℕ
unsigned String.[] = none
unsigned (String.◌∷◌ c s) = digits (digit_of c) s

abbrev negated : ℕ → ℤ
negated zero = pos zero
negated (suc n) = negsuc n

abbrev in_range : Bool → Option ℕ → Option ℤ
in_range negative none = none
in_range false (some n) = if ltb n (2 ^ 63) then some (pos n) else none
in_range true (some n) = if leb n (2 ^ 63) then some (negated n) else none

-- `strconv.Atoi` for an `int` of 64 bits.
unfoldable pub atoi : String → Option ℤ
unfolding unsigned digits
atoi String.[] = none
atoi (String.◌∷◌ c s) =
    if nat_eq (code c) b'-'
    then in_range true (unsigned s)
    else if nat_eq (code c) b'+'
    then in_range false (unsigned s)
    else in_range false (digits (digit_of c) s)

abbrev compared : List ℕ → Result (List ℕ) → Result Bool
compared expected (ok actual) = ok (same_bytes actual expected)
compared expected (err e) = err e

abbrev check_key : (List ℕ → List ℕ) → ℕ → Option (List ℕ) → Option (List ℕ) → Result Bool
check_key hmac iterations none expected = ok false
check_key hmac iterations (some salt) none = ok false
check_key hmac iterations (some salt) (some expected) =
    compared expected (pbkdf2_sha256 hmac salt iterations (length expected))

abbrev check_iterations : (List ℕ → List ℕ) → Option ℤ → String → String → Result Bool
check_iterations hmac none salt key = ok false
check_iterations hmac (some n) salt key =
    if le_zero n
    then ok false
    else check_key hmac (pos_part n) (decode std_alphabet salt) (decode std_alphabet key)

abbrev check_parts : (List ℕ → List ℕ) → List String → Result Bool
check_parts hmac (algorithm ∷ iterations ∷ salt ∷ key ∷ []) =
    if algorithm == password_hash_algorithm
    then check_iterations hmac (atoi iterations) salt key
    else ok false
check_parts hmac parts = ok false

-- An empty key part reaches the panic of `pbkdf2SHA256`.
unfoldable pub verify_password : String → String → String → Env → Result Bool
verify_password password pepper encoded env =
    check_parts (mac_of env password pepper) (split b'$' encoded)
