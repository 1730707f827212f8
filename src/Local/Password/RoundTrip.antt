-- ===== src/Local/Password/RoundTrip.antt =====
-- A password verifies against the hash that was made of it.
use Prim.Native.String.{String}
use online_colab_document.Base.{
  ℕ, zero, suc, ◌+◌, ◌-◌, ◌*◌, ◌/◌, ◌%◌, ◌<◌, ◌≤◌, List, [], ◌∷◌, ◌++◌, some, true, false, ==_refl,
  ◌≡◌, refl, pos, arith, length, take,
}
use online_colab_document.World.{ok, World, called}
use online_colab_document.Encoding.Bytes.{AllBelow, lacks, same_bytes_refl}
use online_colab_document.Encoding.Base64.{std_alphabet, encode}
use online_colab_document.Encoding.Split.{split, join, split_four}
use online_colab_document.Encoding.RoundTrip.{decode-encode, lacks-encode, std_IsAlphabet}
use online_colab_document.Local.Password.{
  password_hash_algorithm, password_iterations, password_key_bytes, xor_bytes, pbkdf2_rounds,
  pbkdf2_block, pbkdf2_blocks, pbkdf2_sha256, first_bytes, mac_of, hash_text, hash_password,
  verify_password, atoi, check_parts,
}

-- What is relied on: a digest is 32 bytes.
pub record IsMac (mac : List ℕ → List ℕ) : Type 0 where
  pub sized : (m : List ℕ) → length (mac m) ≡ 32
  pub bytes : (m : List ℕ) → AllBelow 256 (mac m)

length-xor_bytes : (os us : List ℕ) → length (xor_bytes os us) ≡ length os
unfolding xor_bytes
length-xor_bytes [] us = refl
length-xor_bytes (o ∷ os) [] = omega (arith, length-xor_bytes os [])
length-xor_bytes (o ∷ os) (u ∷ us) = omega (arith, length-xor_bytes os us)

xor_bytes-AllBelow : (os us : List ℕ) → AllBelow 256 os → AllBelow 256 (xor_bytes os us)
unfolding xor_bytes
xor_bytes-AllBelow [] us h = tt
xor_bytes-AllBelow (o ∷ os) [] (h, hs) = (h, xor_bytes-AllBelow os [] hs)
xor_bytes-AllBelow (o ∷ os) (u ∷ us) (h, hs) = (omega arith, xor_bytes-AllBelow os us hs)

length-append : (xs ys : List ℕ) → length (xs ++ ys) ≡ length xs + length ys
length-append [] ys = omega arith
length-append (x ∷ xs) ys = omega (arith, length-append xs ys)

append-AllBelow : (xs ys : List ℕ) → AllBelow 256 xs → AllBelow 256 ys → AllBelow 256 (xs ++ ys)
append-AllBelow [] ys h k = k
append-AllBelow (x ∷ xs) ys (h, hs) k = (h, append-AllBelow xs ys hs k)

take-AllBelow : (n : ℕ) (xs : List ℕ) → AllBelow 256 xs → AllBelow 256 (take n xs)
take-AllBelow zero xs h = tt
take-AllBelow (suc n) [] h = tt
take-AllBelow (suc n) (x ∷ xs) (h, hs) = (h, take-AllBelow n xs hs)

length-take : (n : ℕ) (xs : List ℕ) → n ≤ length xs → length (take n xs) ≡ n
length-take zero xs h = refl
length-take (suc n) [] h = absurd (omega arith)
length-take (suc n) (x ∷ xs) h = omega (arith, length-take n xs (omega arith))

module _ (mac : List ℕ → List ℕ) (is : IsMac mac) where
  length-pbkdf2_rounds : (n : ℕ) (u out : List ℕ) → length (pbkdf2_rounds mac n u out) ≡ length out
  unfolding pbkdf2_rounds
  length-pbkdf2_rounds zero u out = refl
  length-pbkdf2_rounds (suc n) u out =
      omega (
        arith,
        length-pbkdf2_rounds n (mac u) (xor_bytes out (mac u)),
        length-xor_bytes out (mac u),
      )

  pbkdf2_rounds-AllBelow :
      (n : ℕ) (u out : List ℕ) → AllBelow 256 out → AllBelow 256 (pbkdf2_rounds mac n u out)
  unfolding pbkdf2_rounds
  pbkdf2_rounds-AllBelow zero u out h = h
  pbkdf2_rounds-AllBelow (suc n) u out h =
      pbkdf2_rounds-AllBelow n (mac u) (xor_bytes out (mac u)) (xor_bytes-AllBelow out (mac u) h)

  module _ (salt : List ℕ) (iterations : ℕ) where
    length-pbkdf2_block : (block : ℕ) → length (pbkdf2_block mac salt iterations block) ≡ 32
    unfolding pbkdf2_block
    length-pbkdf2_block block = omega (arith, length-pbkdf2_rounds (iterations - 1) _ _, is.sized _)

    length-pbkdf2_blocks :
        (block n : ℕ) → length (pbkdf2_blocks mac salt iterations block n) ≡ 32 * n
    unfolding pbkdf2_blocks
    length-pbkdf2_blocks block zero = omega arith
    length-pbkdf2_blocks block (suc n) = omega (
      arith,
      length-append (pbkdf2_block mac salt iterations block)
          (pbkdf2_blocks mac salt iterations (suc block) n),
      length-pbkdf2_block block,
      length-pbkdf2_blocks (suc block) n,
    )

    pbkdf2_blocks-AllBelow :
        (block n : ℕ) → AllBelow 256 (pbkdf2_blocks mac salt iterations block n)
    unfolding pbkdf2_blocks pbkdf2_block
    pbkdf2_blocks-AllBelow block zero = tt
    pbkdf2_blocks-AllBelow block (suc n) =
        append-AllBelow _ _ (pbkdf2_rounds-AllBelow (iterations - 1) _ _ (is.bytes _))
          (pbkdf2_blocks-AllBelow (suc block) n)

    -- With a positive number of rounds and of bytes, the key that is derived has exactly the bytes
    -- asked for.
    pub pbkdf2_sha256-length :
        (key_len : ℕ)
        → 0 < iterations
        → 0 < key_len
        → (key : List ℕ) × (pbkdf2_sha256 mac salt iterations key_len ≡ ok key)
          × (length key ≡ key_len)
          × AllBelow 256 key
    unfolding pbkdf2_sha256
    pbkdf2_sha256-length key_len hi hk = (
      take key_len (pbkdf2_blocks mac salt iterations 1 ((key_len + 31) / 32)),
      ground arith,
      length-take key_len _ (omega (arith, length-pbkdf2_blocks 1 ((key_len + 31) / 32))),
      take-AllBelow key_len _ (pbkdf2_blocks-AllBelow 1 ((key_len + 31) / 32)),
    )

first_bytes-AllBelow :
    (b : ℕ → ℕ) (from n : ℕ) → ((i : ℕ) → b i < 256) → AllBelow 256 (first_bytes b from n)
unfolding first_bytes
first_bytes-AllBelow b from zero h = tt
first_bytes-AllBelow b from (suc n) h = (h from, first_bytes-AllBelow b (suc from) n h)

split-hash_text :
    (salt key : List ℕ)
    → AllBelow 256 salt
    → AllBelow 256 key
    → split b'$' (hash_text salt key)
      ≡ password_hash_algorithm ∷ "210000" ∷ encode std_alphabet salt ∷ encode std_alphabet key ∷ []
unfolding join
split-hash_text salt key hs hk =
    split_four "$" password_hash_algorithm "210000" (encode std_alphabet salt)
      (encode std_alphabet key) (unfold lacks in refl) (unfold lacks in refl)
      (lacks-encode std_alphabet b'$' std_IsAlphabet salt hs)
      (lacks-encode std_alphabet b'$' std_IsAlphabet key hk)

atoi_iterations : atoi "210000" ≡ some (pos 210000)
unfolding atoi
atoi_iterations = refl

check-hash_text :
    (mac : List ℕ → List ℕ) (salt key : List ℕ)
    → AllBelow 256 salt
    → AllBelow 256 key
    → pbkdf2_sha256 mac salt password_iterations (length key) ≡ ok key
    → check_parts mac (split b'$' (hash_text salt key)) ≡ ok true
check-hash_text mac salt key hs hk e =
    rw
      (
        split-hash_text salt key hs hk,
        ==_refl password_hash_algorithm,
        atoi_iterations,
        decode-encode std_alphabet b'$' std_IsAlphabet salt hs,
        decode-encode std_alphabet b'$' std_IsAlphabet key hk,
        e,
        same_bytes_refl key,
      )
      refl

hash_password_lem :
    (password pepper : String) (w : World) (key : List ℕ)
    → w.env.fault w.calls ≡ false
    → let salt = first_bytes (λ i. w.env.byte w.calls i % 256) 0 16 in
      pbkdf2_sha256 (mac_of w.env password pepper) salt password_iterations password_key_bytes
        ≡ ok key
      → hash_password password pepper w ≡ (ok (hash_text salt key), called w)
unfolding hash_password
hash_password_lem password pepper w key calm e = rw (calm, e) refl

-- If the random bytes can be read and a digest is 32 bytes, a hash is made of every password, and the
-- password verifies against it: the check does not panic, and says yes.
pub hash_password-verify_password :
    (password pepper : String) (w : World)
    → w.env.fault w.calls ≡ false
    → IsMac (mac_of w.env password pepper)
    → (hash : String) × (hash_password password pepper w ≡ (ok hash, called w))
      × (verify_password password pepper hash w.env ≡ ok true)
unfolding verify_password
hash_password-verify_password password pepper w calm is =
    let mac = mac_of w.env password pepper in
    let salt = first_bytes (λ i. w.env.byte w.calls i % 256) 0 16 in
    let salted : AllBelow 256 salt = first_bytes-AllBelow _ 0 16 (λ i. omega arith) in
    let (key, e, sized, bytes) =
      pbkdf2_sha256-length mac is salt 210000 32 (omega arith) (omega arith) in
    let e' : pbkdf2_sha256 mac salt 210000 (length key) ≡ ok key = rw sized e in
    (
      hash_text salt key,
      hash_password_lem password pepper w key calm e,
      rw (check-hash_text mac salt key salted bytes e') refl,
    )
