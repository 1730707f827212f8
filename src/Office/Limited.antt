-- ===== src/Office/Limited.antt =====
-- The limited reader of backend/internal/office/service.go, and `io.ReadAll` over it. How many bytes
-- a call of the reader below has ready, how much room the buffer has at it, and whether the reader
-- says that it is at its end together with its last bytes, are arguments; the first two are one at
-- least, and a reader that has nothing left says that it is at its end.
use Prim.Native.String.len
use Prim.Native.String.{String, len}
use online_colab_document.Base.{
  ℕ, zero, suc, ◌-◌, ◌^◌, ◌≤◌, ◌<◌, ◌&&◌, ◌||◌, ℤ, pos, negsuc, le_zero, pos_part, int64_suc, minus,
  List, [], ◌∷◌, ◌++◌, Option, none, some, Bool, true, false, ltb, if◌then◌else◌, ◌≡◌, refl, sym,
  ◌∙◌, ap, arith, length, take, drop, take_short, length-drop, length-take-suc, Bool-cases, ◌⊎◌,
  inl, inr,
}
use online_colab_document.World.{World, ok, err, office_too_large}
use online_colab_document.Encoding.Bytes.{utf8, length-utf8}
use online_colab_document.Office.Service.{read_limited, read_content, exceeds}

pub record LimitedReader : Type 0 where
  -- The bytes that the reader below has left.
  pub reader : List ℕ
  pub remaining : ℤ

-- What a read gives: the bytes, and whether it says `io.EOF`.
pub record Chunk : Type 0 where
  pub bytes : List ℕ
  pub eof : Bool

abbrev is_empty : List ℕ → Bool
is_empty [] = true
is_empty (b ∷ bs) = false

abbrev least : ℕ → ℕ → ℕ
least a b = if ltb a b then a else b

-- The reader below, asked for at most `room` bytes.
abbrev below : ℕ → ℕ → LimitedReader → List ℕ
below ready room r = take (least room (suc ready)) r.reader

unfoldable pub read : ℕ → ℕ → Bool → LimitedReader → Chunk × LimitedReader
read ready room early r =
    if le_zero r.remaining
    then (record { bytes = []; eof = true }, r)
    else let bytes = below ready (least room (pos_part r.remaining)) r in
      let left = drop (length bytes) r.reader in
      (
        record { bytes = bytes; eof = is_empty r.reader || (early && is_empty left) },
        record { reader = left; remaining = minus r.remaining (length bytes) },
      )

abbrev behind : List ℕ → Option (List ℕ) → Option (List ℕ)
behind bytes none = none
behind bytes (some rest) = some (bytes ++ rest)

abbrev ended : Chunk → Option (List ℕ) → Option (List ℕ)
ended c rest = if c.eof then some c.bytes else behind c.bytes rest

module _ (ready room : ℕ → ℕ) (early : ℕ → Bool) where
  -- The loop of `io.ReadAll` from call `k` on, none if the fuel runs out.
  unfoldable pub read_all : ℕ → ℕ → LimitedReader → Option (List ℕ)
  unfolding read
  read_all zero k r = none
  read_all (suc fuel) k r =
      let step = read (ready k) (suc (room k)) (early k) r in
      let rest = read_all fuel (suc k) step.1 in ended step.0 rest

-- A part of a part, and what lies behind it.
take-drop :
    (n q : ℕ) (xs : List ℕ)
    → n ≤ q
    → n ≤ length xs
    → take n xs ++ take (q - n) (drop n xs) ≡ take q xs
take-drop zero q xs h k = let e : q - 0 ≡ q = omega arith in rw e refl
take-drop (suc n) zero xs h k = absurd (omega arith)
take-drop (suc n) (suc q) [] h k = absurd (omega arith)
take-drop (suc n) (suc q) (x ∷ xs) h k =
    let e : suc q - suc n ≡ q - n = omega arith in
    rw e (ap (λ ys. x ∷ ys) (take-drop n q xs (omega arith) (omega arith)))

length-take-least : (n : ℕ) (xs : List ℕ) → length (take n xs) ≡ least n (length xs)
length-take-least zero xs = ground arith
length-take-least (suc n) [] = ground arith
length-take-least (suc n) (x ∷ xs) = ground (arith, length-take-least n xs)

take-length : (n : ℕ) (xs : List ℕ) → take (length (take n xs)) xs ≡ take n xs
take-length zero xs = refl
take-length (suc n) [] = refl
take-length (suc n) (x ∷ xs) = ap (λ ys. x ∷ ys) (take-length n xs)

append_nil : (xs : List ℕ) → xs ++ [] ≡ xs
append_nil [] = refl
append_nil (x ∷ xs) = ap (λ ys. x ∷ ys) (append_nil xs)

append-empty : (g xs : List ℕ) (m : ℕ) → is_empty xs ≡ true → g ++ take m xs ≡ g
append-empty g (x ∷ xs) m h = absurd (ground arith)
append-empty g [] zero h = append_nil g
append-empty g [] (suc m) h = append_nil g

int64_suc_within : (n : ℕ) → ltb n (2 ^ 63 - 1) ≡ true → int64_suc (pos n) ≡ pos (suc n)
int64_suc_within n h = rw h refl

read_content_within :
    (n : ℕ) (body : String) → ltb n (2 ^ 63 - 1) ≡ true → read_content (pos n) body ≡ body
unfolding read_content
read_content_within n body h = ground arith

read_content_stopped :
    (limit : ℤ) (body : String) → le_zero (int64_suc limit) ≡ true → read_content limit body ≡ ""
unfolding read_content
read_content_stopped limit body h = rw h refl

read_limited_lem :
    (limit : ℤ) (body : String) (w : World)
    → w.env.fault w.calls ≡ false
    → (read_limited limit body w).0 ≡ (
        if exceeds limit (len (read_content limit body))
        then err office_too_large
        else ok (read_content limit body))
unfolding read_limited
read_limited_lem limit body w calm = ground arith

int64_suc_negative : (n : ℕ) → le_zero (int64_suc (negsuc n)) ≡ true
int64_suc_negative zero = refl
int64_suc_negative (suc n) = refl

minus_pos : (m n : ℕ) → n ≤ m → minus (pos m) n ≡ pos (m - n)
minus_pos m n h = ground arith

module _ (ready room : ℕ → ℕ) (early : ℕ → Bool) where
  read_all-stopped :
      (fuel k : ℕ) (remaining : ℤ) (bs : List ℕ)
      → le_zero remaining ≡ true
      → read_all ready room early (suc fuel) k (record { reader = bs; remaining = remaining })
        ≡ some []
  unfolding read_all read
  read_all-stopped fuel k remaining bs h = ground arith

  abbrev empty : List ℕ
  empty = []

  read_all-empty :
      (fuel k n : ℕ)
      → read_all ready room early (suc fuel) k (record { reader = []; remaining = pos (suc n) })
        ≡ some []
  unfolding read_all read
  read_all-empty fuel k n =
      ground (arith, take_short (least (least (suc (room k)) (suc n)) (suc (ready k))) empty)

  -- The bytes that the call gives.
  abbrev given : ℕ → ℕ → List ℕ → List ℕ
  given k n bs = take (least (least (suc (room k)) (suc n)) (suc (ready k))) bs

  -- The call says that the reader is at its end.
  abbrev ends : ℕ → List ℕ → Bool
  ends k left = early k && is_empty left

  read_all-step :
      (fuel k n b : ℕ) (bs : List ℕ)
      → read_all ready room early (suc fuel) k (record { reader = b ∷ bs; remaining = pos (suc n) })
        ≡ (if ends k (drop (length (given k n (b ∷ bs))) (b ∷ bs))
            then some (given k n (b ∷ bs))
            else behind (given k n (b ∷ bs)) (
                read_all ready room early fuel (suc k) (record {
                  reader = drop (length (given k n (b ∷ bs))) (b ∷ bs);
                  remaining = minus (pos (suc n)) (length (given k n (b ∷ bs)));
                })))
  unfolding read_all read
  read_all-step fuel k n b bs = ground arith

  given_some : (k n b : ℕ) (bs : List ℕ) → 1 ≤ length (given k n (b ∷ bs))
  given_some k n b bs = rw (length-take-least _ (b ∷ bs)) (ground arith)

  given_most :
      (k n : ℕ) (bs : List ℕ)
      → (length (given k n bs) ≤ suc n) × (length (given k n bs) ≤ length bs)
  given_most k n bs = rw (length-take-least _ bs) (ground arith, ground arith)

  -- What the call gives, and as much of what is left as is still to be read.
  given-rest :
      (k n : ℕ) (bs : List ℕ)
      → given k n bs ++ take (suc n - length (given k n bs)) (drop (length (given k n bs)) bs)
        ≡ take (suc n) bs
  given-rest k n bs =
      let m = least (least (suc (room k)) (suc n)) (suc (ready k)) in
      let l = length (given k n bs) in
      let (below_limit, there) = given_most k n bs in
      ap (λ g. g ++ take (suc n - l) (drop l bs)) (sym (take-length m bs))
      ∙ take-drop l (suc n) bs below_limit there

  -- Both ends of a step are the bytes up to the limit.
  joined :
      (k n : ℕ) (bs : List ℕ) (rest : Option (List ℕ))
      → rest ≡ some (take (suc n - length (given k n bs)) (drop (length (given k n bs)) bs))
      → (if ends k (drop (length (given k n bs)) bs)
          then some (given k n bs)
          else behind (given k n bs) rest)
        ≡ some (take (suc n) bs)
  joined k n bs rest h =
      let left = drop (length (given k n bs)) bs in
      elim (Bool-cases (ends k left)) [
        | inl e ↦
            let none_left : is_empty left ≡ true = ground arith in
            rw e (
              ap some (
                sym (append-empty (given k n bs) left (suc n - length (given k n bs)) none_left)
                ∙ given-rest k n bs))
        | inr e ↦ rw (e, h) (ap some (given-rest k n bs))
      ]

  loops :
      (fuel k n : ℕ) (bs : List ℕ)
      → least n (length bs) < fuel
      → read_all ready room early fuel k (record { reader = bs; remaining = pos n })
        ≡ some (take n bs)
  loops zero k n bs h = absurd (omega arith)
  loops (suc fuel) k zero bs h = read_all-stopped fuel k (pos 0) bs refl
  loops (suc fuel) k (suc n) [] h = read_all-empty fuel k n
  loops (suc fuel) k (suc n) (b ∷ bs) h =
      let l = length (given k n (b ∷ bs)) in
      let some_given = given_some k n b bs in
      let (below_limit, there) = given_most k n (b ∷ bs) in
      let left : least (suc n - l) (length (drop l (b ∷ bs))) < fuel =
        rw (length-drop l (b ∷ bs)) (ground arith) in
      rw (read_all-step fuel k n b bs, minus_pos (suc n) l below_limit)
        (joined k n (b ∷ bs) _ (loops fuel (suc k) (suc n - l) (drop l (b ∷ bs)) left))

  or_whole :
      (limit : ℕ) (bs : List ℕ)
      → (ltb limit (length (take (suc limit) bs)) ≡ true) ⊎ (take (suc limit) bs ≡ bs)
  or_whole limit bs = elim (Bool-cases (ltb limit (length bs))) [
    | inl more ↦ inl (length-take-suc limit bs ∙ more)
    | inr all ↦ inr (take_short (suc limit) bs (ground arith))
  ]

  -- What the loop over a reader with one byte more than the limit has read.
  abbrev pub Agrees : ℤ → String → World → List ℕ → Type 0
  Agrees limit body w content =
      (read_all ready room early (suc (suc (pos_part limit))) 0
          (record { reader = utf8 body; remaining = int64_suc limit })
        ≡ some content)
      × ((read_limited limit body w).0 ≡ (
          if exceeds limit (length content)
          then err office_too_large
          else ok (read_content limit body)))
      × ((exceeds limit (length content) ≡ true) ⊎ (content ≡ utf8 (read_content limit body)))

  -- The sum of the limit and one is an int64.
  int64_suc-Agrees :
      (n : ℕ) (body : String) (w : World)
      → w.env.fault w.calls ≡ false
      → ltb n (2 ^ 63 - 1) ≡ true
      → Agrees (pos n) body w (take (suc n) (utf8 body))
  int64_suc-Agrees n body w calm fits =
      let bytes = utf8 body in
      let more : ltb n (length (take (suc n) bytes)) ≡ ltb n (len body) =
        rw (length-take-suc n bytes, length-utf8 body) refl in
      let content = read_content_within n body fits in
      (
        rw (int64_suc_within n fits) (loops (suc (suc n)) 0 (suc n) bytes (ground arith)),
        rw (read_limited_lem (pos n) body w calm, content, more) refl,
        rw content (or_whole n bytes),
      )

  -- It wraps around, or is not positive.
  stopped-Agrees :
      (limit : ℤ) (body : String) (w : World)
      → w.env.fault w.calls ≡ false
      → le_zero (int64_suc limit) ≡ true
      → Agrees limit body w []
  unfolding utf8
  stopped-Agrees limit body w calm stopped =
      let content = read_content_stopped limit body stopped in
      (
        read_all-stopped (suc (pos_part limit)) 0 (int64_suc limit) (utf8 body) stopped,
        rw (read_limited_lem limit body w calm, content, len.nil) refl,
        rw content (inr refl),
      )

  -- Whatever the sizes of the reads, and whenever the reader says that it is at its end, the loop over
  -- a reader with a limit of one byte more than a save may have ends - an int64, which wraps around
  -- at the greatest limit -, and a save's bounded read, if it can be made, agrees with what the loop
  -- has read: the body is too large exactly if that exceeds the limit, and otherwise the save goes on
  -- with the bytes that were read.
  pub read_all-read_limited :
      (limit : ℤ) (body : String) (w : World)
      → w.env.fault w.calls ≡ false
      → (content : List ℕ) × Agrees limit body w content
  read_all-read_limited (negsuc n) body w calm =
      ([], stopped-Agrees (negsuc n) body w calm (int64_suc_negative n))
  read_all-read_limited (pos n) body w calm = elim (Bool-cases (ltb n (2 ^ 63 - 1))) [
    | inl e ↦ (take (suc n) (utf8 body), int64_suc-Agrees n body w calm e)
    | inr e ↦ ([], stopped-Agrees (pos n) body w calm (rw e refl))
  ]
