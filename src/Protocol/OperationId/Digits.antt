-- ===== src/Protocol/OperationId/Digits.antt =====
-- The loops of `newOperationID`, against the numbers that their bytes and letters spell.
use native.Mathlib.Nat.{pow-zero, pow-succ', div-div-eq-div-mul}
use auto_mas_runtime.Base.{
  ℕ_discrete, ◌≤◌, ℕ, zero, suc, ◌+◌, ◌*◌, ◌/◌, ◌%◌, ◌^◌, ◌<◌, ◌≡◌, refl, Bool, true, ◌&&◌, [], ◌∷◌,
  Bytes, length, all, All, ◌==◌, if◌then◌else◌, arith, get_or, ap, ◌∙◌,
}
use auto_mas_runtime.Protocol.OperationId.{
  ulid_alphabet, is_ulid_character, letter, set_bytes, time_bytes, encode,
}

-- The value of a letter: its place in the alphabet.
place : ℕ → Bytes → ℕ
place c [] = 0
place c (x ∷ xs) = let rest = place c xs in if c == x then 0 else suc rest

pub digit : ℕ → ℕ
unfolding place
digit c = place c ulid_alphabet

-- The number that letters of base 32 spell after `acc`.
unfoldable pub decode : ℕ → Bytes → ℕ
decode acc [] = acc
decode acc (c ∷ cs) = decode (acc * 32 + digit c) cs

letter_ok : ℕ → Bool
letter_ok d = digit (letter d) == d && is_ulid_character (letter d)

-- The letters of the digits up to `n` have been looked at.
letters_ok : ℕ → Bool
letters_ok zero = letter_ok zero
letters_ok (suc n) = letters_ok n && letter_ok (suc n)

alphabet_ok : letters_ok 31 ≡ true
unfolding letters_ok letter_ok digit letter is_ulid_character
alphabet_ok = refl

letter_of_table : (n d : ℕ) → letters_ok n ≡ true → d ≤ n → letter_ok d ≡ true
unfolding letters_ok
letter_of_table zero zero h le = h
letter_of_table zero (suc d) h le = absurd (omega arith)
letter_of_table (suc n) d h le = elim (ℕ_discrete d (suc n)) [
  | yes e ↦ rw e (ground arith)
  | no ne ↦ letter_of_table n d (ground arith) (omega arith)
]

pub digit-letter : (d : ℕ) → d < 32 → digit (letter d) ≡ d
unfolding letter_ok
digit-letter d h = ground (arith, letter_of_table 31 d alphabet_ok)

pub is_ulid_character-letter : (d : ℕ) → d < 32 → is_ulid_character (letter d) ≡ true
unfolding letter_ok
is_ulid_character-letter d h = ground (arith, letter_of_table 31 d alphabet_ok)

pub length-encode : (i v : ℕ) (rest : Bytes) → length (encode i v rest) ≡ i + length rest
unfolding encode
length-encode zero v rest = omega arith
length-encode (suc i) v rest = omega (arith, length-encode i (v / 32) (letter (v % 32) ∷ rest))

pub all-encode :
    (i v : ℕ) (rest : Bytes)
    → all is_ulid_character rest ≡ true
    → all is_ulid_character (encode i v rest) ≡ true
unfolding encode
all-encode zero v rest h = h
all-encode (suc i) v rest h =
    all-encode i (v / 32) (letter (v % 32) ∷ rest)
      (ground (arith, is_ulid_character-letter (v % 32) (omega arith)))

mod_split_32 : (v p : ℕ) → 0 < p → v % (32 * p) ≡ (v / 32) % p * 32 + v % 32
mod_split_32 v p h = grind arith

mod_split_256 : (v p : ℕ) → 0 < p → v % (256 * p) ≡ (v / 256) % p * 256 + v % 256
mod_split_256 v p h = grind arith

pow_pos : (b i : ℕ) → 0 < b → 0 < b ^ i
pow_pos b zero h = rw pow-zero (omega arith)
pow_pos b (suc i) h = rw pow-succ' (grind (arith, pow_pos b i h))

-- One more digit in front: the step of both loops, for places of value `p`.
letter_step :
    (acc v p : ℕ) → 0 < p → (acc * p + (v / 32) % p) * 32 + v % 32 ≡ acc * (32 * p) + v % (32 * p)
letter_step acc v p h = omega (arith, mod_split_32 v p h)

byte_step :
    (acc v p : ℕ)
    → 0 < p
    → (acc * p + (v / 256) % p) * 256 + v % 256 ≡ acc * (256 * p) + v % (256 * p)
byte_step acc v p h = omega (arith, mod_split_256 v p h)

pub decode-encode :
    (i acc v : ℕ) (rest : Bytes)
    → decode acc (encode i v rest) ≡ decode (acc * 32 ^ i + v % 32 ^ i) rest
unfolding encode decode
decode-encode zero acc v rest = ap (λ n. decode n rest) (omega arith)
decode-encode (suc i) acc v rest =
    decode-encode i acc (v / 32) (letter (v % 32) ∷ rest)
    ∙ ap (λ n. decode n rest)
        (rw (digit-letter (v % 32) (omega arith), pow-succ')
          (letter_step acc v (32 ^ i) (pow_pos 32 i (omega arith))))

pub set_bytes-time_bytes :
    (i acc v : ℕ) (rest : Bytes)
    → set_bytes acc (time_bytes i v rest) ≡ set_bytes (acc * 256 ^ i + v % 256 ^ i) rest
unfolding set_bytes time_bytes
set_bytes-time_bytes zero acc v rest = ap (λ n. set_bytes n rest) (omega arith)
set_bytes-time_bytes (suc i) acc v rest =
    set_bytes-time_bytes i acc (v / 256) (v % 256 ∷ rest)
    ∙ ap (λ n. set_bytes n rest)
        (rw pow-succ' (byte_step acc v (256 ^ i) (pow_pos 256 i (omega arith))))

pub set_bytes_split :
    (acc : ℕ) (bs : Bytes) → set_bytes acc bs ≡ acc * 256 ^ length bs + set_bytes 0 bs
unfolding set_bytes
set_bytes_split acc [] = omega arith
set_bytes_split acc (x ∷ xs) =
    rw (pow-succ')
      (grind (arith, set_bytes_split (acc * 256 + x) xs, set_bytes_split (0 * 256 + x) xs))

pub set_bytes_bound : (bs : Bytes) → All (λ b. b < 256) bs → set_bytes 0 bs < 256 ^ length bs
unfolding set_bytes
set_bytes_bound [] h = omega arith
set_bytes_bound (x ∷ xs) h =
    rw (pow-succ') (grind (arith, set_bytes_split (0 * 256 + x) xs, set_bytes_bound xs h.1))

-- The first letter is the most significant digit.
pub head-encode :
    (i v : ℕ) (rest : Bytes) → get_or (encode (suc i) v rest) 0 0 ≡ letter (v / 32 ^ i % 32)
unfolding encode
head-encode zero v rest = ap letter (omega arith)
head-encode (suc i) v rest =
    head-encode i (v / 32) (letter (v % 32) ∷ rest)
    ∙ ap (λ n. letter (n % 32)) (rw (pow-succ') (div-div-eq-div-mul v 32 (32 ^ i)))
