-- ===== src/Bcrypt.antt =====
-- lab1/det_bcrypt/det_bcrypt.go: bcrypt with a fixed salt. A byte is a number. The package blowfish is
-- the interface `Blowfish`; base64 is Go's, over the package's alphabet.
pub mod Base64
pub mod Layout
pub mod Tests
use Prim.Native.String.{String}
use cs.Base.{
  ℕ, zero, suc, ◌+◌, ◌-◌, ◌*◌, ◌/◌, ◌%◌, ◌^◌, ◌≡◌, Bool, true, false, not, ◌&&◌, ◌||◌, Option, none,
  some, List, [], ◌∷◌, ◌++◌,
}
use cs.Base.Tests.{if◌then◌else◌, ltb, leb, ◌==◌}
use cs.Base.Lists.{length, take, drop, set, replicate}
use cs.Base.Int.{ℤ, pos, negsuc}
use Base64.{base64_encode}

pub data Error : Type 0 where
  mismatched_hash_and_password hash_too_short not_a_number : Error
  hash_version_too_new invalid_hash_prefix : ℕ → Error
  invalid_cost : ℤ → Error
  cipher_error : ℕ → Error

pub data Result (A : Type 0) : Type 0 where
  ok : A → Result A
  err : Error → Result A

infixl 5 ◌>>=◌
abbrev pub ◌>>=◌ : {A B : Type 0} → Result A → (A → Result B) → Result B
ok a >>= f = f a
err e >>= f = err e

-- `golang.org/x/crypto/blowfish`, and `Decode` of the base64 encoding. A cipher maps a block of eight
-- bytes to one; expanding a key changes the cipher.
pub record Blowfish : Type 1 where
  pub Cipher : Type 0
  pub base64_decode_raw : List ℕ → Result (List ℕ)
  pub new_salted_cipher : List ℕ → List ℕ → Result Cipher
  pub expand_key : List ℕ → Cipher → Cipher
  pub encrypt : Cipher → List ℕ → List ℕ
  pub length-encrypt :
      (c : Cipher) (block : List ℕ) → length block ≡ 8 → length (encrypt c block) ≡ 8

abbrev pub min_cost : ℕ
min_cost = 1

abbrev pub max_cost : ℕ
max_cost = 31

abbrev pub default_cost : ℕ
default_cost = 10

abbrev pub dollar : ℕ
dollar = b'$'

abbrev pub major_version : ℕ
major_version = b'2'

abbrev pub minor_version : ℕ
minor_version = b'a'

abbrev pub max_salt_size : ℕ
max_salt_size = 16

abbrev pub max_crypted_hash_size : ℕ
max_crypted_hash_size = 23

abbrev pub encoded_salt_size : ℕ
encoded_salt_size = 22

abbrev pub encoded_hash_size : ℕ
encoded_hash_size = 31

abbrev pub min_hash_size : ℕ
min_hash_size = 59

abbrev pub magic_cipher_data : List ℕ
magic_cipher_data =
    0x4f ∷ 0x72 ∷ 0x70 ∷ 0x68 ∷ 0x65 ∷ 0x61 ∷ 0x6e ∷ 0x42 ∷ 0x65 ∷ 0x68 ∷ 0x6f ∷ 0x6c ∷ 0x64 ∷ 0x65
    ∷ 0x72 ∷ 0x53 ∷ 0x63 ∷ 0x72 ∷ 0x79 ∷ 0x44 ∷ 0x6f ∷ 0x75 ∷ 0x62 ∷ 0x74 ∷ []

-- The pointer's fields; a cost that was checked is a number.
pub record Hashed : Type 0 where
  pub hash : List ℕ
  pub salt : List ℕ
  pub cost : ℕ
  pub major : ℕ
  pub minor : ℕ

pub check_cost : ℤ → Result ℕ
check_cost (negsuc n) = err (invalid_cost (negsuc n))
check_cost (pos n) = if ltb n min_cost || ltb max_cost n then err (invalid_cost (pos n)) else ok n

-- `append(src, '=', …)`: at least one sign, also for a length that needs none.
pub pad : List ℕ → List ℕ
pad src = src ++ replicate (4 - length src % 4) b'='

pub iterate {ℓ} : {A : Type ℓ} → ℕ → (A → A) → A → A
iterate zero f a = a
iterate (suc n) f a = iterate n f (f a)

-- A cost below the least is replaced by the default.
pub raise_cost : ℤ → ℤ
raise_cost (negsuc n) = pos default_cost
raise_cost (pos n) = if ltb n min_cost then pos default_cost else pos n

-- The salt is sixteen letters a: the change that makes the hash deterministic.
pub det_salt : List ℕ
det_salt = base64_encode (replicate max_salt_size b'a')

module _ (bf : Blowfish) where
  open bf use {Cipher, base64_decode_raw, new_salted_cipher, expand_key, encrypt}

  pub base64_decode : List ℕ → Result (List ℕ)
  unfolding pad
  base64_decode src = base64_decode_raw (pad src)

  pub expensive_blowfish_setup : List ℕ → ℕ → List ℕ → Result Cipher
  unfolding base64_decode iterate
  expensive_blowfish_setup key cost salt = base64_decode salt >>= λ csalt.
      new_salted_cipher (key ++ 0 ∷ []) csalt >>= λ c.
      ok (iterate (2 ^ cost) (λ c. expand_key csalt (expand_key (key ++ 0 ∷ []) c)) c)

  -- Each block of eight bytes is encrypted 64 times.
  pub encrypt_blocks : Cipher → List ℕ → List ℕ
  unfolding iterate
  encrypt_blocks c cipher_data =
      iterate 64 (encrypt c) (take 8 cipher_data)
      ++ (iterate 64 (encrypt c) (take 8 (drop 8 cipher_data))
          ++ iterate 64 (encrypt c) (take 8 (drop 16 cipher_data)))

  pub bcrypt : List ℕ → ℕ → List ℕ → Result (List ℕ)
  unfolding expensive_blowfish_setup encrypt_blocks
  bcrypt password cost salt = expensive_blowfish_setup password cost salt >>= λ c.
      ok (base64_encode (take max_crypted_hash_size (encrypt_blocks c magic_cipher_data)))

  pub new_from_password : List ℕ → ℤ → Result Hashed
  unfolding bcrypt raise_cost check_cost
  new_from_password password cost = check_cost (raise_cost cost) >>= λ c.
      bcrypt password c det_salt >>= λ hash. ok (record {
        hash = hash;
        salt = det_salt;
        cost = c;
        major = major_version;
        minor = minor_version;
      })
