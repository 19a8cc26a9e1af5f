-- ===== src/Bcrypt/Base64.antt =====
-- `base64Encode` of lab1/det_bcrypt/det_bcrypt.go: the encoding of Go's encoding/base64 over the
-- package's alphabet, without its padding.
use cs.Base.{
  ℕ, zero, suc, ◌+◌, ◌-◌, ◌*◌, ◌/◌, ◌%◌, ◌<◌, ◌≡◌, refl, ap, ◌∙◌, ◌≢◌, inl, inr, List, [], ◌∷◌,
  arith,
}
use cs.Base.Tests.{if◌then◌else◌, ltb, ◌==◌, Bool-cases, ==_iff}
use cs.Base.Lists.{length}

-- The letters of `alphabet`: './', then upper case, lower case and digits.
pub letter : ℕ → ℕ
letter v =
    if ltb v 2
    then b'.' + v
    else (if ltb v 28
        then b'A' + (v - 2)
        else (if ltb v 54 then b'a' + (v - 28) else b'0' + (v - 54)))

-- Three bytes are four letters; what is left over is padded with signs of equality.
pub encode : List ℕ → List ℕ
encode [] = []
encode (a ∷ []) = letter (a / 4 % 64) ∷ letter (a * 16 % 64) ∷ b'=' ∷ b'=' ∷ []
encode (a ∷ b ∷ []) =
    letter (a / 4 % 64) ∷ letter ((a * 16 + b / 16) % 64) ∷ letter (b * 4 % 64) ∷ b'=' ∷ []
encode (a ∷ b ∷ c ∷ src) =
    letter (a / 4 % 64)
    ∷ letter ((a * 16 + b / 16) % 64)
    ∷ letter ((b * 4 + c / 64) % 64)
    ∷ letter (c % 64)
    ∷ encode src

-- `for dst[n-1] == '=' { n-- }`: what is left before the signs at the end. (The source reads out of
-- range if nothing is left; every call encodes at least one byte, which leaves two letters.)
pub keep_letter : ℕ → List ℕ → List ℕ
keep_letter c [] = if c == b'=' then [] else c ∷ []
keep_letter c (d ∷ rest) = c ∷ d ∷ rest

pub strip : List ℕ → List ℕ
unfolding keep_letter
strip [] = []
strip (c ∷ dst) = keep_letter c (strip dst)

pub base64_encode : List ℕ → List ℕ
unfolding encode strip
base64_encode src = strip (encode src)

letter-ne-sign : (v : ℕ) → v < 64 → letter v ≢ b'='
unfolding letter
letter-ne-sign v h = ground arith

-- How many letters encode so many bytes.
unfoldable pub encoded_length : ℕ → ℕ
encoded_length zero = 0
encoded_length (suc zero) = 2
encoded_length (suc (suc zero)) = 3
encoded_length (suc (suc (suc n))) = 4 + encoded_length n

strip-letter : (v : ℕ) (rest : List ℕ) → v < 64 → strip (letter v ∷ rest) ≡ letter v ∷ strip rest
unfolding strip keep_letter
strip-letter v rest h = keep (strip rest)
  where
    keep : (out : List ℕ) → keep_letter (letter v) out ≡ letter v ∷ out
    keep [] = elim (Bool-cases (letter v == b'=')) [
      | inl e ↦ absurd (letter-ne-sign v h ((==_iff (letter v) b'=').0 e))
      | inr e ↦ rw e
    ]
    keep (d ∷ out) = refl

length-strip-letter :
    (v : ℕ) (rest : List ℕ) → v < 64 → length (strip (letter v ∷ rest)) ≡ suc (length (strip rest))
length-strip-letter v rest h = ap length (strip-letter v rest h)

-- The encoding's length depends on the number of bytes alone.
pub length-base64_encode : (src : List ℕ) → length (base64_encode src) ≡ encoded_length (length src)
unfolding base64_encode encoded_length
length-base64_encode [] = refl
length-base64_encode (a ∷ []) =
    length-strip-letter (a / 4 % 64) (letter (a * 16 % 64) ∷ b'=' ∷ b'=' ∷ []) (omega arith)
    ∙ ap suc (length-strip-letter (a * 16 % 64) (b'=' ∷ b'=' ∷ []) (omega arith))
length-base64_encode (a ∷ b ∷ []) =
    length-strip-letter (a / 4 % 64)
      (letter ((a * 16 + b / 16) % 64) ∷ letter (b * 4 % 64) ∷ b'=' ∷ []) (omega arith)
    ∙ ap suc (
        length-strip-letter ((a * 16 + b / 16) % 64) (letter (b * 4 % 64) ∷ b'=' ∷ []) (omega arith)
        ∙ ap suc (length-strip-letter (b * 4 % 64) (b'=' ∷ []) (omega arith)))
length-base64_encode (a ∷ b ∷ c ∷ src) =
    length-strip-letter (a / 4 % 64)
      (letter ((a * 16 + b / 16) % 64)
        ∷ letter ((b * 4 + c / 64) % 64)
        ∷ letter (c % 64)
        ∷ encode src)
      (omega arith)
    ∙ ap suc (
        length-strip-letter ((a * 16 + b / 16) % 64)
          (letter ((b * 4 + c / 64) % 64) ∷ letter (c % 64) ∷ encode src) (omega arith)
        ∙ ap suc (
            length-strip-letter ((b * 4 + c / 64) % 64) (letter (c % 64) ∷ encode src) (omega arith)
            ∙ ap suc (length-strip-letter (c % 64) (encode src) (omega arith))))
    ∙ omega (arith, length-base64_encode src)
