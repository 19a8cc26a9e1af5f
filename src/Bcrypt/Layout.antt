-- ===== src/Bcrypt/Layout.antt =====
-- The printed form of a hash in lab1/det_bcrypt/det_bcrypt.go: `Hash`, `newFromHash` and the functions
-- for its parts, and the two functions that callers use.
pub mod RoundTrip
pub mod Accepted
use cs.Base.{
  ℕ, zero, suc, ◌+◌, ◌-◌, ◌*◌, ◌/◌, ◌%◌, ◌≡◌, Bool, true, false, not, ◌&&◌, ◌||◌, List, [], ◌∷◌,
  ◌++◌,
}
use cs.Base.Tests.{if◌then◌else◌, ltb, leb, ◌==◌}
use cs.Base.Lists.{length, take, drop, set, replicate}
use cs.Base.Int.{ℤ, pos, negsuc}
use cs.Bcrypt.{
  Error, Result, ok, err, ◌>>=◌, Blowfish, Hashed, dollar, major_version, encoded_salt_size,
  encoded_hash_size, min_hash_size, check_cost, bcrypt, new_from_password,
}
use cs.Bcrypt

-- `copy(arr[n:], src)`
pub copy_at : List ℕ → ℕ → List ℕ → List ℕ
copy_at arr zero [] = arr
copy_at [] n src = []
copy_at (x ∷ arr) (suc n) src = x ∷ copy_at arr n src
copy_at (x ∷ arr) zero (s ∷ src) = s ∷ copy_at arr zero src

-- `%02d` of a cost below one hundred.
pub two_digits : ℕ → List ℕ
two_digits cost = (b'0' + cost / 10) ∷ (b'0' + cost % 10) ∷ []

-- `Hash` from the place after the version on.
pub hash_from : Hashed → ℕ → List ℕ → List ℕ
unfolding copy_at two_digits
hash_from p n arr =
    let arr1 = set arr n dollar in
    let arr2 = copy_at arr1 (n + 1) (two_digits p.cost) in
    let arr3 = set arr2 (n + 3) dollar in
    let arr4 = copy_at arr3 (n + 4) p.salt in
    let arr5 = copy_at arr4 (n + 4 + encoded_salt_size) p.hash in
    take (n + 4 + encoded_salt_size + encoded_hash_size) arr5

pub hash : Hashed → List ℕ
unfolding hash_from
hash p =
    let arr = set (set (replicate 60 0) 0 dollar) 1 p.major in
    if p.minor == 0 then hash_from p 2 arr else hash_from p 3 (set arr 2 p.minor)

-- `strconv.Atoi` of two bytes: digits, or a sign and a digit.
pub digit? : ℕ → Bool
digit? c = leb b'0' c && leb c b'9'

pub atoi : ℕ → ℕ → Result ℤ
unfolding digit?
atoi a b =
    if not (digit? b)
    then err Error.not_a_number
    else (if digit? a
        then ok (pos ((a - b'0') * 10 + (b - b'0')))
        else (if a == b'+'
            then ok (pos (b - b'0'))
            else (if a == b'-'
                then ok (if b == b'0' then pos 0 else negsuc (b - b'0' - 1))
                else err Error.not_a_number)))

-- The version's two bytes, and what follows them.
pub decode_version : List ℕ → Result (ℕ × ℕ × List ℕ)
decode_version (a ∷ b ∷ c ∷ rest) =
    if not (a == dollar)
    then err (Error.invalid_hash_prefix a)
    else (if ltb major_version b
        then err (Error.hash_version_too_new b)
        else (if c == dollar then ok (b, 0, rest) else ok (b, c, drop 1 rest)))
decode_version _ = err Error.hash_too_short

-- The cost, and what follows it and its sign.
pub decode_cost : List ℕ → Result (ℕ × List ℕ)
unfolding atoi check_cost
decode_cost (a ∷ b ∷ rest) = atoi a b >>= λ cost. check_cost cost >>= λ c. ok (c, drop 1 rest)
decode_cost _ = err Error.hash_too_short

pub new_from_hash : List ℕ → Result Hashed
unfolding decode_version decode_cost
new_from_hash hashed_secret =
    if ltb (length hashed_secret) min_hash_size
    then err Error.hash_too_short
    else (decode_version hashed_secret >>= λ v. decode_cost v.2 >>= λ c. ok (record {
      hash = drop encoded_salt_size c.1;
      salt = take encoded_salt_size c.1;
      cost = c.0;
      major = v.0;
      minor = v.1;
    }))

-- `subtle.ConstantTimeCompare`
pub same_bytes : List ℕ → List ℕ → Bool
same_bytes [] [] = true
same_bytes (x ∷ xs) (y ∷ ys) = x == y && same_bytes xs ys
same_bytes _ _ = false

pub cost : List ℕ → Result ℕ
unfolding new_from_hash
cost hashed_password = new_from_hash hashed_password >>= λ p. ok p.cost

module _ (bf : Blowfish) where
  unfoldable pub generate_from_password : List ℕ → ℤ → Result (List ℕ)
  unfolding hash
  generate_from_password password cost = new_from_password bf password cost >>= λ p. ok (hash p)

  -- `ok` is the nil error.
  pub compare_hash_and_password : List ℕ → List ℕ → Result (Unit {0})
  unfolding new_from_hash hash same_bytes
  compare_hash_and_password hashed_password password = new_from_hash hashed_password >>= λ p.
      bcrypt bf password p.cost p.salt >>= λ other_hash.
      if same_bytes (hash p) (hash (record p { hash = other_hash }))
      then ok tt
      else err Error.mismatched_hash_and_password
