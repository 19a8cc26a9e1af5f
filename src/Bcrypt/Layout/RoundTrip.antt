-- ===== src/Bcrypt/Layout/RoundTrip.antt =====
-- `Hash` and `newFromHash` of lab1/det_bcrypt/det_bcrypt.go against each other.
use mathlib.Core.List.{append-nil, append_assoc}
use cs.Base.{
  ℕ, zero, suc, ◌+◌, ◌/◌, ◌%◌, ◌≤◌, ◌≡◌, ◌≢◌, refl, sym, ap, ◌∙◌, false, List, [], ◌∷◌, ◌++◌, arith,
}
use cs.Base.Tests.{ltb, ◌==◌}
use cs.Base.Lists.{length, take, drop, replicate, length-append, take_all}
use cs.Base.Int.{pos}
use cs.Bcrypt.{ok, Hashed, dollar, major_version, min_hash_size, check_cost, raise_cost}
use cs.Bcrypt.Layout.{
  copy_at, two_digits, hash_from, hash, atoi, digit?, decode_version, decode_cost, new_from_hash,
}

-- What `GenerateFromPassword` builds, and `Hash` prints without a cut.
pub record IsPrintable (p : Hashed) : Type 0 where
  pub salt_size : length p.salt ≡ 22
  pub hash_size : length p.hash ≡ 31
  pub cost_low : 1 ≤ p.cost
  pub cost_high : p.cost ≤ 31
  pub known : p.major ≤ major_version
  pub minor_set : p.minor ≢ 0
  pub minor_plain : p.minor ≢ dollar

-- A copy that fits leaves its source and the rest of the array.
copy_at-zero :
    (arr src : List ℕ) → length src ≤ length arr → copy_at arr 0 src ≡ src ++ drop (length src) arr
unfolding copy_at
copy_at-zero arr [] h = refl
copy_at-zero [] (s ∷ src) h = absurd (omega arith)
copy_at-zero (x ∷ arr) (s ∷ src) h = ap (◌∷◌ s) (copy_at-zero arr src (omega arith))

copy_at-append :
    (front arr src : List ℕ) (n : ℕ)
    → length front ≡ n
    → length src ≤ length arr
    → copy_at (front ++ arr) n src ≡ front ++ (src ++ drop (length src) arr)
unfolding copy_at
copy_at-append [] arr src zero e h = copy_at-zero arr src h
copy_at-append [] arr src (suc n) e h = absurd (omega arith)
copy_at-append (x ∷ front) arr src zero e h = absurd (omega arith)
copy_at-append (x ∷ front) arr src (suc n) e h =
    ap (◌∷◌ x) (copy_at-append front arr src n (omega arith) h)

-- The seven bytes before the salt.
abbrev prefix : Hashed → List ℕ
prefix p =
    dollar ∷ p.major ∷ p.minor ∷ dollar ∷ (b'0' + p.cost / 10) ∷ (b'0' + p.cost % 10) ∷ dollar ∷ []

hash-tail :
    (s h : List ℕ)
    → length s ≡ 22
    → length h ≡ 31
    → take 53 (s ++ (h ++ drop (length h) (drop (length s) (replicate 53 0)))) ≡ s ++ h
hash-tail s h e f =
    rw (e, f, append-nil h) (take_all 53 (s ++ h) (omega (arith, length-append s h)))

-- `Hash` of such a hash is its parts in a row.
hash-eq : (p : Hashed) → IsPrintable p → hash p ≡ prefix p ++ (p.salt ++ p.hash)
unfolding hash hash_from two_digits copy_at
hash-eq p v = rw (let e : (p.minor == 0) ≡ false = ground (arith, v.minor_set) in e) (
    ap (λ z. take 60 (copy_at z 29 p.hash))
      (copy_at-append (prefix p) (replicate 53 0) p.salt 7 refl (omega (arith, v.salt_size)))
    ∙ ap (take 60) (
        ap (λ z. copy_at z 29 p.hash)
          (regroup (prefix p) p.salt (drop (length p.salt) (replicate 53 0)))
        ∙ copy_at-append (prefix p ++ p.salt) (drop (length p.salt) (replicate 53 0)) p.hash 29
            (omega (arith, length-append (prefix p) p.salt, v.salt_size))
            (rw v.salt_size (omega (arith, v.hash_size)))
        ∙ sym (
            regroup (prefix p) p.salt
              (p.hash ++ drop (length p.hash) (drop (length p.salt) (replicate 53 0)))))
    ∙ ap (λ z. prefix p ++ z) (hash-tail p.salt p.hash v.salt_size v.hash_size))
  where
    regroup : (a b c : List ℕ) → a ++ (b ++ c) ≡ (a ++ b) ++ c
    regroup a b c = sym (append_assoc a b c)

atoi-two_digits : (c : ℕ) → c ≤ 31 → atoi (b'0' + c / 10) (b'0' + c % 10) ≡ ok (pos c)
unfolding atoi digit?
atoi-two_digits c h = ground arith

pub check_cost-ok : (c : ℕ) → 1 ≤ c → c ≤ 31 → check_cost (pos c) ≡ ok c
unfolding check_cost
check_cost-ok c l h = ground arith

pub raise_cost-keep : (c : ℕ) → 1 ≤ c → raise_cost (pos c) ≡ pos c
unfolding raise_cost
raise_cost-keep c l = ground arith

decode_version-prefix :
    (p : Hashed) (rest : List ℕ)
    → IsPrintable p
    → decode_version (prefix p ++ rest)
      ≡ ok (p.major, p.minor, (b'0' + p.cost / 10) ∷ (b'0' + p.cost % 10) ∷ dollar ∷ rest)
unfolding decode_version
decode_version-prefix p rest v =
    rw
      (
        let e : ltb major_version p.major ≡ false = ground (arith, v.known) in e,
        let e : (p.minor == dollar) ≡ false = ground (arith, v.minor_plain) in e,
      )
      refl

decode_cost-digits :
    (c : ℕ) (rest : List ℕ)
    → 1 ≤ c
    → c ≤ 31
    → decode_cost ((b'0' + c / 10) ∷ (b'0' + c % 10) ∷ dollar ∷ rest) ≡ ok (c, rest)
unfolding decode_cost
decode_cost-digits c rest l h = rw (atoi-two_digits c h, check_cost-ok c l h) refl

take-front : (n : ℕ) (a b : List ℕ) → length a ≡ n → take n (a ++ b) ≡ a
take-front zero [] b e = refl
take-front zero (x ∷ a) b e = absurd (omega arith)
take-front (suc n) [] b e = absurd (omega arith)
take-front (suc n) (x ∷ a) b e = ap (◌∷◌ x) (take-front n a b (omega arith))

drop-front : (n : ℕ) (a b : List ℕ) → length a ≡ n → drop n (a ++ b) ≡ b
drop-front zero [] b e = refl
drop-front zero (x ∷ a) b e = absurd (omega arith)
drop-front (suc n) [] b e = absurd (omega arith)
drop-front (suc n) (x ∷ a) b e = drop-front n a b (omega arith)

long_enough :
    (p : Hashed)
    → IsPrintable p
    → ltb (length (prefix p ++ (p.salt ++ p.hash))) min_hash_size ≡ false
long_enough p v = ground (arith, length-append p.salt p.hash, v.salt_size, v.hash_size)

-- Reading what `Hash` prints gives the hash back.
pub new_from_hash-hash : (p : Hashed) → IsPrintable p → new_from_hash (hash p) ≡ ok p
unfolding new_from_hash
new_from_hash-hash p v =
    rw
      (
        hash-eq p v,
        long_enough p v,
        decode_version-prefix p (p.salt ++ p.hash) v,
        decode_cost-digits p.cost (p.salt ++ p.hash) v.cost_low v.cost_high,
        take-front 22 p.salt p.hash v.salt_size,
        drop-front 22 p.salt p.hash v.salt_size,
      )
      refl
