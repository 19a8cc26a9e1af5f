-- ===== src/Ranker.antt =====
-- lab1/ranker/ranker.go: the score of a video for a user. A Go map of coefficients is the list of its
-- entries, in the order in which an iteration meets them. `hash/fnv`, `FormatUint` and `%020d` are
-- written out from their documentation.
pub mod Order
pub mod Cost
pub mod Digits
mod Tests
use Prim.Native.Nat.{bit_xor}
use cs.Base.{
  ℕ, zero, suc, ◌+◌, ◌-◌, ◌*◌, ◌/◌, ◌%◌, ◌^◌, Bool, true, false, Option, none, some, List, [], ◌∷◌,
}
use cs.Base.Tests.{if◌then◌else◌, ltb, ◌==◌}
use cs.Base.Int.{ℤ, pos}
use cs.Bcrypt.{Blowfish, Result, ok, err, min_cost}
use cs.Bcrypt.Layout.{generate_from_password}

-- FNV-1: multiply, then `xor` the byte.
pub fnv : ℕ → ℕ → ℕ → List ℕ → ℕ
fnv prime w hash [] = hash
fnv prime w hash (c ∷ bytes) = fnv prime w (bit_xor (hash * prime % 2 ^ w) c) bytes

pub sum32 : List ℕ → ℕ
unfolding fnv
sum32 = fnv 16777619 32 2166136261

pub sum64 : List ℕ → ℕ
unfolding fnv
sum64 = fnv 1099511628211 64 14695981039346656037

-- The `count` last decimal digits of a number, before `acc`: what `%020d` prints of one below 10^20.
pub padded : ℕ → ℕ → List ℕ → List ℕ
padded zero n acc = acc
padded (suc count) n acc = padded count (n / 10) ((b'0' + n % 10) ∷ acc)

-- The digits of a number before `acc`; `fuel` bounds their count.
pub digits : ℕ → ℕ → List ℕ → List ℕ
digits zero n acc = acc
digits (suc fuel) n acc =
    let rest = digits fuel (n / 10) ((b'0' + n % 10) ∷ acc) in
    if ltb n 10 then (b'0' + n % 10) ∷ acc else rest

-- A number has at most as many digits as it says, and one more for zero.
pub format_uint : ℕ → List ℕ
unfolding digits
format_uint n = digits (suc n) n []

pub cost_hash : ℕ → ℕ
unfolding sum32 format_uint
cost_hash id = sum32 (format_uint id) % (4 - min_cost) + min_cost

pub lookup : ℕ → List (ℕ × ℕ) → Option ℕ
lookup key [] = none
lookup key ((k, v) ∷ entries) = if key == k then some v else lookup key entries

-- One round of the loop over the user's coefficients, after the lookup; both operations wrap.
pub add_product : ℕ → ℕ → Option ℕ → ℕ
add_product sum user_coeff none = sum
add_product sum user_coeff (some video_coeff) = (sum + user_coeff * video_coeff % 2 ^ 64) % 2 ^ 64

pub dot_loop : List (ℕ × ℕ) → List (ℕ × ℕ) → ℕ → ℕ
unfolding lookup add_product
dot_loop [] video_coeffs sum = sum
dot_loop ((feature_id, user_coeff) ∷ user_coeffs) video_coeffs sum =
    dot_loop user_coeffs video_coeffs (add_product sum user_coeff (lookup feature_id video_coeffs))

pub dot_product : List (ℕ × ℕ) → List (ℕ × ℕ) → ℕ
unfolding dot_loop
dot_product user_coeffs video_coeffs = dot_loop user_coeffs video_coeffs 0

-- `bytes, _ := …`: a failed call returns no bytes.
pub bytes_of : Result (List ℕ) → List ℕ
bytes_of (ok bytes) = bytes
bytes_of (err e) = []

module _ (bf : Blowfish) where
  -- `Rank` from the dot product on.
  pub score : ℕ → ℕ
  unfolding padded cost_hash sum64 bytes_of
  score dot = sum64 (bytes_of (generate_from_password bf (padded 20 dot []) (pos (cost_hash dot))))

  pub rank : List (ℕ × ℕ) → List (ℕ × ℕ) → ℕ
  unfolding dot_product score
  rank user_coeffs video_coeffs = score (dot_product user_coeffs video_coeffs)
