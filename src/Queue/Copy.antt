-- ===== src/Queue/Copy.antt =====
-- What Go's `copy` into a slice leaves in the array, index by index.
use cs.Base.{ℕ, zero, suc, ◌+◌, ◌-◌, ◌≤◌, ◌≡◌, refl, inl, inr, some, List, [], ◌∷◌, ◌++◌, arith}
use cs.Base.Tests.{if◌then◌else◌, ltb, le→leb, Bool-cases}
use cs.Base.Lists.{
  length, get_elem?, take, drop, length-append, length-take, length-drop, get_elem?-take,
  get_elem?-drop, get_elem?-append,
}
use cs.Queue.{slice, copy, copy_slice}

module _ {A : Type 0} where
  pub length-copy : (dst src : List A) → length (copy dst src) ≡ length dst
  unfolding copy
  length-copy [] src = refl
  length-copy (d ∷ dst) [] = refl
  length-copy (d ∷ dst) (s ∷ src) = omega (arith, length-copy dst src)

  pub get_elem?-copy :
      (dst src : List A) (i : ℕ)
      → length src ≤ length dst
      → get_elem? (copy dst src) i
        ≡ (if ltb i (length src) then get_elem? src i else get_elem? dst i)
  unfolding copy
  get_elem?-copy [] [] i h = ground arith
  get_elem?-copy [] (s ∷ src) i h = absurd (omega arith)
  get_elem?-copy (d ∷ dst) [] i h = ground arith
  get_elem?-copy (d ∷ dst) (s ∷ src) zero h = ground arith
  get_elem?-copy (d ∷ dst) (s ∷ src) (suc i) h = ground (arith, get_elem?-copy dst src i)

  -- A slice within bounds does not panic.
  pub slice-eq :
      (xs : List A) (lo hi : ℕ)
      → lo ≤ hi
      → hi ≤ length xs
      → slice xs lo hi ≡ some (take (hi - lo) (drop lo xs))
  unfolding slice
  slice-eq xs lo hi h k = rw (le→leb lo hi h, le→leb hi (length xs) k)

  -- `out` is `dst` with `src` written at `lo`.
  pub record Copied (dst src : List A) (lo : ℕ) (out : List A) : Type 0 where
    pub size : length out ≡ length dst
    pub at :
        (i : ℕ)
        → get_elem? out i ≡ (
            if ltb i lo
            then get_elem? dst i
            else (if ltb i (lo + length src) then get_elem? src (i - lo) else get_elem? dst i))

  -- A copy into `dst[lo:hi]` of a source that fits: the source stands at `lo`, the rest is kept.
  pub copy_slice-Copied :
      (dst src : List A) (lo hi : ℕ)
      → lo ≤ hi
      → hi ≤ length dst
      → length src ≤ hi - lo
      → (out : List A) × (copy_slice dst lo hi src ≡ some out) × Copied dst src lo out
  unfolding copy_slice
  copy_slice-Copied dst src lo hi h k m =
      (out, rw (slice-eq dst lo hi h k, copy_slice), record { size = size; at = at })
    where
      part : List A
      part = take (hi - lo) (drop lo dst)

      out : List A
      out = take lo dst ++ (copy part src ++ drop hi dst)

      part_size : length part ≡ hi - lo
      part_size = omega (arith, length-take (hi - lo) (drop lo dst), length-drop lo dst)

      size : length out ≡ length dst
      size = omega (
        arith,
        length-append (take lo dst) (copy part src ++ drop hi dst),
        length-append (copy part src) (drop hi dst),
        length-take lo dst,
        length-copy part src,
        part_size,
        length-drop hi dst,
      )

      at :
          (i : ℕ)
          → get_elem? out i ≡ (
              if ltb i lo
              then get_elem? dst i
              else (if ltb i (lo + length src) then get_elem? src (i - lo) else get_elem? dst i))
      at i = elim (Bool-cases (ltb i lo)) [
        | inl before ↦ ground (
          arith,
          get_elem?-append (take lo dst) (copy part src ++ drop hi dst) i,
          get_elem?-take lo i dst,
          length-take lo dst,
        )
        | inr after ↦ ground (
          arith,
          get_elem?-append (take lo dst) (copy part src ++ drop hi dst) i,
          length-take lo dst,
          get_elem?-append (copy part src) (drop hi dst) (i - lo),
          get_elem?-copy part src (i - lo),
          length-copy part src,
          part_size,
          get_elem?-drop hi (i - hi) dst,
          get_elem?-drop lo (i - lo) dst,
          get_elem?-take (hi - lo) (i - lo) (drop lo dst),
        )
      ]
