-- ===== src/Queue.antt =====
-- lab0/queue.go: the unbounded FIFO queue over a circular buffer that doubles when it is full.
-- `Option` marks Go's run-time panics: an index or a slice bound out of range gives `none`.
pub mod Copy
pub mod Valid
pub mod Grow
pub mod Fifo
pub mod Run
pub mod Shared
mod Tests
use cs.Base.{
  ℕ, zero, suc, ◌+◌, ◌-◌, ◌*◌, ◌%◌, ◌≡◌, Bool, true, false, ◌&&◌, Option, none, some, List, [], ◌∷◌,
  ◌++◌,
}
use cs.Base.Tests.{if◌then◌else◌, ltb, leb, ◌==◌}
use cs.Base.Lists.{length, get_elem?, set, take, drop, replicate}

module _ {ℓ} {A : Type ℓ} where
  -- `xs[lo:hi]`
  pub slice : List A → ℕ → ℕ → Option (List A)
  slice xs lo hi =
      if leb lo hi && leb hi (length xs) then some (take (hi - lo) (drop lo xs)) else none

  -- `copy(dst, src)`: what `dst` holds afterwards.
  pub copy : List A → List A → List A
  copy [] src = []
  copy (d ∷ dst) [] = d ∷ dst
  copy (d ∷ dst) (s ∷ src) = s ∷ copy dst src

  -- `copy(dst[lo:hi], src)`: a slice shares its array, so the copy shows in `dst`.
  pub copy_slice : List A → ℕ → ℕ → List A → Option (List A)
  unfolding slice copy
  copy_slice dst lo hi src = elim (slice dst lo hi) [
    | none ↦ none
    | some part ↦ some (take lo dst ++ (copy part src ++ drop hi dst))
  ]

  -- `xs[i] = v`
  pub store : List A → ℕ → A → Option (List A)
  store xs i v = if ltb i (length xs) then some (set xs i v) else none

pub record Queue {ℓ} (A : Type ℓ) : Type ℓ where
  pub head : ℕ
  pub first_empty : ℕ
  pub num_elements : ℕ
  pub buf : List A
  pub size : ℕ

infixl 5 ◌>>=◌
abbrev pub ◌>>=◌ {ℓ κ} : {A : Type ℓ} {B : Type κ} → Option A → (A → Option B) → Option B
none >>= f = none
some a >>= f = f a

-- `dflt` is the zero value of the element type, which `make` fills a buffer with.
module _ {ℓ} {A : Type ℓ} (dflt : A) where
  pub new_queue : Queue A
  new_queue = record {
    head = 0;
    first_empty = 0;
    num_elements = 0;
    buf = replicate 8 dflt;
    size = 8;
  }

  -- The buffer that a full queue moves to: the older part first.
  pub grown : Queue A → Option (List A)
  unfolding slice copy_slice
  grown q =
      let n = q.size - q.head in
      do
        older ← slice q.buf q.head (q.head + n)
        tmp ← copy_slice (replicate (q.size * 2) dflt) 0 n older
        newer ← slice q.buf 0 q.first_empty
        copy_slice tmp n (n + q.first_empty) newer

  -- The branch of `Push` that copies to a buffer of twice the size.
  pub push_growing : Queue A → A → Option (Queue A)
  unfolding grown store
  push_growing q t = do
    tmp ← grown q
    tmp' ← store tmp q.size t
    some (record {
      head = 0;
      first_empty = q.size + 1;
      num_elements = q.num_elements + 1;
      buf = tmp';
      size = q.size * 2;
    })

  -- The branch of `Push` that finds room.
  pub push_in_place : Queue A → A → Option (Queue A)
  unfolding store
  push_in_place q t = do
    buf' ← store q.buf q.first_empty t
    some (record q {
      buf = buf';
      first_empty = (q.first_empty + 1) % q.size;
      num_elements = q.num_elements + 1;
    })

  pub push : Queue A → A → Option (Queue A)
  unfolding push_in_place push_growing
  push q t = if ltb q.num_elements q.size then push_in_place q t else push_growing q t

  -- `Pop` of a queue that is not empty.
  pub pop_front : Queue A → Option ((A × Bool) × Queue A)
  pop_front q = do
    out ← get_elem? q.buf q.head
    some ((out, true), record q { head = (q.head + 1) % q.size; num_elements = q.num_elements - 1 })

  -- The popped value, whether there was one, and the queue afterwards.
  pub pop : Queue A → Option ((A × Bool) × Queue A)
  unfolding pop_front
  pop q = if q.num_elements == 0 then some ((dflt, false), q) else pop_front q
