-- ===== src/Queue/Grow.antt =====
-- The branch of `Push` in lab0/queue.go that moves a full queue to a buffer of twice the size.
use cs.Base.{ℕ, ◌+◌, ◌-◌, ◌*◌, ◌%◌, ◌<◌, ◌≡◌, some, List, arith}
use cs.Base.Lists.{
  length, get_elem?, take, drop, replicate, length-replicate, length-take, length-drop,
  get_elem?-take, get_elem?-drop,
}
use cs.Queue.{Queue, copy_slice, grown}
use cs.Queue.Copy.{Copied, slice-eq, copy_slice-Copied}
use cs.Queue.Valid.{IsValid, circle_before, circle_after}

module _ {A : Type 0} (dflt : A) (q : Queue A) (v : IsValid q)
    (full : q.num_elements ≡ q.size) where
  -- The parts of a full buffer, as `Push` slices them.
  abbrev older : List A
  older = take (q.head + (q.size - q.head) - q.head) (drop q.head q.buf)

  abbrev newer : List A
  newer = take (q.first_empty - 0) q.buf

  full_tail : q.first_empty ≡ q.head
  full_tail =
      omega (arith, circle_after q.head q.num_elements q.size v.head_in v.within (omega arith))

  length-older : length older ≡ q.size - q.head
  length-older = omega (
    arith,
    length-take (q.head + (q.size - q.head) - q.head) (drop q.head q.buf),
    length-drop q.head q.buf,
    v.storage,
    v.head_in,
  )

  length-newer : length newer ≡ q.head
  length-newer =
      omega (arith, length-take (q.first_empty - 0) q.buf, full_tail, v.storage, v.head_in)

  -- Both copies together hold the elements in order.
  Copied-twice :
      (fresh mid out : List A) (i : ℕ)
      → Copied fresh older 0 mid
      → Copied mid newer (q.size - q.head) out
      → i < q.size
      → get_elem? out i ≡ get_elem? q.buf ((q.head + i) % q.size)
  Copied-twice fresh mid out i c d h = ground (
    arith,
    c.at i,
    d.at i,
    length-older,
    length-newer,
    full_tail,
    get_elem?-take (q.head + (q.size - q.head) - q.head) i (drop q.head q.buf),
    get_elem?-drop q.head i q.buf,
    get_elem?-take (q.first_empty - 0) (i - (q.size - q.head)) q.buf,
    circle_before q.head i q.size,
    circle_after q.head i q.size v.head_in,
    v.head_in,
  )

  -- What a full queue moves to.
  abbrev pub Moved : List A → Type 0
  Moved out =
      (grown dflt q ≡ some out)
      × (length out ≡ q.size * 2)
      × ((i : ℕ) → i < q.size → get_elem? out i ≡ get_elem? q.buf ((q.head + i) % q.size))

  abbrev fresh : List A
  fresh = replicate (q.size * 2) dflt

  length-fresh : length fresh ≡ q.size * 2
  length-fresh = length-replicate (q.size * 2) dflt

  Moved-of :
      (mid out : List A)
      → copy_slice fresh 0 (q.size - q.head) older ≡ some mid
      → Copied fresh older 0 mid
      → copy_slice mid (q.size - q.head) (q.size - q.head + q.first_empty) newer ≡ some out
      → Copied mid newer (q.size - q.head) out
      → Moved out
  unfolding grown
  Moved-of mid out e c f d = (
    rw (
      slice-eq q.buf q.head (q.head + (q.size - q.head)) (omega arith)
          (omega (arith, v.storage, v.head_in)),
      e,
      slice-eq q.buf 0 q.first_empty (omega arith) (omega (arith, v.storage, v.head_in, full_tail)),
      f,
    ),
    omega (arith, c.size, d.size, length-fresh),
    λ i h. Copied-twice fresh mid out i c d h,
  )

  Moved-from :
      (mid : List A)
      → copy_slice fresh 0 (q.size - q.head) older ≡ some mid
      → Copied fresh older 0 mid
      → (out : List A) × Moved out
  Moved-from mid e c =
      let r =
        copy_slice-Copied mid newer (q.size - q.head) (q.size - q.head + q.first_empty)
          (omega arith) (omega (arith, c.size, length-fresh, full_tail, v.head_in))
          (omega (arith, length-newer, full_tail)) in
      (r.0, Moved-of mid r.0 e c r.1 r.2)

  pub grown-Moved : (out : List A) × Moved out
  grown-Moved =
      let r =
        copy_slice-Copied fresh older 0 (q.size - q.head) (omega arith)
          (omega (arith, length-fresh)) (omega (arith, length-older)) in
      Moved-from r.0 r.1 r.2
