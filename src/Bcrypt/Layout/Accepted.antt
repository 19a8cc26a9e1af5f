-- ===== src/Bcrypt/Layout/Accepted.antt =====
-- `GenerateFromPassword` against `CompareHashAndPassword` and `Cost` of lab1/det_bcrypt/det_bcrypt.go.
use cs.Base.{
  ℕ, zero, suc, ◌≤◌, ◌≡◌, refl, sym, ap, subst, ◌∙◌, inl, inr, ◌⊎◌, true, false, ◌||◌, List, [],
  ◌∷◌, ◌++◌, arith,
}
use cs.Base.Tests.{ltb, Bool-cases, ==_iff}
use cs.Base.Lists.{length, take, drop, replicate, length-append, length-take}
use cs.Base.Int.{ℤ, pos, negsuc}
use cs.Bcrypt.{
  Error, Result, ok, err, ◌>>=◌, Blowfish, Hashed, magic_cipher_data, check_cost, raise_cost,
  iterate, det_salt, expensive_blowfish_setup, encrypt_blocks, bcrypt, new_from_password,
}
use cs.Bcrypt.Base64.{base64_encode, encoded_length, length-base64_encode}
use cs.Bcrypt.Layout.{hash, same_bytes, cost, generate_from_password, compare_hash_and_password}
use cs.Bcrypt.Layout.RoundTrip.{IsPrintable, new_from_hash-hash}

bind-ok :
    {A B : Type 0} (x : Result A) (f : A → Result B) (b : B)
    → (x >>= f) ≡ ok b
    → (a : A) × (x ≡ ok a) × (f a ≡ ok b)
bind-ok (ok a) f b e = (a, refl, e)
bind-ok (err x) f b e = absurd cc

of_ok : {A : Type 0} → A → Result A → A
of_ok a (ok b) = b
of_ok a (err e) = a

check_cost-range : (c : ℤ) (n : ℕ) → check_cost c ≡ ok n → (1 ≤ n) × (n ≤ 31)
unfolding check_cost
check_cost-range (negsuc m) n e = absurd cc
check_cost-range (pos m) n e = checked (Bool-cases (ltb m 1 || ltb 31 m))
  where
    checked :
        (((ltb m 1 || ltb 31 m) ≡ true) ⊎ ((ltb m 1 || ltb 31 m) ≡ false)) → (1 ≤ n) × (n ≤ 31)
    checked (inl t) =
        absurd (let e' : err (Error.invalid_cost (pos m)) ≡ ok n = sym (rw t refl) ∙ e in cc)
    checked (inr f) =
        (let e' : ok m ≡ ok n = sym (rw f refl) ∙ e in
          let same : m ≡ n = cc in subst (λ z. (1 ≤ z) × (z ≤ 31)) same (ground arith))

same_bytes_refl : (xs : List ℕ) → same_bytes xs xs ≡ true
unfolding same_bytes
same_bytes_refl [] = refl
same_bytes_refl (x ∷ xs) = rw ((==_iff x x).1 refl) (same_bytes_refl xs)

salt_length : length det_salt ≡ 22
unfolding det_salt encoded_length
salt_length = length-base64_encode (replicate 16 b'a')

module _ (bf : Blowfish) where
  iterate_8 :
      (f : List ℕ → List ℕ)
      → ((b : List ℕ) → length b ≡ 8 → length (f b) ≡ 8)
      → (n : ℕ) (b : List ℕ) → length b ≡ 8
      → length (iterate n f b) ≡ 8
  unfolding iterate
  iterate_8 f h zero b e = e
  iterate_8 f h (suc n) b e = iterate_8 f h n (f b) (h b e)

  length-encrypt_blocks : (c : bf.Cipher) → length (encrypt_blocks bf c magic_cipher_data) ≡ 24
  unfolding encrypt_blocks
  length-encrypt_blocks c =
      length-append (block 0) (block 8 ++ block 16)
      ∙ omega (arith, length-append (block 8) (block 16), size 0 refl, size 8 refl, size 16 refl)
    where
      block : ℕ → List ℕ
      block n = iterate 64 (bf.encrypt c) (take 8 (drop n magic_cipher_data))

      size : (n : ℕ) → length (take 8 (drop n magic_cipher_data)) ≡ 8 → length (block n) ≡ 8
      size n e =
          iterate_8 (bf.encrypt c) (bf.length-encrypt c) 64 (take 8 (drop n magic_cipher_data)) e

  length-bcrypt :
      (pw : List ℕ) (c : ℕ) (salt out : List ℕ) → bcrypt bf pw c salt ≡ ok out → length out ≡ 31
  unfolding bcrypt encoded_length
  length-bcrypt pw c salt out e = encoded (
      bind-ok (expensive_blowfish_setup bf pw c salt)
        (λ k. ok (base64_encode (take 23 (encrypt_blocks bf k magic_cipher_data)))) out e)
    where
      taken : (k : bf.Cipher) → length (take 23 (encrypt_blocks bf k magic_cipher_data)) ≡ 23
      taken k =
          omega
            (arith, length-take 23 (encrypt_blocks bf k magic_cipher_data), length-encrypt_blocks k)

      encoded :
          (k : bf.Cipher) × (expensive_blowfish_setup bf pw c salt ≡ ok k)
            × (ok (base64_encode (take 23 (encrypt_blocks bf k magic_cipher_data))) ≡ ok out)
          → length out ≡ 31
      encoded (k, _, q) =
          sym (
            ap length (
              let q' : base64_encode (take 23 (encrypt_blocks bf k magic_cipher_data)) ≡ out = cc in
              q'))
          ∙ length-base64_encode (take 23 (encrypt_blocks bf k magic_cipher_data))
          ∙ ap encoded_length (taken k)

  -- What `newFromPassword` builds.
  new_from_password-parts :
      (pw : List ℕ) (c : ℤ) (p : Hashed)
      → new_from_password bf pw c ≡ ok p
      → IsPrintable p
        × (bcrypt bf pw p.cost p.salt ≡ ok p.hash)
        × (check_cost (raise_cost c) ≡ ok p.cost)
  unfolding new_from_password
  new_from_password-parts pw c p e =
      let (n, checked, e1) =
        bind-ok (check_cost (raise_cost c))
          (λ n. bcrypt bf pw n det_salt >>= λ hash. ok (made n hash)) p e in
      let (h, hashed, e2) = bind-ok (bcrypt bf pw n det_salt) (λ hash. ok (made n hash)) p e1 in
      subst
        (λ z.
          IsPrintable z
          × (bcrypt bf pw z.cost z.salt ≡ ok z.hash)
          × (check_cost (raise_cost c) ≡ ok z.cost))
        (let same : made n h ≡ p = cc in same)
        (
          printable n h (check_cost-range (raise_cost c) n checked)
              (length-bcrypt pw n det_salt h hashed),
          hashed,
          checked,
        )
    where
      made : ℕ → List ℕ → Hashed
      made n h = record { hash = h; salt = det_salt; cost = n; major = b'2'; minor = b'a' }

      printable : (n : ℕ) (h : List ℕ) → (1 ≤ n) × (n ≤ 31) → length h ≡ 31 → IsPrintable (made n h)
      printable n h (l, u) k = record {
        salt_size = salt_length;
        hash_size = k;
        cost_low = l;
        cost_high = u;
        known = omega arith;
        minor_set = λ q. omega arith;
        minor_plain = λ q. omega arith;
      }

  -- A hash that `GenerateFromPassword` returns is accepted for its password, and its cost reads as the
  -- one that was asked for, raised to the default if it was below the least.
  pub generate_from_password-compare :
      (password : List ℕ) (c : ℤ) (h : List ℕ)
      → generate_from_password bf password c ≡ ok h
      → (compare_hash_and_password bf h password ≡ ok tt) × (cost h ≡ check_cost (raise_cost c))
  unfolding generate_from_password compare_hash_and_password cost
  generate_from_password-compare password c h e =
      let (p, built, e1) = bind-ok (new_from_password bf password c) (λ p. ok (hash p)) h e in
      subst
        (λ z.
          (compare_hash_and_password bf z password ≡ ok tt) × (cost z ≡ check_cost (raise_cost c)))
        (let same : hash p ≡ h = cc in same)
        (accepted p (new_from_password-parts password c p built))
    where
      accepted :
          (p : Hashed)
          → IsPrintable p
            × (bcrypt bf password p.cost p.salt ≡ ok p.hash)
            × (check_cost (raise_cost c) ≡ ok p.cost)
          → (compare_hash_and_password bf (hash p) password ≡ ok tt)
            × (cost (hash p) ≡ check_cost (raise_cost c))
      accepted p (v, hashed, checked) = (
        rw (new_from_hash-hash p v, hashed, same_bytes_refl (hash p)) refl,
        rw (new_from_hash-hash p v) (sym checked),
      )
