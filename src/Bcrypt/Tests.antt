-- ===== src/Bcrypt/Tests.antt =====
-- Hashing with a cipher that leaves its blocks as they are.
use cs.Base.{◌≡◌, refl, [], ◌∷◌, arith}
use cs.Base.Lists.{replicate, take}
use cs.Base.Int.{pos}
use cs.Bcrypt.{
  ok, Blowfish, Hashed, check_cost, raise_cost, max_crypted_hash_size, magic_cipher_data,
  major_version, minor_version, det_salt, encrypt_blocks, new_from_password, bcrypt,
  expensive_blowfish_setup, base64_decode,
}
use cs.Bcrypt.Base64.{base64_encode}
use cs.Bcrypt.Layout.{hash, new_from_hash, cost, generate_from_password, compare_hash_and_password}
use cs.Bcrypt.Layout.RoundTrip.{IsPrintable, new_from_hash-hash}
use cs.Bcrypt.Layout.Accepted.{generate_from_password-compare}

abbrev pub plain : Blowfish
plain = record {
  Cipher = Unit;
  base64_decode_raw = λ src. ok src;
  new_salted_cipher = λ key salt. ok tt;
  expand_key = λ key c. c;
  encrypt = λ c block. block;
  length-encrypt = λ c block e. e;
}

abbrev sample : Hashed
sample = record {
  hash = replicate 31 b'x';
  salt = replicate 22 b'y';
  cost = 12;
  major = b'2';
  minor = b'a';
}

sample-IsPrintable : IsPrintable sample
sample-IsPrintable = record {
  salt_size = refl;
  hash_size = refl;
  cost_low = omega arith;
  cost_high = omega arith;
  known = omega arith;
  minor_set = λ e. omega arith;
  minor_plain = λ e. omega arith;
}

new_from_hash-hash_example : new_from_hash (hash sample) ≡ ok sample
new_from_hash-hash_example = new_from_hash-hash sample sample-IsPrintable

-- The password `pw` with cost 0, which is raised to 10.
abbrev made : Hashed
made = record {
  hash = base64_encode (take max_crypted_hash_size (encrypt_blocks plain tt magic_cipher_data));
  salt = det_salt;
  cost = 10;
  major = major_version;
  minor = minor_version;
}

generated : generate_from_password plain (b'p' ∷ b'w' ∷ []) (pos 0) ≡ ok (hash made)
unfolding generate_from_password new_from_password bcrypt check_cost raise_cost
    expensive_blowfish_setup base64_decode
generated = refl

generate_from_password-compare_example :
    (compare_hash_and_password plain (hash made) (b'p' ∷ b'w' ∷ []) ≡ ok tt)
    × (cost (hash made) ≡ check_cost (raise_cost (pos 0)))
generate_from_password-compare_example =
    generate_from_password-compare plain (b'p' ∷ b'w' ∷ []) (pos 0) (hash made) generated
