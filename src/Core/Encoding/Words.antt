-- ===== src/Core/Encoding/Words.antt =====
-- The encoder of internal/core/encoding.go loses nothing: what it writes can be read back, whatever
-- follows.
use entcoin.Base.{
  ℕ, ◌/◌, ◌%◌, ◌^◌, ◌<◌, ◌≡◌, refl, ◌∙◌, sym, Bool, true, false, List, [], ◌∷◌, ◌++◌, Bytes, length,
  arith, append_assoc,
}
use entcoin.Core.Encoding.{enc_uint8, enc_bool, enc_uint32, enc_uint64, enc_bytes}

-- Two texts that agree and begin with parts of one length have equal parts.
pub split_append {ℓ} :
    {A : Type ℓ} (xs ys r s : List A)
    → length xs ≡ length ys
    → (xs ++ r) ≡ (ys ++ s)
    → (xs ≡ ys) × (r ≡ s)
split_append [] [] r s h e = (refl, e)
split_append [] (y ∷ ys) r s h e = absurd (omega arith)
split_append (x ∷ xs) [] r s h e = absurd (omega arith)
split_append (x ∷ xs) (y ∷ ys) r s h e =
    let ih = split_append xs ys r s (omega arith) (cc) in (cc (ih.0), ih.1)

pub enc_uint32-injective : (v w : ℕ) → v < 2 ^ 32 → w < 2 ^ 32 → enc_uint32 v ≡ enc_uint32 w → v ≡ w
unfolding enc_uint32
enc_uint32-injective v w hv hw e = ground arith

pub length-enc_uint32 : (v : ℕ) → length (enc_uint32 v) ≡ 4
unfolding enc_uint32
length-enc_uint32 v = refl

enc_uint32-mod : (v : ℕ) → enc_uint32 v ≡ enc_uint32 (v % 2 ^ 32)
unfolding enc_uint32
enc_uint32-mod v = ground arith

pub enc_uint64-injective : (v w : ℕ) → v < 2 ^ 64 → w < 2 ^ 64 → enc_uint64 v ≡ enc_uint64 w → v ≡ w
unfolding enc_uint64
enc_uint64-injective v w hv hw e =
    let parts =
      split_append (enc_uint32 (v / 2 ^ 32)) (enc_uint32 (w / 2 ^ 32)) (enc_uint32 v) (enc_uint32 w)
        refl e in
    let high : v / 2 ^ 32 ≡ w / 2 ^ 32 =
      enc_uint32-injective (v / 2 ^ 32) (w / 2 ^ 32) (omega arith) (omega arith) parts.0 in
    let low : v % 2 ^ 32 ≡ w % 2 ^ 32 =
      enc_uint32-injective (v % 2 ^ 32) (w % 2 ^ 32) (omega arith) (omega arith)
        (sym (enc_uint32-mod v) ∙ parts.1 ∙ enc_uint32-mod w) in
    omega arith

pub length-enc_uint64 : (v : ℕ) → length (enc_uint64 v) ≡ 8
unfolding enc_uint64
length-enc_uint64 v = refl

module _ (r s : Bytes) where
  pub enc_uint32_prefix :
      (v w : ℕ)
      → v < 2 ^ 32
      → w < 2 ^ 32
      → (enc_uint32 v ++ r) ≡ (enc_uint32 w ++ s)
      → (v ≡ w) × (r ≡ s)
  enc_uint32_prefix v w hv hw e =
      let parts =
        split_append _ _ r s (omega (arith, length-enc_uint32 v, length-enc_uint32 w)) e in
      (enc_uint32-injective v w hv hw parts.0, parts.1)

  pub enc_uint64_prefix :
      (v w : ℕ)
      → v < 2 ^ 64
      → w < 2 ^ 64
      → (enc_uint64 v ++ r) ≡ (enc_uint64 w ++ s)
      → (v ≡ w) × (r ≡ s)
  enc_uint64_prefix v w hv hw e =
      let parts =
        split_append _ _ r s (omega (arith, length-enc_uint64 v, length-enc_uint64 w)) e in
      (enc_uint64-injective v w hv hw parts.0, parts.1)

  pub enc_bool_prefix : (a b : Bool) → (enc_bool a ++ r) ≡ (enc_bool b ++ s) → (a ≡ b) × (r ≡ s)
  unfolding enc_bool
  enc_bool_prefix true true e = (refl, cc)
  enc_bool_prefix true false e = absurd (ground arith)
  enc_bool_prefix false true e = absurd (ground arith)
  enc_bool_prefix false false e = (refl, cc)

  pub enc_uint8_prefix :
      (v w : ℕ) → v < 256 → w < 256 → (enc_uint8 v ++ r) ≡ (enc_uint8 w ++ s) → (v ≡ w) × (r ≡ s)
  unfolding enc_uint8
  enc_uint8_prefix v w hv hw e = ground arith

-- A length-prefixed value is read back, whatever follows.
pub enc_bytes_prefix :
    (r s v w : Bytes)
    → length v < 2 ^ 64
    → length w < 2 ^ 64
    → (enc_bytes v ++ r) ≡ (enc_bytes w ++ s)
    → (v ≡ w) × (r ≡ s)
unfolding enc_bytes
enc_bytes_prefix r s v w hv hw e =
    let outer = enc_uint64_prefix (v ++ r) (w ++ s) (length v) (length w) hv hw (
      sym (append_assoc (enc_uint64 (length v)) v r)
      ∙ e
      ∙ append_assoc (enc_uint64 (length w)) w s) in
    split_append v w r s outer.0 outer.1
