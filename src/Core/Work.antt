-- ===== src/Core/Work.antt =====
-- internal/core/block.go: the hash of a header, proof of work, and one worker's search for a nonce.
pub mod Target
use Prim.Native.Nat.{bit_and}
use entcoin.Base.{
  ℕ, zero, suc, ◌+◌, ◌-◌, ◌/◌, Bool, false, ◌&&◌, not, Option, none, some, [], ◌∷◌, ◌++◌, Bytes,
  ltb, leb, eqb, Result, ok, err, if◌then◌else◌,
}
use entcoin.Core.Model.{max_uint64, network_id, Block}
use entcoin.Core.Encoding.{
  Crypto, enc_uint8, enc_uint32, enc_uint64, enc_int64, enc_string, decode_hash, hash_hex,
}

-- `for mask := 0x80; mask != 0 && b&mask == 0; mask >>= 1`, eight rounds at most
unfoldable pub mask_zeros : ℕ → ℕ → ℕ → ℕ
mask_zeros zero mask b = 0
mask_zeros (suc rounds) mask b =
    let more = mask_zeros rounds (mask / 2) b in
    if not (eqb mask 0) && eqb (bit_and b mask) 0 then more + 1 else 0

unfoldable pub leading_zero_bits : Bytes → ℕ
unfolding mask_zeros
leading_zero_bits [] = 0
leading_zero_bits (b ∷ value) = if eqb b 0 then 8 + leading_zero_bits value else mask_zeros 8 0x80 b

unfoldable pub header_bytes : Block → Bytes
unfolding enc_string enc_uint32 enc_uint64 enc_int64 enc_uint8
header_bytes b =
    enc_string network_id
    ++ (enc_uint32 b.version
        ++ (enc_uint64 b.height
            ++ (enc_int64 b.timestamp
                ++ (enc_string b.previous_hash
                    ++ (enc_string b.merkle_root
                        ++ (enc_uint8 b.difficulty ++ enc_uint64 b.nonce))))))

abbrev pub enough_zeros : Result Bytes → ℕ → Bool
enough_zeros (err e) difficulty = false
enough_zeros (ok decoded) difficulty = leb difficulty (leading_zero_bits decoded)

unfoldable pub has_valid_work : Block → Bool
unfolding decode_hash leading_zero_bits
has_valid_work b = enough_zeros (decode_hash b.hash) b.difficulty

module _ ⦃c : Crypto⦄ where
  unfoldable pub compute_hash : Block → Bytes
  unfolding header_bytes hash_hex
  compute_hash b = hash_hex (header_bytes b)

  -- `candidate.Nonce = nonce; candidate.Hash = candidate.ComputeHash()`
  unfoldable pub with_nonce : Block → ℕ → Block
  unfolding compute_hash
  with_nonce block nonce =
      let candidate : Block = record block { nonce = nonce } in
      record candidate { hash = compute_hash candidate }

  -- One worker of `MineBlockWithWorkers`, for at most `rounds` nonces and not cancelled; `none` when
  -- the next nonce would wrap or the rounds are used up.
  unfoldable pub mine_worker : ℕ → Block → ℕ → ℕ → Option Block
  unfolding with_nonce has_valid_work
  mine_worker zero block nonce step = none
  mine_worker (suc rounds) block nonce step =
      let candidate = with_nonce block nonce in
      let rest =
        (let more = mine_worker rounds block (nonce + step) step in
          if ltb (max_uint64 - step) nonce then none else more) in
      if has_valid_work candidate then some candidate else rest
