-- ===== src/Core/Merkle.antt =====
-- internal/core/block.go: the Merkle root of a block's transactions.
use entcoin.Base.{
  ℕ, zero, suc, Option, none, some, List, [], ◌∷◌, ◌++◌, Bytes, length, Result, ok, err, ◌>>=◌,
}
use entcoin.Core.Model.{Transaction}
use entcoin.Core.Encoding.{Crypto, hex_encode, decode_hash}

unfoldable pub decode_ids : List Transaction → Result (List Bytes)
unfolding decode_hash
decode_ids [] = ok []
decode_ids (tx ∷ rest) = do
  decoded ← decode_hash tx.id
  level ← decode_ids rest
  ok (decoded ∷ level)

module _ ⦃c : Crypto⦄ where
  -- One round: a last node with no partner is paired with itself.
  unfoldable pub next_level : List Bytes → List Bytes
  next_level [] = []
  next_level (left ∷ []) = c.sha256 (left ++ left) ∷ []
  next_level (left ∷ right ∷ level) = c.sha256 (left ++ right) ∷ next_level level

  -- `for len(level) > 1`, with fuel; `none` when the fuel runs out.
  unfoldable pub merkle_loop : ℕ → List Bytes → Option Bytes
  unfolding next_level
  merkle_loop fuel [] = none
  merkle_loop fuel (root ∷ []) = some root
  merkle_loop zero (a ∷ b ∷ level) = none
  merkle_loop (suc fuel) (a ∷ b ∷ level) = merkle_loop fuel (next_level (a ∷ b ∷ level))

  abbrev root_text : Option Bytes → Bytes
  root_text none = []
  root_text (some root) = hex_encode root

  abbrev root_of : Result (List Bytes) → Bytes
  root_of (err e) = []
  root_of (ok level) = root_text (merkle_loop (length level) level)

  unfoldable pub merkle_root : List Transaction → Bytes
  unfolding decode_ids merkle_loop hex_encode
  merkle_root [] = hex_encode (c.sha256 [])
  merkle_root (tx ∷ rest) = root_of (decode_ids (tx ∷ rest))
