-- ===== src/Object/Tree/Codec/Padded.antt =====
-- Payloads of one tree that differ in the bytes of the count.
use zonegit.Base.{ℕ, ◌+◌, ◌<◌, ◌≡◌, ◌≢◌, refl, arith, ◌∷◌, Bytes, ok}
use zonegit.Object.Tree.Codec.{uvarint, uvarint_loop, decode_counted, decode_tree, tree_version}

uvarint-short : (n : ℕ) (rest : Bytes) → n < 128 → uvarint (n ∷ rest) ≡ ok (n, rest)
unfolding uvarint uvarint_loop
uvarint-short n rest h = ground (arith, h)

uvarint-padded : (n : ℕ) (rest : Bytes) → n < 128 → uvarint ((n + 128) ∷ 0 ∷ rest) ≡ ok (n, rest)
unfolding uvarint uvarint_loop
uvarint-padded n rest h = ground (arith, h)

-- A payload whose count takes one byte has a twin of one byte more, on which `decode_tree` does the
-- same: it does not ask that a count be written in the shortest way.
pub decode_tree-padded :
    (n : ℕ) (rest : Bytes)
    → n < 128
    → (decode_tree (tree_version ∷ (n + 128) ∷ 0 ∷ rest) ≡ decode_tree (tree_version ∷ n ∷ rest))
      × ((tree_version ∷ (n + 128) ∷ 0 ∷ rest) ≢ (tree_version ∷ n ∷ rest))
unfolding decode_tree decode_counted
decode_tree-padded n rest h =
    (rw (uvarint-short n rest h, uvarint-padded n rest h) refl, λ e. ground (arith, e))
