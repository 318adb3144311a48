-- ===== src/Ingest/Bytes.antt =====
-- Little-endian numbers in a byte string, as `struct.unpack_from` reads them.
use clerk_san.Prelude.{List, [], drop, suc, take, zero, ℕ, ◌*◌, ◌+◌, ◌-◌, ◌∷◌}

-- The number in the first `width` bytes
unfoldable pub read_le : ℕ → List ℕ → ℕ
read_le zero archive = 0
read_le (suc width) [] = 0
read_le (suc width) (byte ∷ archive) = byte + 256 * read_le width archive

-- The field of `width` bytes at `offset`
unfoldable pub field : List ℕ → ℕ → ℕ → ℕ
unfolding read_le
field archive offset width = read_le width (drop offset archive)

-- `archive[start:end]`
unfoldable pub slice : List ℕ → ℕ → ℕ → List ℕ
slice archive start end = take (end - start) (drop start archive)
