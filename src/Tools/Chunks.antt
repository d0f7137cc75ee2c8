-- ===== src/Tools/Chunks.antt =====
-- How a ranged transfer cuts a file into chunks (tools/ranged_download.go): `rangedTransfer.run`
-- and `transferChunk`. A chunk is the bytes from its start up to and with its end.
-- Sizes and indices are values of an int64 that are not negative.
pub mod Exact
pub mod Laws
use polka.Base.{ℕ, ◌+◌, ◌-◌, ◌*◌, ◌^◌, min}
use polka.Base.Int.{ℤ, pos, negsuc, int64, quotient, decrement, least}

-- `t.chunks`: the sum may wrap around; a size of 0, which Go does not divide by, is not meant
unfoldable pub chunk_count : ℕ → ℕ → ℤ
chunk_count total size = quotient (int64 (total + size + (2 ^ 64 - 1))) size

-- `start` of `transferChunk`
unfoldable pub chunk_start : ℕ → ℕ → ℤ
chunk_start size index = int64 (index * size)

-- `end` of `transferChunk`
unfoldable pub chunk_end : ℕ → ℕ → ℕ → ℤ
chunk_end total size index = decrement (least (int64 (index * size + size)) total)

-- the number of connections that `run` starts; the first one is started whatever `workers` is
unfoldable pub worker_count : ℕ → ℤ → ℕ → ℕ
worker_count connections (pos chunks) slots = 1 + (min connections (min chunks (slots + 1)) - 1)
worker_count connections (negsuc chunks) slots = 1
