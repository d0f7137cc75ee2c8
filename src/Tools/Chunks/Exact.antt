-- ===== src/Tools/Chunks/Exact.antt =====
-- The arithmetic of the chunks of tools/ranged_download.go on numbers without a bound.
use polka.Base.{
  ℕ, suc, ◌+◌, ◌-◌, ◌*◌, ◌/◌, ◌≤◌, ◌<◌, min, ◌≡◌, arith, ◌↔◌, ◌⊎◌, inl, inr, ltb, ltb→lt,
  Bool-cases,
}

-- the same numbers without a bound
unfoldable pub exact_count : ℕ → ℕ → ℕ
exact_count total size = (total + size - 1) / size

unfoldable pub exact_start : ℕ → ℕ → ℕ
exact_start size index = index * size

unfoldable pub exact_end : ℕ → ℕ → ℕ → ℕ
exact_end total size index = min (exact_start size index + size) total - 1

module _ (total size : ℕ) (positive : 0 < size) where
  -- a chunk index is in range exactly when its first byte lies in the file
  pub index_in_file : (i : ℕ) → (i < exact_count total size) ↔ (exact_start size i < total)
  unfolding exact_count exact_start
  index_in_file i = ((λ h. grind arith), (λ h. grind arith))

  -- an index whose chunk holds the byte is the one that division gives
  chunk_of_byte : (b i : ℕ) → exact_start size i ≤ b → b < exact_start size i + size → i ≡ b / size
  unfolding exact_start
  chunk_of_byte b i lo hi = grind arith

  byte_of_chunk :
      (b i : ℕ) → i ≡ b / size → (exact_start size i ≤ b) × (b < exact_start size i + size)
  unfolding exact_start
  byte_of_chunk b i e = (grind arith, grind arith)

  pub byte_in_exact :
      (b i : ℕ)
      → b < total
      → ((i < exact_count total size) × (exact_start size i ≤ b) × (b ≤ exact_end total size i))
        ↔ (i ≡ b / size)
  unfolding exact_end
  byte_in_exact b i h =
      (λ (c, lo, hi). chunk_of_byte b i lo (omega arith), λ e. in_chunk (byte_of_chunk b i e))
    where
      in_chunk :
          (exact_start size i ≤ b) × (b < exact_start size i + size)
          → (i < exact_count total size) × (exact_start size i ≤ b) × (b ≤ exact_end total size i)
      in_chunk (lo, hi) = ((index_in_file i).1 (omega arith), lo, omega arith)

  exact_start-suc : (i : ℕ) → exact_start size (suc i) ≡ exact_start size i + size
  unfolding exact_start
  exact_start-suc i = grind arith

  -- from the last chunk on, there is nothing behind a chunk
  nothing_behind : (i : ℕ) → exact_count total size ≤ suc i → total ≤ exact_start size (suc i)
  unfolding exact_start exact_count
  nothing_behind i h = grind arith

  pub exact_adjoin :
      (i : ℕ)
      → i < exact_count total size
      → ((suc i < exact_count total size) × (exact_end total size i + 1 ≡ exact_start size (suc i)))
        ⊎ ((suc i ≡ exact_count total size) × (exact_end total size i + 1 ≡ total))
  unfolding exact_end
  exact_adjoin i h = elim (Bool-cases (ltb (suc i) (exact_count total size))) [
    | inl x ↦ inl (inner (ltb→lt (suc i) (exact_count total size) x))
    | inr x ↦ inr (last (ground arith))
  ]
    where
      inner :
          suc i < exact_count total size
          → (suc i < exact_count total size)
            × (exact_end total size i + 1 ≡ exact_start size (suc i))
      inner l = (l, grind (arith, (index_in_file (suc i)).0 l, exact_start-suc i))

      last :
          exact_count total size ≤ suc i
          → (suc i ≡ exact_count total size) × (exact_end total size i + 1 ≡ total)
      last l =
          (omega arith, grind (arith, (index_in_file i).0 h, exact_start-suc i, nothing_behind i l))
