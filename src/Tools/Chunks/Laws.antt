-- ===== src/Tools/Chunks/Laws.antt =====
-- The chunks of a file whose size leaves room for one more chunk in an int64
-- (tools/ranged_download.go).
use polka.Base.{ℕ, suc, ◌+◌, ◌-◌, ◌*◌, ◌/◌, ◌≤◌, ◌<◌, min, ◌≡◌, arith, ◌↔◌, ◌⊎◌, inl, inr, ◌^◌}
use polka.Base.Int.{
  pos, int64, quotient, decrement, least, int64_small, int64_wrapped, decrement-pos, is_below,
  at_most, at_least, is_below-pos, at_most-pos, at_least-pos,
}
use polka.Base.{true, ap, sym, ◌∙◌}
use polka.Tools.Chunks.{chunk_count, chunk_start, chunk_end}
use polka.Tools.Chunks.Exact.{
  exact_count, exact_start, exact_end, index_in_file, byte_in_exact, exact_adjoin,
}

-- the end of chunk 0 does not wrap around, whatever the size of the file
pub chunk_end-first :
    (total size : ℕ)
    → 0 < size
    → size < 2 ^ 63
    → 0 < total
    → chunk_end total size 0 ≡ pos (exact_end total size 0)
unfolding chunk_end exact_end exact_start
chunk_end-first total size positive small some_bytes =
    ap (λ z. decrement (least z total)) (int64_small (0 * size + size) (omega arith))
    ∙ decrement-pos (min (0 * size + size) total) (omega arith)

module _ (total size : ℕ) (positive : 0 < size) where
  -- within the bound, nothing that Go computes for a chunk that is claimed wraps around
  module _ (small : total + size ≤ 2 ^ 63) where
    chunk_count-exact : chunk_count total size ≡ pos (exact_count total size)
    unfolding chunk_count exact_count
    chunk_count-exact =
        let sum : total + size + (2 ^ 64 - 1) ≡ total + size - 1 + 2 ^ 64 = omega arith in
        ap (λ n. quotient (int64 n) size) sum
        ∙ ap (λ z. quotient z size) (int64_wrapped (total + size - 1) (omega arith))

    start_in_file : (i : ℕ) → i < exact_count total size → exact_start size i < total
    start_in_file i = (index_in_file total size positive i).0

    chunk_start-exact :
        (i : ℕ) → exact_start size i ≤ total → chunk_start size i ≡ pos (exact_start size i)
    unfolding chunk_start exact_start
    chunk_start-exact i h = int64_small (i * size) (omega arith)

    chunk_end-exact :
        (i : ℕ) → exact_start size i < total → chunk_end total size i ≡ pos (exact_end total size i)
    unfolding chunk_end exact_end exact_start
    chunk_end-exact i h =
        ap (λ z. decrement (least z total)) (int64_small (i * size + size) (omega arith))
        ∙ decrement-pos (min (i * size + size) total) (omega arith)

    -- If a chunk has at least one byte and the sizes of the file and of a chunk add up to no more
    -- than 2^63, every byte of the file lies in the chunk with the index that division gives, and in
    -- no other chunk that is claimed.
    pub byte_in_chunk :
        (b i : ℕ)
        → b < total
        → ((is_below i (chunk_count total size) ≡ true)
            × (at_most (chunk_start size i) b ≡ true)
            × (at_least (chunk_end total size i) b ≡ true))
          ↔ (i ≡ b / size)
    byte_in_chunk b i h = (λ (c, lo, hi). found c lo hi, held)
      where
        claimed : (is_below i (chunk_count total size) ≡ true) ↔ (i < exact_count total size)
        claimed = is_below-pos i (exact_count total size) (chunk_count total size) chunk_count-exact

        starts :
            exact_start size i < total
            → (at_most (chunk_start size i) b ≡ true) ↔ (exact_start size i ≤ b)
        starts l =
            at_most-pos b (exact_start size i) (chunk_start size i)
              (chunk_start-exact i (omega arith))

        ends :
            exact_start size i < total
            → (at_least (chunk_end total size i) b ≡ true) ↔ (b ≤ exact_end total size i)
        ends l =
            at_least-pos b (exact_end total size i) (chunk_end total size i) (chunk_end-exact i l)

        found :
            is_below i (chunk_count total size) ≡ true
            → at_most (chunk_start size i) b ≡ true
            → at_least (chunk_end total size i) b ≡ true
            → i ≡ b / size
        found c lo hi =
            let l = start_in_file i (claimed.0 c) in
            (byte_in_exact total size positive b i h).0
              (claimed.0 c, (starts l).0 lo, (ends l).0 hi)

        held :
            i ≡ b / size
            → (is_below i (chunk_count total size) ≡ true)
              × (at_most (chunk_start size i) b ≡ true)
              × (at_least (chunk_end total size i) b ≡ true)
        held e =
            let (c, lo, hi) = (byte_in_exact total size positive b i h).1 e in
            let l = start_in_file i c in (claimed.1 c, (starts l).1 lo, (ends l).1 hi)

    -- If a chunk has at least one byte and the sizes of the file and of a chunk add up to no more
    -- than 2^63, a chunk that is not the last one is followed by one that begins right behind its
    -- end; the last chunk ends with the last byte of the file.
    pub chunks_adjoin :
        (i : ℕ)
        → is_below i (chunk_count total size) ≡ true
        → (n : ℕ) × (chunk_end total size i ≡ pos n)
          × (((is_below (suc i) (chunk_count total size) ≡ true)
                × (chunk_start size (suc i) ≡ pos (n + 1)))
              ⊎ ((chunk_count total size ≡ pos (suc i)) × (n + 1 ≡ total)))
    chunks_adjoin i c =
        let below = λ (j : ℕ).
          is_below-pos j (exact_count total size) (chunk_count total size) chunk_count-exact in
        let d = (below i).0 c in
        (
          exact_end total size i,
          chunk_end-exact i (start_in_file i d),
          elim (exact_adjoin total size positive i d) [
            | inl (l, e) ↦ inl (
              (below (suc i)).1 l,
              chunk_start-exact (suc i) (omega (arith, start_in_file (suc i) l)) ∙ ap pos (sym e),
            )
            | inr (l, e) ↦ inr (chunk_count-exact ∙ ap pos (sym l), e)
          ],
        )
