-- ===== src/Tests/Flushes.antt =====
-- The theorem on flushing the checksums, where the device takes the second write first.
use test_fs.Prelude.{ℕ, ◌≡◌, inl, inr, true, false, List, [], ◌∷◌}
use test_fs.Bytes.Laws.{length-zero_bytes}
use test_fs.Platform.Ram.{Ram, ram}
use test_fs.World.{World, done}
use test_fs.Block.Laws.{block_at}
use test_fs.Csum.{flush_csum}
use test_fs.Alternate.Flight.{Write, Flight, wait, flush_csum_async}
use test_fs.Alternate.Flight.Order.{Some, TakesAll}
use test_fs.Alternate.Flight.Flush.{flush_csum_async-flush_csum}
use test_fs.Tests.Witnesses.{world}

abbrev swapped : List Write → List Write
swapped [] = []
swapped (x ∷ []) = x ∷ []
swapped (x ∷ y ∷ xs) = y ∷ x ∷ xs

swapped-TakesAll : TakesAll swapped
swapped-TakesAll P [] = (λ h. h, λ s. s)
swapped-TakesAll P (x ∷ []) = (λ h. h, λ s. s)
swapped-TakesAll P (x ∷ y ∷ xs) = (λ hs. (hs.1.0, (hs.0, hs.1.1)), turn)
  where
    turn : Some P (x ∷ y ∷ xs) → Some P (y ∷ x ∷ xs)
    turn (inl h) = inr (inl h)
    turn (inr (inl h)) = inl h
    turn (inr (inr s)) = inr (inr s)

abbrev dirty_world : World Ram
dirty_world = record world {
  fs = record (world.fs) { csum_block_dirty = true ∷ false ∷ true ∷ [] };
}

flush_csum_async-flush_csum_example :
    (f : Flight Ram) × (v : World Ram) × (flush_csum_async ⦃p = ram⦄
        (record { world = dirty_world; pending = [] })
      ≡ done tt f)
    × (flush_csum ⦃p = ram⦄ dirty_world ≡ done tt v)
    × ((b : ℕ) → block_at ⦃p = ram⦄ (wait ⦃p = ram⦄ swapped f) b ≡ block_at ⦃p = ram⦄ v b)
    × ((wait ⦃p = ram⦄ swapped f).fs ≡ v.fs)
    × ((wait ⦃p = ram⦄ swapped f).inode_hash_table ≡ v.inode_hash_table)
flush_csum_async-flush_csum_example =
    flush_csum_async-flush_csum ⦃p = ram⦄ swapped dirty_world swapped-TakesAll
      (length-zero_bytes 30720)
