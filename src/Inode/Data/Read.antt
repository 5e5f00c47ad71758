-- ===== src/Inode/Data/Read.antt =====
-- `testfs_read_data` of src/inode.c, alone and after `testfs_write_data`.
use test_fs.Prelude.{
  ℕ, zero, suc, ◌+◌, ◌-◌, ◌*◌, ◌/◌, ◌%◌, ◌^◌, ◌≤◌, ◌<◌, ◌≡◌, ◌≢◌, sym, ◌∙◌, ap, ap₂, List, [], ◌++◌,
  arith, length, get_or, length-append, get_or-append_left, get_or-append_right, list_ext,
}
use native.Mathlib.Decide.{dec_lt, dec_le}
use test_fs.Bytes.{Byte, max_int, slice}
use test_fs.Bytes.Laws.{length-slice, get_or-slice}
use test_fs.Bitmap.{Bitmap, nr_allocated}
use test_fs.Platform.{Platform}
use test_fs.World.{World, Inode, done}
use test_fs.Block.Laws.{block_at, length-block_at}
use test_fs.Inode.File.{read_from, read_data, write_data}
use test_fs.Inode.Map.{phys, IsMapped}
use test_fs.Inode.Map.Get.{get_block-Got, is_pos_of, not_neg_of, phys-small}
use test_fs.Inode.Data.Bytes.{max_size, byte_at}
use test_fs.Inode.Data.Write.{write_data-Written, le→leb, lt→leb, le_int_lem}

module _ ⦃p : Platform⦄ where
  -- `out` holds the bytes of the file from `start` on.
  abbrev pub Holds : Inode → World p.Dev → ℕ → List Byte → Type 0
  Holds i w start out = (x : ℕ) → x < length out → get_or out x 0 ≡ byte_at i w (start + x)

  -- One more chunk of the block that follows.
  Holds-append :
      (i : Inode) (w : World p.Dev) (start o n l : ℕ) (out block : List Byte)
      → Holds i w start out
      → block ≡ block_at w (phys i w l)
      → l * 512 + o ≡ start + length out
      → o + n ≤ 512
      → (length (out ++ slice block o n) ≡ length out + n)
        × Holds i w start (out ++ slice block o n)
  Holds-append i w start o n l out block held e at fits = (
    total,
    λ x h. elim (dec_lt x (length out)) [
      | yes b ↦ get_or-append_left out (slice block o n) x 0 b ∙ held x b
      | no g ↦
          get_or-append_right out (slice block o n) x 0 (omega arith)
          ∙ get_or-slice block o n (x - length out) (omega (arith, total))
          ∙ ap₂ (λ b k. get_or b k 0) e (place x (omega arith) (omega (arith, total)))
          ∙ ap (λ k. get_or (block_at w (phys i w k)) ((start + x) % 512) 0)
              (in_block x (omega arith) (omega (arith, total)))
    ],
  )
    where
      total : length (out ++ slice block o n) ≡ length out + n
      total = omega (
        arith,
        length-append out (slice block o n),
        length-slice block o n,
        ap length e,
        length-block_at w (phys i w l),
      )

      place :
          (x : ℕ) → length out ≤ x → x < length out + n → o + (x - length out) ≡ (start + x) % 512
      place x lo hi = omega arith

      in_block : (x : ℕ) → length out ≤ x → x < length out + n → l ≡ (start + x) / 512
      in_block x lo hi = omega arith

  module _ {i : Inode} {w : World p.Dev} {free : Bitmap} (m : IsMapped i w free) (start size : ℕ)
      (fits : start + size ≤ max_size)
      (mapped : (q : ℕ) → start ≤ q → q < start + size → phys i w (q / 512) ≢ 0) where
    read_from-Holds :
        (fuel o : ℕ) (out : List Byte)
        → Holds i w start out
        → length out < size
        → o ≡ (start + length out) % 512
        → (size - length out + o) / 512 < fuel
        → (r : List Byte) × (read_from fuel i start size o out w ≡ done (0, r) w)
          × (length r ≡ size)
          × Holds i w start r
    unfolding read_from
    read_from-Holds zero o out held some_left at rounds = absurd (omega arith)
    read_from-Holds (suc fuel) o out held some_left at rounds =
        let l : ℕ = (start + length out) / 512 in
        let high : l < 132 = omega arith in
        let (got, run, g) = get_block-Got m p.stack l high in
        let used : phys i w l ≢ 0 = mapped (start + length out) (omega arith) (omega arith) in
        let small : got.0 < 2 ^ 31 = omega (arith, g.number, phys-small m l high) in
        let there : got.0 ≢ 0 = λ z. used (sym g.number ∙ z) in
        elim (dec_le (size - length out) (512 - o)) [
          | yes short ↦
              let (total, all) =
                Holds-append i w start o (size - length out) l out got.1 held (g.buffer used)
                  (omega arith) (omega arith) in
              (
                out ++ slice got.1 o (size - length out),
                rw (
                  run,
                  is_pos_of got.0 there small,
                  not_neg_of got.0 small,
                  le→leb (size - length out) (512 - o) short,
                ),
                omega (arith, total),
                all,
              )
          | no long ↦
              let (total, all) =
                Holds-append i w start o (512 - o) l out got.1 held (g.buffer used) (omega arith)
                  (omega arith) in
              let (r, rest, done_size, held') =
                read_from-Holds fuel 0 (out ++ slice got.1 o (512 - o)) all (omega (arith, total))
                  (omega (arith, total)) (omega (arith, total)) in
              (
                r,
                rw
                    (
                      run,
                      is_pos_of got.0 there small,
                      not_neg_of got.0 small,
                      lt→leb (size - length out) (512 - o) (omega arith),
                    )
                    rest,
                done_size,
                held',
              )
        ]

    -- Within the size of the file and over mapped blocks, `testfs_read_data` of at least one byte
    -- returns 0 and exactly the bytes of the file in that range, and changes nothing.
    pub read_data-Holds :
        0 < size
        → start + size ≤ i.din.i_size
        → i.din.i_size < 2 ^ 31
        → (r : List Byte) × (read_data i start size w ≡ done (0, r) w)
          × (length r ≡ size)
          × Holds i w start r
    unfolding read_data
    read_data-Holds some_left inside bounded =
        let (r, run, total, held) =
          read_from-Holds (size / 512 + 2) (start % 512) [] (λ x h. absurd (omega arith)) some_left
            (omega arith) (omega arith) in
        (r, rw (le_int_lem (start + size) i.din.i_size inside bounded) run, total, held)

  max_int_lem : (a b : ℕ) → a < 2 ^ 31 → b < 2 ^ 31 → b ≤ max_int a b
  max_int_lem a b ha hb = ground arith

  max_int_bound : (a b : ℕ) → a < 2 ^ 31 → b < 2 ^ 31 → max_int a b < 2 ^ 31
  max_int_bound a b ha hb = ground arith

  -- `testfs_write_data` succeeds and `testfs_read_data` of the same range then returns the buffer:
  -- for every buffer that is not empty, at every offset up to the size of the file, aligned or
  -- not, over direct and indirect blocks, with room for it in the freemap.
  pub read_data-write_data :
      {i : Inode} {w : World p.Dev} {free : Bitmap} (start : ℕ) (buf : List Byte)
      → IsMapped i w free
      → 0 < length buf
      → start ≤ i.din.i_size
      → i.din.i_size < 2 ^ 31
      → start + length buf ≤ max_size
      → nr_allocated free + 2 * (length buf / 512 + 2) ≤ 7680
      → (j : Inode) × (v : World p.Dev) × (write_data i start buf w ≡ done (0, j) v)
        × (read_data j start (length buf) v ≡ done (0, buf) v)
  read_data-write_data {i} start buf m some_left inside bounded fits room =
      let (j, v, run, r) = write_data-Written start buf m some_left inside bounded fits room in
      let small : start + length buf < 2 ^ 31 = omega arith in
      let (got, back, size, held) =
        read_data-Holds r.mapped start (length buf) fits
          (λ q lo hi. (r.inside q (omega arith) hi).0) some_left
          (omega (arith, r.size, max_int_lem i.din.i_size (start + length buf) bounded small))
          (omega (arith, r.size, max_int_bound i.din.i_size (start + length buf) bounded small)) in
      let same : got ≡ buf = list_ext got buf 0 size (λ x h.
        held x h
        ∙ (r.inside (start + x) (omega arith) (omega (arith, size))).1
        ∙ ap (λ k. get_or buf k 0) (back_to start x)) in
      (j, v, run, back ∙ ap (λ b. done (0, b) v) same)
    where
      back_to : (a b : ℕ) → a + b - a ≡ b
      back_to a b = omega arith
