-- ===== src/World.antt =====
-- The state of testFS: the structs of include/super.h, include/inode.h and include/tx.h, and the
-- commands that read and change it. A command ends with a value and the next state; `aborted` is a
-- failed `assert`, EXIT, or an access through a dead pointer; `exhausted` is a loop out of fuel.
-- `malloc` and `calloc` succeed. A struct inode is known by its number: the hash table holds at most
-- one for each, and no other pointer to it outlives its reference count.
use test_fs.Prelude.{ℕ, Bool, true, false, Option, none, some, List}
use test_fs.Bytes.{Byte, CInt}
use test_fs.Bitmap.{Bitmap}
use test_fs.Platform.{Platform}

-- tx_type
pub data TxType : Type 0 where
  tx_none tx_write tx_create tx_rm tx_umount : TxType

-- struct dsuper_block
pub record DSuperBlock : Type 0 where
  pub inode_freemap_start : ℕ
  pub block_freemap_start : ℕ
  pub csum_table_start : ℕ
  pub inode_blocks_start : ℕ
  pub data_blocks_start : ℕ
  pub modification_time : ℕ

-- struct super_block. A freemap is `none` once it is freed; the checksum table is kept as bytes,
-- as the code writes it.
pub record SuperBlock : Type 0 where
  pub sb : DSuperBlock
  pub inode_freemap : Option Bitmap
  pub block_freemap : Option Bitmap
  pub tx_in_progress : TxType
  pub csum_table : List Byte
  pub csum_block_dirty : List Bool

-- The values of inode_type. A dinode read from a disk may hold any int there.
abbrev pub i_none : CInt
i_none = 0

abbrev pub i_file : CInt
i_file = 1

abbrev pub i_dir : CInt
i_dir = 2

-- NR_DIRECT_BLOCKS
abbrev pub nr_direct_blocks : ℕ
nr_direct_blocks = 4

-- NR_INDIRECT_BLOCKS, the ints of a block
abbrev pub nr_indirect_blocks : ℕ
nr_indirect_blocks = 128

-- struct dinode
pub record DInode : Type 0 where
  pub i_type : CInt
  pub i_size : CInt
  pub i_mod_time : CInt
  pub i_block_nr : List CInt
  pub i_indirect : CInt

-- struct inode, its flag bits I_FLAGS_DIRTY, I_FLAGS_INDIRECT_DIRTY and I_FLAGS_INDIRECT_LOADED
-- as fields. `din` is the field `in`.
pub record Inode : Type 0 where
  pub dirty : Bool
  pub indirect_dirty : Bool
  pub indirect_loaded : Bool
  pub din : DInode
  pub i_nr : ℕ
  pub i_count : ℕ
  pub indirect : List Byte

-- The device, the super block and the buckets of the inode hash table.
pub record World (D : Type 0) : Type 0 where
  pub dev : D
  pub fs : SuperBlock
  pub inode_hash_table : ℕ → List Inode

pub data Run (W A : Type 0) : Type 0 where
  done : A → W → Run W A
  aborted : Run W A
  exhausted : Run W A

module _ {W A B : Type 0} where
  abbrev pub continue : Run W A → (A → W → Run W B) → Run W B
  continue (done a w) k = k a w
  continue aborted k = aborted
  continue exhausted k = exhausted

module _ {W : Type 0} {A B : Type 0} where
  infixl 5 ◌>>=◌ ◌>>◌
  abbrev pub ◌>>=◌ : (W → Run W A) → (A → W → Run W B) → W → Run W B
  ◌>>=◌ m k w = continue (m w) k

  abbrev pub ◌>>◌ : (W → Run W A) → (W → Run W B) → W → Run W B
  ◌>>◌ m n w = continue (m w) (λ _. n)

module _ {W : Type 0} where
  abbrev pub pure : {A : Type 0} → A → W → Run W A
  pure = done

  abbrev pub abort : {A : Type 0} → W → Run W A
  abort w = aborted

  abbrev pub get_state : W → Run W W
  get_state w = done w w

  abbrev pub put_state : W → W → Run W (Unit {0})
  put_state w _ = done tt w

  -- assert(b)
  abbrev pub assert : Bool → W → Run W (Unit {0})
  assert true w = done tt w
  assert false w = aborted

  -- A pointer that must not be NULL.
  abbrev pub non_null : {A : Type 0} → Option A → W → Run W A
  non_null none w = aborted
  non_null (some a) w = done a w

module _ ⦃p : Platform⦄ where
  abbrev pub Cmd : Type 0 → Type 0
  Cmd A = World p.Dev → Run (World p.Dev) A

  -- The super block, and its update.
  abbrev pub get_fs : Cmd SuperBlock
  get_fs w = done w.fs w

  abbrev pub set_fs : SuperBlock → Cmd (Unit {0})
  set_fs s w = done tt (record w { fs = s })
