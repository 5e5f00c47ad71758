-- ===== src/Tests.antt =====
-- Runs of the modelled code on a device in memory, and the theorems at concrete inputs.
mod Benches
mod Devices
mod Bits
mod Witnesses
mod Reactors
mod Inodes
mod Mount
mod Directories
mod Lines
mod Bulk
mod Flushes
mod NewEntries
mod Alternates
mod Names
mod Removals
use test_fs.Prelude.{
  ℕ, ◌+◌, ◌≡◌, refl, Bool, true, false, Option, none, some, List, [], ◌∷◌, ◌&&◌, ◌==◌,
  if◌then◌else◌, replicate, length,
}
use test_fs.Bytes.{Byte, CInt, neg, is_neg, slice, blit, get_int, set_int, zero_bytes}
use test_fs.Bitmap
use test_fs.Platform.{Platform}
use test_fs.Platform.Ram
use test_fs.Platform.Ram.{ram}
use test_fs.World.{
  World, Inode, Run, done, aborted, exhausted, Cmd, ◌>>=◌, ◌>>◌, pure, tx_none, get_state,
}
use test_fs.Block
use test_fs.Csum
use test_fs.Tx
use test_fs.Freemap
use test_fs.Super
use test_fs.Inode
use test_fs.Inode.Truncate
use test_fs.Inode.File
use test_fs.Inode.Table
use test_fs.Dir
use test_fs.Dir.{Text}
use test_fs.Dir.Remove
use test_fs.Dir.Create
use test_fs.Dir.Create.{Context}
use test_fs.Check

-- A device of zeros, before `mkfs`.
abbrev pub blank : World (Platform.Dev ram)
blank = record {
  dev = λ _ _. 0;
  fs = record {
    sb = record {
      inode_freemap_start = 0;
      block_freemap_start = 0;
      csum_table_start = 0;
      inode_blocks_start = 0;
      data_blocks_start = 0;
      modification_time = 0;
    };
    inode_freemap = none;
    block_freemap = none;
    tx_in_progress = tx_none;
    csum_table = [];
    csum_block_dirty = [];
  };
  inode_hash_table = λ _. [];
}

abbrev context : List Text → Context
context cmd = record { nargs = length cmd; cmd = cmd; cur_dir = none }

-- All that a command runs through.
run_all : {A : Type 0} → Cmd A → Option A
unfolding slice blit get_int set_int zero_bytes Bitmap.create Bitmap.new_bitmap Bitmap.mark_leftover
    Bitmap.alloc Bitmap.alloc_from Bitmap.take_bit Bitmap.find_clear Bitmap.translate Bitmap.isset
    Bitmap.mark Bitmap.unmark Bitmap.equal Bitmap.equal_from Bitmap.nr_allocated Bitmap.count_from
    Ram.read Ram.write Ram.write_one Ram.bytes_from Block.read_blocks Block.write_blocks
    Block.zero_blocks Tx.start Tx.commit Csum.xor_from Csum.put_csum Csum.write_csum
    Csum.calculate_csum Csum.verify_csum Freemap.write_inode_freemap Freemap.write_block_freemap
    Freemap.take_block Freemap.get_block_freemap Freemap.put_block_freemap Freemap.take_inode
    Freemap.get_inode_freemap Freemap.put_inode_freemap Freemap.alloc_block Freemap.free_block
    Super.encode_dsuper_block Super.decode_dsuper_block Super.new_layout Super.inode_hash_init
    Super.write_super_block Super.make_super_block Super.make_inode_freemap Super.make_block_freemap
    Super.make_csum_table Super.make_inode_blocks Super.load_freemap Super.init_super_block
    Super.all_empty Super.inode_hash_destroy Super.store_freemap Super.flush_super_block
    Inode.read_mapped Inode.get_block Inode.allocate_direct Inode.load_indirect Inode.allocate_slot
    Inode.allocate_indirect Inode.allocate_block Truncate.free_direct Truncate.free_slots
    Truncate.free_indirect Truncate.truncate_data File.read_from File.read_data File.undo_write
    File.store_block File.write_from File.write_data Table.encode_dinode Table.decode_dinode
    Table.find_in Table.remove_from Table.replace_in Table.update_chain Table.hash_find
    Table.hash_insert Table.hash_remove Table.hash_replace Table.load_inode Table.store_inode
    Table.with_inode Table.inode_to_block_nr Table.inode_to_block_offset Table.read_inode_block
    Table.write_inode_block Table.fetch_inode Table.get_inode Table.sync_indirect Table.sync_inode
    Table.put_inode Table.inode_get_size Table.inode_get_type Table.create_inode Table.remove_inode
    Dir.encode_dirent Dir.str_eq Dir.is_child Dir.read_name Dir.next_dirent Dir.find_from
    Dir.find_dirent Dir.name_from Dir.dir_name_to_inode_nr Dir.write_dirent Dir.spot_from
    Dir.fill_spot Dir.add_dirent Remove.allowed_from Remove.remove_dirent_allowed Remove.free_dirent
    Remove.remove_from Remove.remove_dirent Create.create_empty_dir Create.create_out
    Create.create_done Create.create_entry Create.create_in Create.create_file_or_dir
    Create.make_root_dir Create.change_dir Create.cmd_cd Create.create_from Create.cmd_create
    Create.cmd_rm Create.cmd_mkdir Create.leave_dir Create.cmd_mkfs Check.check_block
    Check.check_direct Check.check_slots Check.check_indirect Check.check_inode Check.check_entries
    Check.check_tree Check.cmd_checkfs
run_all m = elim (m blank) [ done a w ↦ some a | aborted ↦ none | exhausted ↦ none ]
