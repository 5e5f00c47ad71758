-- ===== src/Tx.antt =====
-- src/tx.c: the one transaction that a super block may have in progress.
use test_fs.Prelude.{Bool, true, false}
use test_fs.World.{
  TxType, tx_none, tx_write, tx_create, tx_rm, tx_umount, Cmd, ◌>>=◌, ◌>>◌, assert, get_fs, set_fs,
}
use test_fs.Platform.{Platform}

abbrev pub tx_eq : TxType → TxType → Bool
tx_eq tx_none tx_none = true
tx_eq tx_write tx_write = true
tx_eq tx_create tx_create = true
tx_eq tx_rm tx_rm = true
tx_eq tx_umount tx_umount = true
tx_eq _ _ = false

module _ ⦃p : Platform⦄ where
  -- testfs_tx_start
  unfoldable pub start : TxType → Cmd (Unit {0})
  start type = do
    s ← get_fs
    assert (tx_eq s.tx_in_progress tx_none)
    set_fs (record s { tx_in_progress = type })

  -- testfs_tx_commit
  unfoldable pub commit : TxType → Cmd (Unit {0})
  commit type = do
    s ← get_fs
    assert (tx_eq s.tx_in_progress type)
    set_fs (record s { tx_in_progress = tx_none })
