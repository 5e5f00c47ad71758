-- ===== src/Files.antt =====
-- The commands of src/file.c on the data of files. What cat and catr print is part of their value,
-- the lines with the size of an import or export are not. The host file of import is its content,
-- or none if it cannot be opened; `strtol` is a parameter.
pub mod Names
use test_fs.Prelude.{
  ℕ, zero, suc, ◌+◌, ◌-◌, ◌/◌, ◌%◌, Bool, Option, none, some, List, [], ◌∷◌, ◌++◌, not, ltb, ◌==◌,
  if◌then◌else◌, length, get_or, min, ◌||◌,
}
use test_fs.Bytes.{Byte, CInt, neg, is_neg, is_pos, div_round_up, slice, blit}
use test_fs.Platform.{Platform, block_size}
use test_fs.World.{
  Run, done, aborted, exhausted, i_file, i_dir, tx_write, Cmd, ◌>>=◌, ◌>>◌, pure, assert, non_null,
}
use test_fs.Tx
use test_fs.Csum.{einval}
use test_fs.Inode.File.{read_data, write_data}
use test_fs.Inode.Truncate.{truncate_data}
use test_fs.Inode.Table.{
  load_inode, with_inode, get_inode, put_inode, sync_inode, inode_get_size, inode_get_type,
}
use test_fs.Alternate.Flight.{Write, Flight, wait, write_data_alternate_async}
use test_fs.Dir.{Text, dot, enoent, is_child, next_dirent, dir_name_to_inode_nr}
use test_fs.Dir.Create.{Context, argument, create_file_or_dir}
use test_fs.Dir.Show.{c_string, newline}

-- -EISDIR
abbrev pub eisdir : CInt
eisdir = neg 21

module _ ⦃p : Platform⦄ where
  -- What `malloc` left in a buffer is not known: it repeats that of the stack.
  unfoldable pub heap_bytes : (rounds o : ℕ) → List Byte
  heap_bytes zero o = []
  heap_bytes (suc rounds) o = get_or p.stack (o % block_size) 0 ∷ heap_bytes rounds (o + 1)

  -- The common part of `cmd_cat` and `cmd_catr`: the content of a file as a string, on a line.
  unfoldable pub print_file : (nr : ℕ) → Cmd Text
  print_file nr = do
    i ← load_inode nr
    if is_pos i.din.i_size
        then (do
          (ret, got) ← read_data i 0 i.din.i_size
          pure (c_string (blit (heap_bytes i.din.i_size 0) 0 got) ++ newline))
        else pure []

  -- The loop of `cmd_cat`.
  unfoldable pub cat_from : Context → (rounds i : ℕ) → Cmd (CInt × Text)
  cat_from c zero i = pure (0, [])
  cat_from c (suc rounds) i =
      let rest = cat_from c rounds (i + 1) in
      do
        dir ← non_null c.cur_dir
        inode_nr ← dir_name_to_inode_nr dir (argument c i)
        if is_neg inode_nr then pure (inode_nr, []) else (do
          nr ← get_inode inode_nr
          type ← inode_get_type nr
          if type == i_dir then (do put_inode nr; pure (eisdir, [])) else (do
            out ← print_file nr
            put_inode nr
            (ret, after) ← rest
            pure (ret, out ++ after)))

  -- cmd_cat
  unfoldable pub cmd_cat : Context → Cmd (CInt × Text)
  cmd_cat c = if ltb c.nargs 2 then pure (einval, []) else cat_from c (c.nargs - 1) 1

  -- The loop of `cmd_catr` over the entries of a directory, given the call for a directory in it.
  -- On an error it leaves the context as the call left it.
  unfoldable pub catr_entries :
      (Context → Cmd (CInt × Context × Text))
      → (tmp_inode : Option ℕ) → (fuel dir offset : ℕ) → Context
      → Cmd (Context × Text)
  catr_entries child tmp_inode zero dir offset c = λ _. exhausted
  catr_entries child tmp_inode (suc fuel) dir offset c =
      let rest = λ (offset' : ℕ) (c' : Context). catr_entries child tmp_inode fuel dir offset' c' in
      do
        (entry, offset') ← next_dirent dir offset
        elim entry [
          | none ↦ pure (c, [])
          | some d ↦ if not (is_child d) then rest offset' c else (do
            cin ← get_inode d.d_inode_nr
            type ← inode_get_type cin
            if type == i_dir
                then (do
                  (ret, c', out) ← child (record c { cur_dir = some cin })
                  put_inode cin
                  if is_neg ret then pure (c', out) else (do
                    (c'', after) ← rest offset' (record c' { cur_dir = tmp_inode })
                    pure (c'', out ++ after)))
                else (do
                  out ← print_file cin
                  put_inode cin
                  (c', after) ← rest offset' c
                  pure (c', c_string d.d_name ++ ((58 ∷ newline) ++ (out ++ after)))))
        ]

  -- cmd_catr
  unfoldable pub cmd_catr : (depth : ℕ) → Context → Cmd (CInt × Context × Text)
  cmd_catr zero c = λ _. exhausted
  cmd_catr (suc depth) c =
      let child = λ (c' : Context). cmd_catr depth c' in
      if ltb 2 c.nargs then pure (einval, c, []) else (do
        dir ← non_null c.cur_dir
        inode_nr ← dir_name_to_inode_nr dir (if c.nargs == 2 then argument c 1 else dot)
        if is_neg inode_nr then pure (inode_nr, c, []) else (do
          nr ← get_inode inode_nr
          size ← inode_get_size nr
          (c', out) ← catr_entries child c.cur_dir (size + 1) nr 0 c
          put_inode nr
          pure (0, c', out)))

  -- A command with a new future, and the wait on it.
  unfoldable pub with_future :
      {A : Type 0}
      → (order : List Write → List Write) → (Flight p.Dev → Run (Flight p.Dev) A)
      → Cmd A
  with_future order m w = elim (m (record { world = w; pending = [] })) [
    | done a f ↦ done a (wait order f)
    | aborted ↦ aborted
    | exhausted ↦ exhausted
  ]

  -- The common end of `cmd_write`, `cmd_import` and `cmd_owrite`: cut off behind the data, sync.
  unfoldable pub finish_write : (nr : ℕ) → (ret : CInt) → (size : ℕ) → Cmd CInt
  finish_write nr ret size = do
    with_inode nr
        (λ i. if is_neg ret then pure (tt, i) else (do j ← truncate_data i size; pure (tt, j)))
    sync_inode nr
    Tx.commit tx_write
    put_inode nr
    pure ret

  -- The file of a name as a file to write, and what is done with it.
  unfoldable pub open_file : Context → Text → (ℕ → Cmd CInt) → Cmd CInt
  open_file c filename write = do
    dir ← non_null c.cur_dir
    inode_nr ← dir_name_to_inode_nr dir filename
    if is_neg inode_nr then pure inode_nr else (do
      nr ← get_inode inode_nr
      type ← inode_get_type nr
      if type == i_dir then (do put_inode nr; pure eisdir) else write nr)

  -- cmd_write
  unfoldable pub cmd_write : (order : List Write → List Write) → Context → Cmd CInt
  cmd_write order c =
      if not (c.nargs == 3)
      then pure einval
      else open_file c (argument c 1) (λ nr. do
        Tx.start tx_write
        ret ← with_inode nr (λ i. with_future order (write_data_alternate_async i 0 (argument c 2)))
        finish_write nr ret (length (argument c 2)))

  -- cmd_owrite. `strtol` gives the number, as an int, and the rest of the text. A negative offset
  -- is an index before the start of a block or of the array of blocks.
  unfoldable pub cmd_owrite : (strtol : Text → CInt × Text) → Context → Cmd CInt
  cmd_owrite strtol c =
      let (offset, temp) = strtol (argument c 2) in
      if not (c.nargs == 4)
      then pure einval
      else if ltb 0 (length temp)
      then pure (neg 1)
      else open_file c (argument c 1) (λ nr. do
        Tx.start tx_write
        assert (not (is_neg offset))
        ret ← with_inode nr (λ i. write_data i offset (argument c 3))
        finish_write nr ret (length (argument c 3) + offset))

  -- The loop of `cmd_import`, which reads the host file in blocks and stops behind a short one.
  unfoldable pub import_from : (fuel nr : ℕ) → (host : List Byte) → (start : ℕ) → Cmd (CInt × ℕ)
  import_from zero nr host start = λ _. exhausted
  import_from (suc fuel) nr host start =
      let buffer = slice host start block_size in
      let rest = import_from fuel nr host (start + length buffer) in
      do
        ret ← with_inode nr (λ i. write_data i start buffer)
        if is_neg ret || ltb (length buffer) block_size
            then pure (ret, start + length buffer)
            else rest

  -- `cmd_import` with the file that it created.
  unfoldable pub import_file : Option (List Byte) → (nr : ℕ) → Cmd CInt
  import_file none nr = do put_inode nr; pure enoent
  import_file (some host) nr = do
    Tx.start tx_write
    (ret, start) ← import_from (length host / block_size + 1) nr host 0
    finish_write nr ret start

  -- cmd_import
  unfoldable pub cmd_import : (host : Option (List Byte)) → Context → Cmd CInt
  cmd_import host c = if not (c.nargs == 3) then pure einval else (do
    ret ← create_file_or_dir c.cur_dir i_file (argument c 1)
    if is_neg ret then pure ret else open_file c (argument c 1) (import_file host))

  -- The loop of `cmd_export`, with its buffer: what is written to the host file.
  unfoldable pub export_from : (rounds nr size start : ℕ) → (buffer : List Byte) → Cmd (List Byte)
  export_from zero nr size start buffer = pure []
  export_from (suc rounds) nr size start buffer =
      let nbytes = min (size - start) block_size in
      let rest = λ (b : List Byte). export_from rounds nr size (start + block_size) b in
      do
        i ← load_inode nr
        (ret, got) ← read_data i start nbytes
        after ← rest (blit buffer 0 got)
        pure (slice (blit buffer 0 got) 0 nbytes ++ after)

  -- cmd_export, with the host file or without: the error if the name is unknown, and what was
  -- written. In all other cases the function ends without a value. An argument that is not there
  -- is a NULL pointer.
  unfoldable pub cmd_export : (host : Bool) → Context → Cmd (Option CInt × List Byte)
  cmd_export host c = do
    dir ← non_null c.cur_dir
    assert (ltb 1 c.nargs)
    inode_nr ← dir_name_to_inode_nr dir (argument c 1)
    if is_neg inode_nr then pure (some inode_nr, []) else (do
      nr ← get_inode inode_nr
      assert (ltb 2 c.nargs)
      i ← load_inode nr
      out ←
          (if not host || (i.din.i_type == i_dir) || is_neg i.din.i_size
            then pure []
            else export_from (div_round_up i.din.i_size block_size) nr i.din.i_size 0 p.stack)
      put_inode nr
      pure (none, out))
