-- ===== src/Fs/Ext2/Dir.antt =====
-- kernel/fs/ext2.py: the entries of a directory block. An offset in a block is the rest of the block
-- from there on, so a record is the front of a rest. The fuel is the bytes that are left: each
-- record has one at least, since one with `rec_len` 0 ends the loop.
use pythonos.Prelude.{
  ℕ, zero, suc, ◌+◌, ◌-◌, ◌*◌, ◌/◌, List, [], ◌∷◌, ◌++◌, Option, none, some, Bool, ltb, leb, ◌&&◌,
  not, ◌==◌, if◌then◌else◌, Outcome, ok, err, bytes_eq, length, take, drop, replicate,
}
use pythonos.Prelude.Bytes.{Bytes}
use pythonos.Fs.Ext2.Fields.{Ext2Error, struct_error, index_error, bad_write, stuck, unpack, pack}

-- What `struct.unpack_from("<IHBB", blk, off)` reads.
pub record Header : Type 0 where
  pub ino : ℕ
  pub rec_len : ℕ
  pub name_len : ℕ
  pub file_type : ℕ

infixl 5 ◌>>=◌
abbrev pub ◌>>=◌ :
    {A B : Type 0} → Outcome Ext2Error A → (A → Outcome Ext2Error B) → Outcome Ext2Error B
ok a >>= f = f a
err e >>= f = err e

unfoldable pub header : Bytes → Outcome Ext2Error Header
unfolding unpack
header rest = do
  ino ← unpack 4 0 rest
  rec_len ← unpack 2 4 rest
  name_len ← unpack 1 6 rest
  file_type ← unpack 1 7 rest
  ok (record { ino = ino; rec_len = rec_len; name_len = name_len; file_type = file_type })

-- A name with its inode and its file type.
pub record Entry : Type 0 where
  pub name : Bytes
  pub ino : ℕ
  pub file_type : ℕ

-- The bytes of the name behind a header.
abbrev pub name_bytes : Header → Bytes → Bytes
name_bytes h rest = take h.name_len (drop 8 rest)

-- An entry before the others, unless its record is unused.
unfoldable pub listed :
    Header → Bytes → Outcome Ext2Error (List Entry) → Outcome Ext2Error (List Entry)
listed h rest more = if h.ino == 0 then more else (do
  es ← more
  ok (record { name = name_bytes h rest; ino = h.ino; file_type = h.file_type } ∷ es))

-- The loop of `_read_dir_entries` over one block.
unfoldable pub entries_from : ℕ → Bytes → Outcome Ext2Error (List Entry)
unfolding header listed
entries_from fuel [] = ok []
entries_from zero (x ∷ rest) = err stuck
entries_from (suc fuel) (x ∷ rest) = do
  h ← header (x ∷ rest)
  let more = entries_from fuel (drop h.rec_len (x ∷ rest))
  if h.rec_len == 0 then ok [] else listed h (x ∷ rest) more

unfoldable pub block_entries : Bytes → Outcome Ext2Error (List Entry)
unfolding entries_from
block_entries blk = entries_from (length blk) blk

-- `_dirent_size`: `((8 + name_len) + 3) & ~3`.
unfoldable pub dirent_size : ℕ → ℕ
dirent_size n = (8 + n + 3) / 4 * 4

unfoldable pub actual_size : Header → ℕ
unfolding dirent_size
actual_size h = if h.ino == 0 then 0 else dirent_size h.name_len

-- `struct.pack_into("<IHBB", …)`, as the eight bytes.
unfoldable pub header_bytes : Header → Outcome Ext2Error Bytes
unfolding pack
header_bytes h = do
  b1 ← pack 4 0 h.ino (replicate 8 0)
  b2 ← pack 2 4 h.rec_len b1
  b3 ← pack 1 6 h.name_len b2
  pack 1 7 h.file_type b3

-- A record that fills `size` bytes: the header, the name and zeros.
unfoldable pub new_record : ℕ → Entry → Outcome Ext2Error Bytes
unfolding header_bytes
new_record size e = do
  hd ←
      header_bytes
        (record { ino = e.ino; rec_len = size; name_len = length e.name; file_type = e.file_type })
  ok (hd ++ (e.name ++ replicate (size - 8 - length e.name) 0))

-- What a record that points past the end of its block raises, at the place `start` of the new one:
-- packing the header does, or padding a name of `n` bytes, or writing a block that has grown.
unfoldable pub past_end : ℕ → ℕ → ℕ → Bytes → Ext2Error
past_end start n size rest =
    if ltb (length rest) (start + 8)
    then struct_error
    else if start + 8 + n == size
    then bad_write
    else index_error

-- The new entry in the slack of the record at the front.
unfoldable pub split_record : Header → Entry → Bytes → Outcome Ext2Error Bytes
unfolding actual_size new_record past_end pack
split_record h e rest =
    let actual = actual_size h in
    if ltb (length rest) h.rec_len
    then err (past_end actual (length e.name) h.rec_len rest)
    else (do
      front ← (if h.ino == 0 then ok rest else pack 2 4 actual rest)
      r ← new_record (h.rec_len - actual) e
      ok (take actual front ++ (r ++ drop h.rec_len rest)))

unfoldable pub before : Bytes → Option Bytes → Option Bytes
before front none = none
before front (some rest) = some (front ++ rest)

-- The search of `_add_dir_entry` in one block: the block with the entry, or `none` if none of the
-- records has `need` bytes of slack.
unfoldable pub insert_from : ℕ → ℕ → Entry → Bytes → Outcome Ext2Error (Option Bytes)
unfolding header actual_size split_record before
insert_from fuel need e [] = ok none
insert_from zero need e (x ∷ rest) = err stuck
insert_from (suc fuel) need e (x ∷ rest) = do
  h ← header (x ∷ rest)
  let more = insert_from fuel need e (drop h.rec_len (x ∷ rest))
  if h.rec_len == 0
      then ok none
      else if leb need (h.rec_len - actual_size h)
      then (do blk ← split_record h e (x ∷ rest); ok (some blk))
      else (do m ← more; ok (before (take h.rec_len (x ∷ rest)) m))

unfoldable pub insert_entry : Entry → Bytes → Outcome Ext2Error (Option Bytes)
unfolding insert_from dirent_size
insert_entry e blk = insert_from (length blk) (dirent_size (length e.name)) e blk

-- An entry in use with this name.
unfoldable pub names : Header → Bytes → Bytes → Bool
names h rest name =
    not (h.ino == 0) && (h.name_len == length name && bytes_eq (name_bytes h rest) name)

-- What `_remove_dir_entry` returns, and the block.
pub record Removed : Type 0 where
  pub ino : ℕ
  pub file_type : ℕ
  pub block : Bytes

unfoldable pub removed_before : Bytes → Option Removed → Option Removed
removed_before front none = none
removed_before front (some r) = some (record r { block = front ++ r.block })

-- The search of `_remove_dir_entry` behind the record at the front, whose header is `prev`: a match
-- there is merged into this record.
unfoldable pub remove_after : ℕ → Bytes → Header → Bytes → Outcome Ext2Error (Option Removed)
unfolding header names removed_before pack
remove_after zero name prev rest = err stuck
remove_after (suc fuel) name prev rest = elim (drop prev.rec_len rest) [
  | [] ↦ ok none
  | x ∷ next ↦ do
    h ← header (x ∷ next)
    if h.rec_len == 0
        then ok none
        else if names h (x ∷ next) name
        then (do
          blk ← pack 2 4 (prev.rec_len + h.rec_len) rest
          ok (some (record { ino = h.ino; file_type = h.file_type; block = blk })))
        else (do
          m ← remove_after fuel name h (x ∷ next)
          ok (removed_before (take prev.rec_len rest) m))
]

-- The search from the first record on, whose inode is zeroed if it matches.
unfoldable pub remove_entry : Bytes → Bytes → Outcome Ext2Error (Option Removed)
unfolding header names remove_after pack
remove_entry name [] = ok none
remove_entry name (x ∷ rest) = do
  h ← header (x ∷ rest)
  let more = remove_after (suc (length rest)) name h (x ∷ rest)
  if h.rec_len == 0
      then ok none
      else if names h (x ∷ rest) name
      then (do
        blk ← pack 4 0 0 (x ∷ rest)
        ok (some (record { ino = h.ino; file_type = h.file_type; block = blk })))
      else more
