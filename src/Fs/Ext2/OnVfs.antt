-- ===== src/Fs/Ext2/OnVfs.antt =====
-- kernel/fs/ext2.py: `Ext2Node` as the nodes of the file system switch.
use pythonos.Prelude.{ℕ, Bool, true, false, none}
use pythonos.Fs.Vfs.Defs.{FsNode, Filesystem}
use pythonos.Fs.Ext2.Fields.{Ext2Error, file_not_found}
use pythonos.Fs.Ext2.Device.{Ext2Fs}
use pythonos.Fs.Ext2.Names.{Utf8}
use pythonos.Fs.Ext2.Node

abbrev is_missing : Ext2Error → Bool
is_missing (file_not_found name) = true
is_missing _ = false

module _ (utf8 : Utf8) where
  abbrev pub ext2 : FsNode
  ext2 = record {
    State = Ext2Fs;
    Node = ℕ;
    Error = Ext2Error;
    not_found = is_missing;
    stat = Node.stat;
    read = Node.read;
    write = Node.write;
    truncate = Node.truncate;
    readdir = Node.readdir utf8;
    lookup = Node.lookup utf8;
    create = Node.create utf8;
    unlink = Node.unlink utf8;
  }

  -- `Ext2FS` as a file system: its root, and none of the optional methods.
  abbrev pub ext2_fs : Filesystem ext2
  ext2_fs = record { root = Node.root_ino; flush = none; read_sync = none; isdir_sync = none }
