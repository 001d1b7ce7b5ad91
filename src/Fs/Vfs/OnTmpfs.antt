-- ===== src/Fs/Vfs/OnTmpfs.antt =====
-- The in-memory file system as the nodes of the switch: it fills the interface and keeps its laws.
use pythonos.Prelude.{
  ℕ, ◌≡◌, refl, none, some, Bool, true, false, ok, lookup, lookup-insert_self, Eq-ℕ, length, take,
  drop,
}
use pythonos.Prelude.Bytes.{Bytes}
use pythonos.Fs.Tmpfs.Defs.{
  file, TmpfsNode, Heap, FsError, file_not_found, Stat, written, put, is_file,
}
use pythonos.Fs.Tmpfs.Defs
use pythonos.Fs.Tmpfs.Files.{node_of_found}
use pythonos.Fs.Vfs.Defs.{FsNode, Filesystem}
use pythonos.Fs.Vfs.Files.{FileLaws}

abbrev is_missing : FsError → Bool
is_missing (file_not_found name) = true
is_missing _ = false

abbrev pub tmpfs : FsNode
tmpfs = record {
  State = Heap;
  Node = ℕ;
  Error = FsError;
  not_found = is_missing;
  stat = Defs.stat;
  read = Defs.read;
  write = Defs.write;
  truncate = Defs.truncate;
  readdir = Defs.readdir;
  lookup = Defs.find;
  create = Defs.create;
  unlink = Defs.unlink;
}

-- `TmpFS`: node 0 is its root, and it has no `flush`.
abbrev pub tmp_fs : Filesystem tmpfs
tmp_fs = record {
  root = 0;
  flush = none;
  read_sync = some Defs.read_sync;
  isdir_sync = some Defs.isdir_sync;
}

-- A node is a file of these bytes.
pub record IsFile (id : ℕ) (c : Bytes) (h : Heap) : Type 0 where
  pub node : TmpfsNode
  pub found : lookup id h.nodes ≡ some node
  pub kind : node.inode_type ≡ file
  pub bytes : node.content ≡ c

pub read_tmpfs :
    (id : ℕ) (c : Bytes) (h : Heap) (o k : ℕ)
    → IsFile id c h
    → Defs.read id o k h ≡ (ok (take k (drop o c)), h)
unfolding Defs.read
read_tmpfs id c h o k f = rw (node_of_found id f.node h f.found, f.kind, f.bytes) refl

pub write_tmpfs :
    (id : ℕ) (c : Bytes) (h : Heap) (o : ℕ) (bs : Bytes)
    → IsFile id c h
    → (h' : Heap) × (Defs.write id o bs h ≡ (ok (length bs), h')) × IsFile id (written o bs c) h'
unfolding Defs.write Defs.write_to
write_tmpfs id c h o bs f =
    let node' : TmpfsNode = record f.node { content = written o bs f.node.content } in
    (
      put id node' h,
      rw (node_of_found id f.node h f.found, f.kind) refl,
      record {
        node = node';
        found = lookup-insert_self id node' h.nodes;
        kind = f.kind;
        bytes = rw f.bytes refl;
      },
    )

pub stat_tmpfs :
    (id : ℕ) (c : Bytes) (h : Heap)
    → IsFile id c h
    → (st : Stat) × (Defs.stat id h ≡ (ok st, h)) × (st.size ≡ length c)
unfolding Defs.stat
stat_tmpfs id c h f = (
  record { inode_type = file; size = length c; mode = f.node.mode; nlink = 1 },
  rw (node_of_found id f.node h f.found, f.kind, f.bytes) refl,
  refl,
)

abbrev pub tmpfs_laws : FileLaws tmpfs
tmpfs_laws = record {
  Holds = IsFile;
  stat_size = stat_tmpfs;
  read_slice = read_tmpfs;
  write_splice = write_tmpfs;
}
