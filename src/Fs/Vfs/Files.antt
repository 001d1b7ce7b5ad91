-- ===== src/Fs/Vfs/Files.antt =====
-- A descriptor refines a file with a position, over any file system whose nodes keep the laws of files.
use pythonos.Prelude.{
  ℕ, ◌+◌, ◌≡◌, refl, List, [], ◌∷◌, some, Bool, true, false, if◌then◌else◌, ok, pure, ◌>>=◌, lookup,
  insert, lookup-insert_self, Eq-ℕ, length, take, drop,
}
use pythonos.Prelude.Bytes.{Bytes}
use pythonos.Fs.Tmpfs.Defs.{Stat, written}
use pythonos.Fs.Vfs.Defs.{
  FsNode, FileDescription, World, Vfs, after_call, appends, SeekWhence, from_start, from_current,
  from_end,
}
use pythonos.Fs.Vfs.Calls.{read, write, seek, description, write_offset, new_offset}

-- What the switch relies on: a node that holds bytes tells their number, reads slices of them, and
-- takes a write in their place.
pub record FileLaws (fs : FsNode) : Type 1 where
  pub Holds : fs.Node → Bytes → fs.State → Type 0
  pub stat_size :
      (n : fs.Node) (c : Bytes) (d : fs.State)
      → Holds n c d
      → (st : Stat) × (fs.stat n d ≡ (ok st, d)) × (st.size ≡ length c)
  pub read_slice :
      (n : fs.Node) (c : Bytes) (d : fs.State) (o k : ℕ)
      → Holds n c d
      → fs.read n o k d ≡ (ok (take k (drop o c)), d)
  pub write_splice :
      (n : fs.Node) (c : Bytes) (d : fs.State) (o : ℕ) (bs : Bytes)
      → Holds n c d
      → (d' : fs.State) × (fs.write n o bs d ≡ (ok (length bs), d')) × Holds n (written o bs c) d'

-- The abstract file: its bytes, and a position.
pub record File : Type 0 where
  pub content : Bytes
  pub offset : ℕ

pub data FdOp : Type 0 where
  read_op : ℕ → FdOp
  write_op : Bytes → FdOp
  seek_op : ℕ → SeekWhence → FdOp

pub data FdResult : Type 0 where
  got : Bytes → FdResult
  count : ℕ → FdResult

-- What a call answers and leaves, for a descriptor that appends or not.
unfoldable pub spec : Bool → FdOp → File → FdResult × File
spec app (read_op k) f =
    let bs = take k (drop f.offset f.content) in
    (got bs, record f { offset = f.offset + length bs })
spec app (write_op bs) f =
    let o = if app then length f.content else f.offset in
    (count (length bs), record { content = written o bs f.content; offset = o + length bs })
spec app (seek_op o from_start) f = (count o, record f { offset = o })
spec app (seek_op o from_current) f = (count (f.offset + o), record f { offset = f.offset + o })
spec app (seek_op o from_end) f = (count f.offset, f)

unfoldable pub spec_all : Bool → List FdOp → File → List FdResult × File
unfolding spec
spec_all app [] f = ([], f)
spec_all app (op ∷ ops) f =
    let (r, f') = spec app op f in let (rs, f'') = spec_all app ops f' in (r ∷ rs, f'')

module _ (fs : FsNode) where
  unfoldable pub perform : ℕ → FdOp → Vfs fs FdResult
  unfolding read write seek
  perform fd (read_op k) = do bs ← read fs fd k; pure (got bs)
  perform fd (write_op bs) = do n ← write fs fd bs; pure (count n)
  perform fd (seek_op o whence) = do n ← seek fs fd o whence; pure (count n)

  unfoldable pub perform_all : ℕ → List FdOp → Vfs fs (List FdResult)
  unfolding perform
  perform_all fd [] = pure []
  perform_all fd (op ∷ ops) = do r ← perform fd op; rs ← perform_all fd ops; pure (r ∷ rs)

module _ (fs : FsNode) (laws : FileLaws fs) where
  open laws use {Holds, stat_size, read_slice, write_splice}

  -- The descriptor `fd` shows the abstract file.
  pub record Shows (fd : ℕ) (node : fs.Node) (flags : ℕ) (f : File) (w : World fs) : Type 0 where
    pub there : lookup fd w.fds ≡ some (record { node = node; flags = flags; offset = f.offset })
    pub holds : Holds node f.content w.disk

  run-description :
      (fd : ℕ) (desc : FileDescription fs) (w : World fs)
      → lookup fd w.fds ≡ some desc
      → description fs fd w ≡ (ok desc, w)
  unfolding description
  run-description fd desc w e = rw (e, description) refl

  perform-read :
      (fd k : ℕ) (node : fs.Node) (flags : ℕ) (f : File) (w : World fs)
      → Shows fd node flags f w
      → (w' : World fs) × (perform fs fd (read_op k) w
          ≡ (ok (spec (appends flags) (read_op k) f).0, w'))
        × Shows fd node flags (spec (appends flags) (read_op k) f).1 w'
  unfolding perform spec read after_call
  perform-read fd k node flags f w s =
      let desc : FileDescription fs = record { node = node; flags = flags; offset = f.offset } in
      let bs = take k (drop f.offset f.content) in
      let moved : FileDescription fs = record desc { offset = f.offset + length bs } in
      (
        record w { fds = insert fd moved w.fds },
        rw (run-description fd desc w s.there, read_slice node f.content w.disk f.offset k s.holds)
            refl,
        record { there = lookup-insert_self fd moved w.fds; holds = s.holds },
      )

  run-write_offset :
      (app : Bool) (desc : FileDescription fs) (c : Bytes) (w : World fs)
      → Holds desc.node c w.disk
      → write_offset fs app desc w ≡ (ok (if app then length c else desc.offset), w)
  unfolding write_offset after_call
  run-write_offset false desc c w h = refl
  run-write_offset true desc c w h =
      let (st, run, size) = stat_size desc.node c w.disk h in rw (run, size) refl

  perform-write :
      (fd : ℕ) (bs : Bytes) (node : fs.Node) (flags : ℕ) (f : File) (w : World fs)
      → Shows fd node flags f w
      → (w' : World fs) × (perform fs fd (write_op bs) w
          ≡ (ok (spec (appends flags) (write_op bs) f).0, w'))
        × Shows fd node flags (spec (appends flags) (write_op bs) f).1 w'
  unfolding perform spec write after_call
  perform-write fd bs node flags f w s =
      let desc : FileDescription fs = record { node = node; flags = flags; offset = f.offset } in
      let o = if appends flags then length f.content else f.offset in
      let placed : FileDescription fs = record desc { offset = o } in
      let moved : FileDescription fs = record desc { offset = o + length bs } in
      let (d, run, held) = write_splice node f.content w.disk o bs s.holds in
      (
        record w { disk = d; fds = insert fd moved (insert fd placed w.fds) },
        rw
            (
              run-description fd desc w s.there,
              run-write_offset (appends flags) desc f.content w s.holds,
              run,
            )
            refl,
        record { there = lookup-insert_self fd moved (insert fd placed w.fds); holds = held },
      )

  perform-seek :
      (fd o p : ℕ) (whence : SeekWhence) (node : fs.Node) (flags : ℕ) (f : File) (w : World fs)
      → Shows fd node flags f w
      → new_offset whence o f.offset ≡ p
      → (w' : World fs) × (perform fs fd (seek_op o whence) w ≡ (ok (count p), w'))
        × Shows fd node flags (record f { offset = p }) w'
  unfolding perform seek
  perform-seek fd o p whence node flags f w s e =
      let desc : FileDescription fs = record { node = node; flags = flags; offset = f.offset } in
      let moved : FileDescription fs = record desc { offset = p } in
      (
        record w { fds = insert fd moved w.fds },
        rw (run-description fd desc w s.there, e) refl,
        record { there = lookup-insert_self fd moved w.fds; holds = s.holds },
      )

  perform-Shows :
      (fd : ℕ) (op : FdOp) (node : fs.Node) (flags : ℕ) (f : File) (w : World fs)
      → Shows fd node flags f w
      → (w' : World fs) × (perform fs fd op w ≡ (ok (spec (appends flags) op f).0, w'))
        × Shows fd node flags (spec (appends flags) op f).1 w'
  unfolding spec new_offset
  perform-Shows fd (read_op k) node flags f w s = perform-read fd k node flags f w s
  perform-Shows fd (write_op bs) node flags f w s = perform-write fd bs node flags f w s
  perform-Shows fd (seek_op o from_start) node flags f w s =
      perform-seek fd o o from_start node flags f w s refl
  perform-Shows fd (seek_op o from_current) node flags f w s =
      perform-seek fd o (f.offset + o) from_current node flags f w s refl
  perform-Shows fd (seek_op o from_end) node flags f w s =
      perform-seek fd o f.offset from_end node flags f w s refl

  -- Any calls of `read`, `write` and `seek` on one descriptor, in any order, each with an offset or a count
  -- that is not negative, succeed and answer what the abstract file answers, and the descriptor shows the
  -- abstract file afterwards: a read or a write moves the position by what was read or written, a seek
  -- from the start sets it, one from the current position adds to it, and one from the end leaves it where
  -- it is; a gap is filled with zeros, and a descriptor that appends writes at the end.
  pub perform_all-spec :
      (ops : List FdOp) (fd : ℕ) (node : fs.Node) (flags : ℕ) (f : File) (w : World fs)
      → Shows fd node flags f w
      → (w' : World fs) × (perform_all fs fd ops w ≡ (ok (spec_all (appends flags) ops f).0, w'))
        × Shows fd node flags (spec_all (appends flags) ops f).1 w'
  unfolding perform_all spec_all
  perform_all-spec [] fd node flags f w s = (w, refl, s)
  perform_all-spec (op ∷ ops) fd node flags f w s =
      let (w1, run, s1) = perform-Shows fd op node flags f w s in
      let (w2, runs, s2) = perform_all-spec ops fd node flags (spec (appends flags) op f).1 w1 s1 in
      (w2, rw (run, runs) refl, s2)
