-- ===== src/Main/Serving.antt =====
-- From the archive that `main` (src/main.cpp) opens to the answers of the callbacks of src/fuse3.cpp.
use fuse3_p7zip.Base.{ℕ, ◌<◌, ◌≡◌, refl, List, some, ap, Bool}
use fuse3_p7zip.Base.Outcome.{ok}
use fuse3_p7zip.Host.{Host, done}
use fuse3_p7zip.FilePath.{FilePath, FilePath-eq, from_string}
use fuse3_p7zip.Text.Encoding.{Wide, wide_str}
use fuse3_p7zip.Stdio.{new_file}
use fuse3_p7zip.Stream.Read.{Disk}
use fuse3_p7zip.Archive.Iterator.{Archive, end_iterator}
use fuse3_p7zip.Archive.Opening.{Library, open_file}
use fuse3_p7zip.Fuse.Stat.{Stat}
use fuse3_p7zip.Fuse.Tree.{Node, Entry, FileTree, add_entries, root_tree}
use fuse3_p7zip.Fuse.Tree.Entries.{last_node, find-last_node}
use fuse3_p7zip.Fuse.Tree.Fill.{
  IsOpen, Reads, build_tree-Reads, entries-IsClosed, entries-NodupKeys,
}
use fuse3_p7zip.Fuse.Tree.Items.{All-add_entries, All-root_tree, All-Reads}
use fuse3_p7zip.Fuse.Operations.{Session}
use fuse3_p7zip.Fuse.Loop
use fuse3_p7zip.Fuse.Loop.{Answer, serve}
use fuse3_p7zip.Fuse.Loop.Spec.{AllLegal, AllAllowed}
use fuse3_p7zip.Fuse.Loop.Mounted.{
  file_system, nothing_open, node_of, Succeeds, Extractable, mounted-AllAllowed,
}
use fuse3_p7zip.Main.{Request, with_encoding, new_session, mount}
use fuse3_p7zip.Main.Laws.{mount_lem}

-- The session of those entries, whose streams are temporary files with that room.
abbrev pub session_of : Archive → List Entry → Request → ℕ → Session
session_of a es r room =
    new_session (add_entries es (root_tree r.allow_other a.stat)) r.password (done (new_file room))

-- If every item can be extracted, so can every node of the tree.
entries-Extractable :
    (h : Host) (room : ℕ) (a : Archive) (es : List Entry) (tree : FileTree)
    → ((i : ℕ) → i < a.size → Succeeds h room (some a) i)
    → Reads h a 0 es
    → Extractable h room tree
    → Extractable h room (add_entries es tree)
unfolding end_iterator
entries-Extractable h room a es tree each reads base =
    All-add_entries (λ v. Succeeds h room v.0.seq v.0.index) (λ s. tt) es tree
      (All-Reads h a (λ it. Succeeds h room it.seq it.index) each es 0 reads) base

root-Extractable :
    (h : Host) (room : ℕ) (allow_other : Bool) (stat : Stat)
    → Extractable h room (root_tree allow_other stat)
unfolding end_iterator
root-Extractable h room allow_other stat =
    All-root_tree (λ v. Succeeds h room v.0.seq v.0.index) (λ s. tt) allow_other stat

module _ (h : Host) (lib : Library) (disk : Disk) (address : ℕ) (r : Request) (a : Archive)
    (es : List Entry)
    (opens : open_file (with_encoding h r.path) lib disk address (from_string r.path) ≡ ok a)
    (is_open : IsOpen a) (reads : Reads (with_encoding h r.path) a 0 es) (room : ℕ) where
  mount-session_of :
      mount h lib disk address r (done (new_file room)) ≡ ok (some (session_of a es r room))
  mount-session_of =
      mount_lem h lib disk address r (done (new_file room)) a
        (add_entries es (root_tree r.allow_other a.stat)) opens
        (build_tree-Reads (with_encoding h r.path) a r.allow_other es is_open reads)

  -- If the archive is opened, its address is not null, and it has fewer than 2^32 items that can
  -- all be read and that the library extracts in order, with no failure code, into no more than a
  -- temporary file has room for, and if the password decodes, all with the code page of the path
  -- in the environment, then the session of those items is mounted. Every run of requests that may
  -- be asked of it is answered, none is undefined, and each answer is what the file system of its
  -- nodes promises. In that file system the path of an item has the attributes of the last item of
  -- that path, and the contents that the library writes for it.
  pub mount-AllAllowed :
      {w : Wide}
      → wide_str (with_encoding h r.path) r.password ≡ ok w
      → ((i : ℕ) → i < a.size → Succeeds (with_encoding h r.path) room (some a) i)
      → (rs : List Loop.Request)
      → AllLegal (file_system (with_encoding h r.path) (session_of a es r room)) rs nothing_open
      → (mount h lib disk address r (done (new_file room)) ≡ ok (some (session_of a es r room)))
        × ((t : Session) × (answers : List Answer) × (serve
                (with_encoding h r.path)
                rs
                (session_of a es r room)
              ≡ ok (t, answers))
            × AllAllowed
                (file_system (with_encoding h r.path) (session_of a es r room))
                rs
                answers
                nothing_open)
        × ((k : FilePath) (v : Node)
            → last_node k es ≡ some v
            → (file_system (with_encoding h r.path) (session_of a es r room)).node k
              ≡ node_of (some v))
  unfolding new_session
  mount-AllAllowed decodes each rs legal = (
    mount-session_of,
    mounted-AllAllowed (with_encoding h r.path) (session_of a es r room) room decodes refl
        (entries-Extractable (with_encoding h r.path) room a es _ each reads
          (root-Extractable (with_encoding h r.path) room r.allow_other a.stat))
        (entries-IsClosed (with_encoding h r.path) a r.allow_other es reads)
        (entries-NodupKeys (with_encoding h r.path) a r.allow_other es) (λ fh. refl) rs legal,
    λ k v l. ap node_of (find-last_node es k v _ l),
  )
