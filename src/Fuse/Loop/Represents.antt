-- ===== src/Fuse/Loop/Represents.antt =====
-- Which session of src/fuse3.cpp stands for which file system.
use fuse3_p7zip.Base.{
  ℕ, Bytes, ◌≡◌, refl, ap, ◌∙◌, Option, none, some, ◌==◌, nat_eq, inl, inr, Bool-cases, eq_of_beq,
}
use fuse3_p7zip.Base.Outcome.{ok}
use fuse3_p7zip.Host.{Host}
use fuse3_p7zip.FilePath.{FilePath, FilePath-eq}
use fuse3_p7zip.OrderedMap.{find}
use fuse3_p7zip.OrderedMap.Laws.{NodupKeys}
use fuse3_p7zip.Stdio.{File}
use fuse3_p7zip.Archive.Iterator.{Iterator}
use fuse3_p7zip.Fuse.Stat.{Stat}
use fuse3_p7zip.Fuse.Tree.Closure.{IsClosed}
use fuse3_p7zip.Fuse.Operations.{Session, set_file, extract, too_big}
use fuse3_p7zip.Fuse.Loop.Spec.{FileSystem, Opens, set_holds}

-- The stream of a handle that has those contents, if it is open.
abbrev pub IsStream : Option Bytes → Option File → Type 0
IsStream none none = Unit
IsStream none (some f) = ⊥
IsStream (some bytes) none = ⊥
IsStream (some bytes) (some f) = f.content ≡ bytes

-- The tree has the nodes, each item can be extracted to its contents, and the streams are those of
-- the open handles.
pub record Represents (h : Host) (s : Session) (fs : FileSystem) (o : Opens) : Type 0 where
  pub closed : IsClosed s.tree
  pub once : NodupKeys s.tree
  pub absent : (k : FilePath) → find k s.tree ≡ none → fs.node k ≡ none
  pub present :
      (k : FilePath) (it : Iterator) (stat : Stat)
      → find k s.tree ≡ some (it, stat)
      → (c : Option Bytes) × (fs.node k ≡ some (stat, c))
  pub extracts :
      (k : FilePath) (it : Iterator) (stat : Stat) (bytes : Bytes)
      → find k s.tree ≡ some (it, stat)
      → fs.node k ≡ some (stat, some bytes)
      → (f : File) × (extract h it s ≡ ok f) × (f.content ≡ bytes)
  pub limit : (stat : Stat) → fs.refused stat ≡ too_big h stat
  pub streams : (fh : ℕ) → IsStream (o.holds fh) (s.files fh)

-- The same tree, with other streams.
pub with_streams :
    (h : Host) (s : Session) (fs : FileSystem) (o o' : Opens) (files : ℕ → Option File)
    → Represents h s fs o
    → ((fh : ℕ) → IsStream (o'.holds fh) (files fh))
    → Represents h (record s { files = files }) fs o'
unfolding extract
with_streams h s fs o o' files rep streams = record {
  closed = rep.closed;
  once = rep.once;
  absent = rep.absent;
  present = rep.present;
  extracts = rep.extracts;
  limit = rep.limit;
  streams = streams;
}

pub set-IsStream :
    (holds : ℕ → Option Bytes) (files : ℕ → Option File) (fh : ℕ) (c : Option Bytes)
    (g : Option File)
    → ((k : ℕ) → IsStream (holds k) (files k))
    → IsStream c g
    → (k : ℕ) → IsStream (set_holds holds fh c k) (set_file files fh g k)
set-IsStream holds files fh c g all here k = elim (Bool-cases (k == fh)) [
  | inl e ↦ rw e here
  | inr e ↦ rw e (all k)
]

pub keep-IsStream :
    (holds : ℕ → Option Bytes) (files : ℕ → Option File) (fh : ℕ) (bytes : Bytes) (g : File)
    → ((k : ℕ) → IsStream (holds k) (files k))
    → holds fh ≡ some bytes
    → g.content ≡ bytes
    → (k : ℕ) → IsStream (holds k) (set_file files fh (some g) k)
keep-IsStream holds files fh bytes g all e c k = elim (Bool-cases (k == fh)) [
  | inl q ↦ let here : holds k ≡ some bytes = ap holds (eq_of_beq k fh q) ∙ e in rw (q, here) c
  | inr q ↦ rw q (all k)
]

pub stream_of :
    (c : Option Bytes) (g : Option File) (bytes : Bytes)
    → IsStream c g
    → c ≡ some bytes
    → (f : File) × (g ≡ some f) × (f.content ≡ bytes)
stream_of none g bytes i e = cc
stream_of (some b) none bytes i e = absurd i
stream_of (some b) (some f) bytes i e = (f, refl, i ∙ some-injective e)
  where
    some-injective : {a c : Bytes} → some a ≡ some c → a ≡ c
    some-injective e = cc
