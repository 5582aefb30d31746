-- ===== src/Archive/Lifetime.antt =====
-- How long the file of an archive is open: the constructor and the destructor of ImplArchive in
-- src/7zip/Archive.cpp, with those of FileReadStream in src/7zip/ReadStream.cpp, over the counter
-- of references that the stream has.
pub mod Counting
pub mod Owned
pub mod Laws
use fuse3_p7zip.Base.{
  ℕ, ◌+◌, ◌-◌, Bytes, codes, Bool, true, false, List, [], ◌∷◌, Option, none, some, ◌==◌,
  if◌then◌else◌,
}
use fuse3_p7zip.Base.Int.{ℤ, pos, ℤ-eq}
use fuse3_p7zip.Base.Outcome.{Outcome, ok, throws, fault, ◌>>=◌}
use fuse3_p7zip.Host.{Host}
use fuse3_p7zip.Exception.{check_com}
use fuse3_p7zip.FilePath.{FilePath}
use fuse3_p7zip.Stdio.{Whence}
use fuse3_p7zip.Com.{first_count, add_ref, release}
use fuse3_p7zip.Stream.Read
use fuse3_p7zip.Stream.Read.{ReadStream, Disk, open_stream}
use fuse3_p7zip.Archive.Format.{Format, format_name}
use fuse3_p7zip.Archive.Iterator.{Archive}
use fuse3_p7zip.Archive.Opening.{Library, Opened, class_id_of, init_props}

-- A call that 7zip makes on the stream.
pub data Touch : Type 0 where
  adds_ref releases_ref : Touch

-- The calls that a handler of 7zip makes on it: in Open, in Close, and when the handler is deleted,
-- which is when `_arc` gives up its reference: after Close, and without it.
pub record Keeper : Type 0 where
  pub in_open : List Touch
  pub in_close : List Touch
  pub when_closed : List Touch
  pub when_open : List Touch

-- The counter of the stream, or `none` where it is deleted; how many files are open; and whether
-- an object was called that is deleted, or not there.
pub record Store : Type 0 where
  pub counter : Option ℕ
  pub files : ℕ
  pub misused : Bool

-- `fopen`, and the counter of the new object.
unfoldable pub construct_stream : Store → Store
construct_stream s = record s { counter = some first_count; files = s.files + 1 }

-- ~FileReadStream
unfoldable pub destruct_stream : Store → Store
destruct_stream s = record s { counter = none; files = s.files - 1 }

unfoldable pub misuse : Store → Store
misuse s = record s { misused = true }

-- `FileReadStream::AddRef` and `FileReadStream::Release`
unfoldable pub touch : Touch → Store → Store
unfolding misuse destruct_stream add_ref release
touch adds_ref s = elim s.counter [
  | none ↦ misuse s
  | some count ↦ record s { counter = some (add_ref count) }
]
touch releases_ref s = elim s.counter [
  | none ↦ misuse s
  | some count ↦ elim (release count) [
    | none ↦ destruct_stream s
    | some left ↦ record s { counter = some left }
  ]
]

unfoldable pub touch_all : List Touch → Store → Store
unfolding touch
touch_all [] s = s
touch_all (t ∷ ts) s = touch_all ts (touch t s)

-- The handler that `_arc` points to, and the store.
abbrev pub Held : Type 0
Held = Option Keeper × Store

-- What a call returns, and what is held then, also where it throws.
abbrev pub Holding {ℓ} : Type ℓ → Type ℓ
Holding A = Outcome A × Held

unfoldable pub holding_then {ℓ κ} :
    {A : Type ℓ} {B : Type κ} → Holding A → (A → Held → Holding B) → Holding B
holding_then (ok a, held) f = f a held
holding_then (throws m, held) f = (throws m, held)
holding_then (fault, held) f = (fault, held)

-- `_arc.release()`, for a handler that is not closed.
unfoldable pub release_arc : Held → Store
unfolding touch_all
release_arc (none, s) = s
release_arc (some k, s) = touch_all k.when_open s

-- The members go in the reverse order of their declarations: `_arc`, then `_stream`.
unfoldable pub destruct_members : Held → Store
unfolding touch release_arc
destruct_members held = touch releases_ref (release_arc held)

-- An exception in the body of the constructor: ~ImplArchive does not run.
unfoldable pub unwind {ℓ} : {A : Type ℓ} → Holding A → Holding A
unfolding destruct_members
unwind (ok a, held) = (ok a, held)
unwind (throws m, held) = (throws m, (none, destruct_members held))
unwind (fault, held) = (fault, held)

-- ~ImplArchive, then its members.
unfoldable pub destruct : Held → Store
unfolding touch touch_all misuse
destruct (none, s) = misuse s
destruct (some k, s) = touch releases_ref (touch_all k.when_closed (touch_all k.in_close s))

module _ (h : Host) (lib : Library) (keeper : Format → Keeper) where
  -- `open_archive`. `&_arc` gives up the handler before, and a failed CreateObject sets no new one.
  unfoldable pub try_formats : List Format → ReadStream → Held → Holding Opened
  unfolding Read.seek check_com class_id_of format_name ℤ-eq holding_then release_arc touch_all
  try_formats [] stream held = (throws (codes "ERROR_INVALID_DATA"), held)
  try_formats (f ∷ fs) stream held =
      let (start, res, _) = Read.seek (pos 0) Whence.set stream in
      let freed : Store = release_arc held in
      let opened : Held = (some (keeper f), touch_all (keeper f).in_open freed) in
      holding_then (check_com h res (codes "Seek"), held)
        λ _ _.
          holding_then (class_id_of h lib f, held)
            λ id _.
              let (created, c) = lib.create_object id in
              let (left, code) = c.open_stream start in
              let rest = try_formats fs left opened in
              holding_then (check_com h created (codes "CreateObject"), (none, freed))
                λ _ _.
                  if code == h.s_ok
                  then (
                    (format_name h lib.exports f >>= λ _.
                        ok (record { format = f; candidate = c; stream = left })),
                    opened,
                  )
                  else rest

  -- The body of the constructor, and what it leaves, for the stream that was made.
  unfoldable pub construct_with : ℕ → FilePath → Store → Outcome ReadStream → Holding Archive
  unfolding construct_stream try_formats init_props holding_then unwind
  construct_with address path s (ok stream) = unwind (
      holding_then (try_formats lib.formats stream (none, construct_stream s)) λ o held. (
        (init_props h lib o.candidate >>= λ size. ok (record {
          address = address;
          path = path;
          stat = stream.stat;
          format = o.format;
          handler = o.candidate.handler;
          size = size;
        })),
        held,
      ))
  construct_with address path s (throws m) = (throws m, (none, s))
  construct_with address path s fault = (fault, (none, s))

  -- The constructor, for an object at that address.
  unfoldable pub construct : Disk → ℕ → FilePath → Store → Holding Archive
  unfolding open_stream construct_with
  construct disk address path s = construct_with address path s (open_stream h disk path)
