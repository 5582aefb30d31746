-- ===== src/Fuse/Operations/Reads.antt =====
-- A single cb_open and a single cb_read of src/fuse3.cpp, by the stream of the handle.
use fuse3_p7zip.Base.{
  ℕ, zero, suc, ◌≤◌, ◌<◌, ◌^◌, Bytes, ◌≡◌, refl, ap, ◌∙◌, false, List, [], ◌∷◌, none, some, nat_eq,
  arith, beq_refl, take, drop, length,
}
use fuse3_p7zip.Base.Int.{pos, int32, uint64}
use fuse3_p7zip.Base.Outcome.{ok, fault}
use fuse3_p7zip.Host.{Host}
use fuse3_p7zip.FilePath.{FilePath-eq, from_string}
use fuse3_p7zip.OrderedMap.{find}
use fuse3_p7zip.Stdio.{File, Whence}
use fuse3_p7zip.Stream.Write
use fuse3_p7zip.Archive.Iterator.{Iterator}
use fuse3_p7zip.Fuse.Stat.{Stat}
use fuse3_p7zip.Fuse.Operations.{Session, set_file, extract, too_big, cb_open, cb_read}
use fuse3_p7zip.Fuse.Operations.Handles.{Holds, read-slice}

-- A read of a handle gives the slice of the contents, and its length.
abbrev pub slice : ℕ → ℕ → Bytes → Bytes
slice size offset bytes = take size (drop offset bytes)

pub length-take_le {ℓ} : {A : Type ℓ} (n : ℕ) (xs : List A) → length (take n xs) ≤ n
length-take_le zero xs = omega arith
length-take_le (suc n) [] = omega arith
length-take_le (suc n) (x ∷ xs) = omega (arith, length-take_le n xs)

int32_small : (n : ℕ) → n < 2 ^ 31 → int32 n ≡ pos n
int32_small n lt = ground arith

-- The session after a read of the stream.
abbrev pub after_read : Session → ℕ → ℕ → ℕ → File → Session
after_read s fh size offset f = record s {
  files =
      set_file s.files fh
        (some (Write.read size (Write.seek (uint64 (pos offset)) Whence.set f).0).0);
}

pub read_gives :
    (s : Session) (fh size offset : ℕ) (bytes : Bytes) (o : Holds fh bytes s)
    → size < 2 ^ 31
    → offset < 2 ^ 63
    → cb_read s size (pos offset) fh
      ≡ ok (
        after_read s fh size offset o.stream,
        pos (length (slice size offset bytes)),
        slice size offset bytes,
      )
unfolding cb_read
read_gives s fh size offset bytes o small lt =
    let got : (Write.read size (Write.seek (uint64 (pos offset)) Whence.set o.stream).0).1
        ≡ slice size offset bytes =
      read-slice o.stream size offset lt ∙ ap (slice size offset) o.content in
    let fits : int32 (length (slice size offset bytes)) ≡ pos (length (slice size offset bytes)) =
      int32_small (length (slice size offset bytes))
        (omega (arith, length-take_le size (drop offset bytes))) in
    ap
      (λ q. elim q [
        | none ↦ fault
        | some f ↦ ok (
          after_read s fh size offset f,
          int32 (length (Write.read size (Write.seek (uint64 (pos offset)) Whence.set f).0).1),
          (Write.read size (Write.seek (uint64 (pos offset)) Whence.set f).0).1,
        )
      ])
      o.there
    ∙ (ap (λ b. ok (after_read s fh size offset o.stream, int32 (length b), b)) got
        ∙ ap (λ n. ok (after_read s fh size offset o.stream, n, slice size offset bytes)) fits)

pub read_held :
    (s : Session) (fh size offset : ℕ) (bytes : Bytes)
    → Holds fh bytes s
    → size < 2 ^ 31
    → offset < 2 ^ 63
    → (t : Session) × (cb_read s size (pos offset) fh
        ≡ ok (t, pos (length (slice size offset bytes)), slice size offset bytes))
read_held s fh size offset bytes o small lt =
    (after_read s fh size offset o.stream, read_gives s fh size offset bytes o small lt)

-- The session that holds a new stream.
abbrev pub opened : Session → ℕ → File → Session
opened s address f = record s { files = set_file s.files address (some f) }

pub opened-Holds :
    (s : Session) (address : ℕ) (f : File) → Holds address f.content (opened s address f)
opened-Holds s address f = record { stream = f; there = rw (beq_refl address) refl; content = refl }

pub open_gives :
    (h : Host) (s : Session) (path : Bytes) (address : ℕ) (it : Iterator) (stat : Stat) (f : File)
    → find (from_string path) s.tree ≡ some (it, stat)
    → too_big h stat ≡ false
    → extract h it s ≡ ok f
    → cb_open h s path address ≡ ok (opened s address f, pos 0, some address)
unfolding cb_open
open_gives h s path address it stat f found small extracted =
    rw (found, small, extracted, cb_open) refl
