-- ===== src/Fuse/Operations/Handles.antt =====
-- The streams behind the handles, over cb_open, cb_read and cb_release of src/fuse3.cpp.
use fuse3_p7zip.Base.{
  ℕ, ◌<◌, ◌^◌, subst, Bytes, ◌≡◌, ◌≢◌, refl, Option, none, some, ◌==◌, nat_eq, arith, inl, inr,
  Bool-cases, Option-cases, beq_ne, take, drop,
}
use fuse3_p7zip.Base.Int.{ℤ, pos, uint64}
use fuse3_p7zip.Base.Outcome.{ok, Ensures, returned, faulted, >>=-Ensures, of_Ensures}
use fuse3_p7zip.Host.{Host}
use fuse3_p7zip.FilePath.{FilePath-eq, from_string}
use fuse3_p7zip.OrderedMap.{find}
use fuse3_p7zip.Stdio.{File}
use fuse3_p7zip.Stream.Interface.{read_at, read_at-slice, read_at-content}
use fuse3_p7zip.Stream.Write.{file_write_stream}
use fuse3_p7zip.Stream.Write.Implements.{file_write_stream-IsFile}
use fuse3_p7zip.Fuse.Operations.{Session, set_file, extract, too_big, cb_open, cb_read, cb_release}

-- An open handle whose stream holds the bytes.
pub record Holds (fh : ℕ) (bytes : Bytes) (s : Session) : Type 0 where
  pub stream : File
  pub there : s.files fh ≡ some stream
  pub content : stream.content ≡ bytes

pub read-slice :
    (f : File) (size offset : ℕ)
    → offset < 2 ^ 63
    → (read_at file_write_stream (uint64 (pos offset)) size f).1 ≡ take size (drop offset f.content)
read-slice f size offset lt =
    let same : uint64 (pos offset) ≡ offset = ground arith in
    rw same (read_at-slice file_write_stream file_write_stream-IsFile offset size f lt)

pub read-content :
    (f : File) (size : ℕ) (offset : ℤ)
    → (read_at file_write_stream (uint64 offset) size f).0.content ≡ f.content
read-content f size offset =
    read_at-content file_write_stream file_write_stream-IsFile (uint64 offset) size f

-- A stream is replaced by one with the same contents.
set_file-Holds :
    (s : Session) (fh k : ℕ) (bytes : Bytes) (f g : File)
    → Holds fh bytes s
    → s.files k ≡ some f
    → g.content ≡ f.content
    → Holds fh bytes (record s { files = set_file s.files k (some g) })
set_file-Holds s fh k bytes f g h here same = elim (Bool-cases (fh == k)) [
  | inl e ↦ record {
    stream = g;
    there = rw e refl;
    content = ground (arith, h.there, h.content, same, here, e);
  }
  | inr e ↦ record { stream = h.stream; there = rw e h.there; content = h.content }
]

-- What stands at another address is of no concern.
set_file-Holds_other :
    (s : Session) (fh k : ℕ) (bytes : Bytes) (g : Option File)
    → Holds fh bytes s
    → fh ≢ k
    → Holds fh bytes (record s { files = set_file s.files k g })
set_file-Holds_other s fh k bytes g h other = record {
  stream = h.stream;
  there = rw (beq_ne fh k other) h.there;
  content = h.content;
}

pub read-Holds :
    (s : Session) (fh k size : ℕ) (offset : ℤ) (bytes : Bytes)
    → Holds fh bytes s
    → Ensures (λ r. Holds fh bytes r.0) (cb_read s size offset k)
unfolding cb_read
read-Holds s fh k size offset bytes h = elim (Option-cases (s.files k)) [
  | inl gone ↦ rw (gone, cb_read) faulted
  | inr (f, here) ↦
      rw (here, cb_read)
        (returned (set_file-Holds s fh k bytes f _ h here (read-content f size offset)))
]

release-Holds :
    (s : Session) (fh k : ℕ) (bytes : Bytes)
    → Holds fh bytes s
    → fh ≢ k
    → Ensures (λ r. Holds fh bytes r.0) (cb_release s k)
unfolding cb_release
release-Holds s fh k bytes h other = elim (Option-cases (s.files k)) [
  | inl gone ↦ rw (gone, cb_release) faulted
  | inr (f, here) ↦
      rw (here, cb_release) (returned (set_file-Holds_other s fh k bytes none h other))
]

-- An address that holds nothing is another.
taken : (s : Session) (fh k : ℕ) (bytes : Bytes) → Holds fh bytes s → s.files k ≡ none → fh ≢ k
taken s fh k bytes h unused same =
    let there : s.files k ≡ some h.stream = subst (λ j. s.files j ≡ some h.stream) same h.there in
    cc

module _ (h : Host) where
  open-Holds :
      (s : Session) (fh address : ℕ) (bytes path : Bytes)
      → Holds fh bytes s
      → s.files address ≡ none
      → Ensures (λ r. Holds fh bytes r.0) (cb_open h s path address)
  unfolding cb_open
  open-Holds s fh address bytes path o unused =
      elim (Option-cases (find (from_string path) s.tree)) [
        | inl missing ↦ rw (missing, cb_open) (returned o)
        | inr ((it, stat), found) ↦ elim (Bool-cases (too_big h stat)) [
          | inl big ↦ rw (found, big, cb_open) (returned o)
          | inr small ↦
              rw (found, small, cb_open)
                (>>=-Ensures (λ r. Holds fh bytes r.0) (extract h it s) _
                  (λ f. returned (
                    set_file-Holds_other s fh address bytes (some f) o
                      (taken s fh address bytes o unused))))
        ]
      ]

  -- A callback that returns, and does not release the handle. `operator new` gives no address at
  -- which a stream stands that is not deleted; one that was released may be given again.
  pub data Step (fh : ℕ) : Session → Session → Type 0 where
    opening :
        (s t : Session) (path : Bytes) (address : ℕ) (r : ℤ) (o : Option ℕ)
        → s.files address ≡ none
        → cb_open h s path address ≡ ok (t, r, o)
        → Step fh s t
    reading :
        (s t : Session) (k size : ℕ) (offset r : ℤ) (bytes : Bytes)
        → cb_read s size offset k ≡ ok (t, r, bytes)
        → Step fh s t
    releasing : (s t : Session) (k : ℕ) (r : ℤ) → fh ≢ k → cb_release s k ≡ ok (t, r) → Step fh s t

  pub data Steps (fh : ℕ) : Session → Session → Type 0 where
    nothing : (s : Session) → Steps fh s s
    then_step : (s t u : Session) → Step fh s t → Steps fh t u → Steps fh s u

  Step-Holds :
      (fh : ℕ) (bytes : Bytes) (s t : Session) → Step fh s t → Holds fh bytes s → Holds fh bytes t
  Step-Holds fh bytes s t (opening _ _ path address r o unused e) o' =
      of_Ensures (λ q. Holds fh bytes q.0) (cb_open h s path address)
        (open-Holds s fh address bytes path o' unused) e
  Step-Holds fh bytes s t (reading _ _ k size offset r got e) o =
      of_Ensures (λ q. Holds fh bytes q.0) (cb_read s size offset k)
        (read-Holds s fh k size offset bytes o) e
  Step-Holds fh bytes s t (releasing _ _ k r other e) o =
      of_Ensures (λ q. Holds fh bytes q.0) (cb_release s k) (release-Holds s fh k bytes o other) e

  pub Steps-Holds :
      (fh : ℕ) (bytes : Bytes) (s t : Session) → Steps fh s t → Holds fh bytes s → Holds fh bytes t
  Steps-Holds fh bytes s t (nothing _) o = o
  Steps-Holds fh bytes s t (then_step _ m _ step rest) o =
      Steps-Holds fh bytes m t rest (Step-Holds fh bytes s m step o)
