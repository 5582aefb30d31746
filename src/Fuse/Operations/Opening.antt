-- ===== src/Fuse/Operations/Opening.antt =====
-- cb_open of src/fuse3.cpp on each branch, and the handle that it gives.
use fuse3_p7zip.Base.{
  ℕ, ◌<◌, ◌≤◌, ◌^◌, Bytes, codes, ◌≡◌, ◌↔◌, refl, sym, subst, ◌∙◌, true, false, Option, none, some,
  nat_eq, inl, inr, Bool-cases, Option-cases, beq_refl, length, arith,
}
use fuse3_p7zip.Base.Int.{ℤ, pos, negsuc, ltz, ◌<ℤ◌}
use fuse3_p7zip.Base.Outcome.{
  ok, fault, Ensures, returned, thrown, faulted, Outcome-cases, of_Ensures,
}
use fuse3_p7zip.Host.{Host, done}
use fuse3_p7zip.FilePath.{FilePath-eq, from_string}
use fuse3_p7zip.OrderedMap.{find}
use fuse3_p7zip.Text.Encoding.{Wide, wide_str}
use fuse3_p7zip.Text.Strtoll.{strtoll}
use fuse3_p7zip.Stdio.{File, new_file}
use fuse3_p7zip.Archive.Iterator.{Iterator, Archive}
use fuse3_p7zip.Archive.Extractor.Laws.{IsOrderly, written, execute-written}
use fuse3_p7zip.Fuse.Stat.{Stat}
use fuse3_p7zip.Fuse.Operations.{
  Session, extract, too_big, cb_getattr, cb_open, cb_read, cb_release, enoent, e2big, zero_stat,
}
use fuse3_p7zip.Fuse.Operations.Handles.{Holds, Steps, Steps-Holds}
use fuse3_p7zip.Fuse.Operations.Reads.{slice, read_held, opened, opened-Holds, open_gives}

lt→ltz : (a b : ℤ) → a <ℤ b → ltz a b ≡ true
lt→ltz (pos a) (pos b) lt = ground arith
lt→ltz (pos a) (negsuc b) lt = absurd lt
lt→ltz (negsuc a) (pos b) lt = refl
lt→ltz (negsuc a) (negsuc b) lt = ground arith

ltz→lt : (a b : ℤ) → ltz a b ≡ true → a <ℤ b
ltz→lt (pos a) (pos b) e = ground arith
ltz→lt (pos a) (negsuc b) e = cc
ltz→lt (negsuc a) (pos b) e = tt
ltz→lt (negsuc a) (negsuc b) e = ground arith

module _ (h : Host) (s : Session) where
  pub open_extract :
      (it : Iterator) (a : Archive) (room : ℕ) {w : Wide}
      → it.seq ≡ some a
      → s.tmpfile ≡ done (new_file room)
      → wide_str h s.password ≡ ok w
      → IsOrderly false false (a.handler.extract it.index).0
      → h.is_failed (a.handler.extract it.index).1 ≡ false
      → length (written (a.handler.extract it.index).0) ≤ room
      → extract h it s
        ≡ ok (record {
          content = written (a.handler.extract it.index).0;
          position = 0;
          error = false;
          room = room;
        })
  unfolding extract
  open_extract it a room q t decodes orderly success fits =
      rw (q, t, extract)
        (execute-written h a.handler s.password it.index room decodes orderly success fits)

module _ (h : Host) (s : Session) (path : Bytes) (address : ℕ) where
  -- A path of an item of an archive whose size is not over the limit is opened, if there is a
  -- temporary file with room for all that the library writes, the library uses the callbacks in
  -- order, its code is no failure, and the password decodes: the handle is the address of the
  -- new stream, and that holds what the library wrote.
  pub open-written :
      (it : Iterator) (stat : Stat) (a : Archive) (room : ℕ) {w : Wide}
      → find (from_string path) s.tree ≡ some (it, stat)
      → too_big h stat ≡ false
      → it.seq ≡ some a
      → s.tmpfile ≡ done (new_file room)
      → wide_str h s.password ≡ ok w
      → IsOrderly false false (a.handler.extract it.index).0
      → h.is_failed (a.handler.extract it.index).1 ≡ false
      → length (written (a.handler.extract it.index).0) ≤ room
      → (t : Session) × (cb_open h s path address ≡ ok (t, pos 0, some address))
        × Holds address (written (a.handler.extract it.index).0) t
  open-written it stat a room found small q t decodes orderly success fits = (
    opened s address _,
    open_gives h s path address it stat _ found small
        (open_extract h s it a room q t decodes orderly success fits),
    opened-Holds s address _,
  )

  -- The limit of FUSE3_P7ZIP_MAX_OPEN_SIZE is below that size.
  abbrev pub IsOver : Bytes → Stat → Type 0
  IsOver limit stat =
      (h.getenv (codes "FUSE3_P7ZIP_MAX_OPEN_SIZE") ≡ some limit) × (strtoll limit <ℤ stat.size)

  IsOver-too_big : (limit : Bytes) (stat : Stat) → IsOver limit stat → too_big h stat ≡ true
  unfolding too_big
  IsOver-too_big limit stat (given, over) =
      rw (given, too_big) (lt→ltz (strtoll limit) stat.size over)

  too_big-IsOver : (stat : Stat) → too_big h stat ≡ true → (limit : Bytes) × IsOver limit stat
  unfolding too_big
  too_big-IsOver stat big = elim (Option-cases (h.getenv (codes "FUSE3_P7ZIP_MAX_OPEN_SIZE"))) [
    | inl unset ↦
        let small : too_big h stat ≡ false = rw (unset, too_big) refl in absurd (ground arith)
    | inr (limit, given) ↦
        let same : too_big h stat ≡ ltz (strtoll limit) stat.size = rw (given, too_big) refl in
        (limit, (given, ltz→lt (strtoll limit) stat.size (sym same ∙ big)))
  ]

  -- What cb_open answers, by what cb_getattr says of the path.
  pub data IsAnswer : Session × ℤ × Option ℕ → Type 0 where
    missing : cb_getattr s.tree path ≡ (enoent, zero_stat) → IsAnswer (s, enoent, none)
    over_limit :
        (stat : Stat) (limit : Bytes)
        → cb_getattr s.tree path ≡ (pos 0, stat)
        → IsOver limit stat
        → IsAnswer (s, e2big, none)
    within :
        (it : Iterator) (stat : Stat) (f : File)
        → find (from_string path) s.tree ≡ some (it, stat)
        → ((limit : Bytes) → ¬ IsOver limit stat)
        → extract h it s ≡ ok f
        → IsAnswer (opened s address f, pos 0, some address)

  got :
      (it : Iterator) (stat : Stat)
      → find (from_string path) s.tree ≡ some (it, stat)
      → cb_getattr s.tree path ≡ (pos 0, stat)
  unfolding cb_getattr
  got it stat found = rw (found, cb_getattr) refl

  there :
      (stat : Stat)
      → cb_getattr s.tree path ≡ (pos 0, stat)
      → (it : Iterator) × (find (from_string path) s.tree ≡ some (it, stat))
  unfolding cb_getattr
  there stat e = elim (Option-cases (find (from_string path) s.tree)) [
    | inl gone ↦
        let missed : cb_getattr s.tree path ≡ (enoent, zero_stat) = rw (gone, cb_getattr) refl in cc
    | inr ((it, stat'), found) ↦
        let same : cb_getattr s.tree path ≡ (pos 0, stat') = got it stat' found in
        let equal : stat' ≡ stat = cc in
        (it, subst (λ t. find (from_string path) s.tree ≡ some (it, t)) equal found)
  ]

  not_there : cb_getattr s.tree path ≡ (enoent, zero_stat) → find (from_string path) s.tree ≡ none
  not_there e = elim (Option-cases (find (from_string path) s.tree)) [
    | inl gone ↦ gone
    | inr ((it, stat), found) ↦
        let same : cb_getattr s.tree path ≡ (pos 0, stat) = got it stat found in cc
  ]

  open-IsAnswer : Ensures IsAnswer (cb_open h s path address)
  unfolding cb_open cb_getattr
  open-IsAnswer = elim (Option-cases (find (from_string path) s.tree)) [
    | inl gone ↦ rw (gone, cb_open) (returned (missing (rw (gone, cb_getattr) refl)))
    | inr ((it, stat), found) ↦ elim (Bool-cases (too_big h stat)) [
      | inl big ↦
          let (limit, over) = too_big-IsOver stat big in
          rw (found, big, cb_open) (returned (over_limit stat limit (got it stat found) over))
      | inr small ↦ elim (Outcome-cases (extract h it s)) [
        | inl (f, extracted) ↦
            let under : (limit : Bytes) → ¬ IsOver limit stat =
              λ limit over. let big = IsOver-too_big limit stat over in absurd (ground arith) in
            rw (found, small, extracted, cb_open)
              (returned (within it stat f found under extracted))
        | inr (inl (m, fails)) ↦ rw (found, small, fails, cb_open) thrown
        | inr (inr faults) ↦ rw (found, small, faults, cb_open) faulted
      ]
    ]
  ]

  IsAnswer-open :
      (answer : Session × ℤ × Option ℕ) → IsAnswer answer → cb_open h s path address ≡ ok answer
  unfolding cb_open
  IsAnswer-open _ (missing e) = rw (not_there e, cb_open) refl
  IsAnswer-open _ (over_limit stat limit e over) =
      let (it, found) = there stat e in rw (found, IsOver-too_big limit stat over, cb_open) refl
  IsAnswer-open _ (within it stat f found under extracted) = elim (Bool-cases (too_big h stat)) [
    | inl big ↦ let (limit, over) = too_big-IsOver stat big in absurd (under limit over)
    | inr small ↦ open_gives h s path address it stat f found small extracted
  ]

  -- cb_open returns an answer just if it is one of these. Where cb_getattr says ENOENT of the path,
  -- it is ENOENT; where it gives a size above the limit that the environment sets, E2BIG; and the
  -- session stays as it was. Where the path has a node that is not over a limit, and its item is
  -- extracted to a file, it is 0, and the handle is the address at which that file then stands.
  -- So an extraction that throws makes cb_open return nothing.
  pub open_answers :
      (answer : Session × ℤ × Option ℕ) → (cb_open h s path address ≡ ok answer) ↔ IsAnswer answer
  open_answers answer =
      (λ e. of_Ensures IsAnswer (cb_open h s path address) open-IsAnswer e, IsAnswer-open answer)

-- A handle whose stream holds some bytes: whatever callbacks return before, short of the release
-- of the handle, and with no new stream at the address of one that is open, a read of fewer than 2^31 bytes at an offset below 2^63 gives the slice of the
-- bytes from the offset on, of the size or up to the end, and its length.
pub Steps-read :
    (h : Host) (fh : ℕ) (bytes : Bytes) (s t : Session) (size offset : ℕ)
    → Holds fh bytes s
    → Steps h fh s t
    → size < 2 ^ 31
    → offset < 2 ^ 63
    → (u : Session) × (cb_read t size (pos offset) fh
        ≡ ok (u, pos (length (slice size offset bytes)), slice size offset bytes))
Steps-read h fh bytes s t size offset o steps small lt =
    read_held t fh size offset bytes (Steps-Holds h fh bytes s t steps o) small lt

released : (s : Session) (fh : ℕ) → Ensures (λ q. q.0.files fh ≡ none) (cb_release s fh)
unfolding cb_release
released s fh = elim (Option-cases (s.files fh)) [
  | inl gone ↦ rw (gone, cb_release) faulted
  | inr (f, here) ↦ rw (here, cb_release) (returned (rw (beq_refl fh) refl))
]

-- After cb_release of a handle has returned, to read or to release it once more is undefined.
pub release-gone :
    (s t : Session) (fh size : ℕ) (offset r : ℤ)
    → cb_release s fh ≡ ok (t, r)
    → (cb_read t size offset fh ≡ fault) × (cb_release t fh ≡ fault)
unfolding cb_release cb_read
release-gone s t fh size offset r e =
    let gone : t.files fh ≡ none =
      of_Ensures (λ q. q.0.files fh ≡ none) (cb_release s fh) (released s fh) e in
    (rw (gone, cb_read) refl, rw (gone, cb_release) refl)
