-- ===== src/Archive/Opening/Sizes.antt =====
-- The size of an archive that the constructor of ImplArchive (src/7zip/Archive.cpp) has opened.
use fuse3_p7zip.Base.{ℕ, Bytes, ◌≡◌, ◌≢◌, refl, List, [], ◌∷◌, ◌<◌, subst, sym, both}
use fuse3_p7zip.Base.Int.{pos, ℤ-eq}
use fuse3_p7zip.Base.Outcome.{Ensures, returned, >>=-Ensures, Ensures-then}
use fuse3_p7zip.Host.{Host}
use fuse3_p7zip.Exception.{check_com}
use fuse3_p7zip.FilePath.{FilePath}
use fuse3_p7zip.Stream.Read.{ReadStream, Disk, open_stream}
use fuse3_p7zip.Archive.Format.{Format, format_name}
use fuse3_p7zip.Archive.Iterator.{word32}
use fuse3_p7zip.Archive.Opening.{
  Candidate, Library, class_id_of, open_archive, init_props, open_file,
}
use fuse3_p7zip.Fuse.Tree.Fill.{IsOpen}

-- The number of items of a handler is a UInt32.
abbrev pub CountsBelow : Library → Type 0
CountsBelow lib = (id : Bytes) → (lib.create_object id).1.handler.get_number_of_items.1 < word32

abbrev IsSmall : Candidate → Type 0
IsSmall c = c.handler.get_number_of_items.1 < word32

module _ (h : Host) (lib : Library) (counts : CountsBelow lib) where
  open_archive-IsSmall :
      (fs : List Format) (s : ReadStream)
      → Ensures (λ o. IsSmall o.candidate) (open_archive h lib fs s)
  unfolding open_archive
  open_archive-IsSmall [] s = Ensures.thrown
  open_archive-IsSmall (f ∷ fs) s =
      >>=-Ensures (λ o. IsSmall o.candidate) (check_com h (pos 0) _) _
        λ _.
          >>=-Ensures (λ o. IsSmall o.candidate) (class_id_of h lib f) _
            λ id.
              >>=-Ensures (λ o. IsSmall o.candidate) (check_com h (lib.create_object id).0 _) _
                λ _.
                  both (Ensures (λ o. IsSmall o.candidate)) _
                    (>>=-Ensures (λ o. IsSmall o.candidate) (format_name h lib.exports f) _
                      (λ _. returned (counts id)))
                    (open_archive-IsSmall fs _)

  init_props_size :
      (c : Candidate) → Ensures (λ n. n ≡ c.handler.get_number_of_items.1) (init_props h lib c)
  unfolding init_props
  init_props_size c =
      >>=-Ensures (λ n. n ≡ c.handler.get_number_of_items.1)
        (check_com h c.handler.get_number_of_items.0 _) _
        λ _.
          >>=-Ensures (λ n. n ≡ c.handler.get_number_of_items.1)
            (check_com h c.get_number_of_archive_properties.0 _) _ λ _. returned refl

  pub open_file-IsOpen :
      (disk : Disk) (address : ℕ) (path : FilePath)
      → address ≢ 0
      → Ensures IsOpen (open_file h lib disk address path)
  unfolding open_file
  open_file-IsOpen disk address path some_address =
      >>=-Ensures IsOpen (open_stream h disk path) _ λ stream.
        Ensures-then (λ o. IsSmall o.candidate) IsOpen (open_archive h lib lib.formats stream) _
          (open_archive-IsSmall lib.formats stream)
          λ o small.
            Ensures-then (λ n. n ≡ o.candidate.handler.get_number_of_items.1) IsOpen
              (init_props h lib o.candidate) _ (init_props_size o.candidate)
              λ n same. returned (record {
                has_address = some_address;
                has_size = subst (λ k. k < word32) (sym same) small;
              })
