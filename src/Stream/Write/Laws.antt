-- ===== src/Stream/Write/Laws.antt =====
-- The code and the count of a write of src/7zip/WriteStream.cpp, and what is read after it.
use fuse3_p7zip.Base.{
  ◌∷◌, ℕ, ◌+◌, ◌-◌, ◌≤◌, ◌<◌, ◌^◌, Bytes, ◌≡◌, ap, ◌∙◌, false, arith, length, take, drop,
}
use fuse3_p7zip.Base.Int.{pos, int64}
use fuse3_p7zip.Host.{Host, IsDocumented}
use fuse3_p7zip.Stdio.{pad, write_at, File, fwrite, fread, fseek, Whence}
use fuse3_p7zip.Stdio.Laws.{
  fread-fseek, fwrite_fits, length-take_of, read_back, take-write_at, drop_behind,
}
use fuse3_p7zip.Stream.Write.{write_com, check_error}
use fuse3_p7zip.Stream.Write

-- If the HRESULT codes are as documented, a write that begins within the room of the disk, and for
-- which there is not room enough, is cut at the end of the room, and its code is no failure.
pub write_com_short :
    (h : Host) (f : File) (bytes : Bytes)
    → IsDocumented h
    → f.position ≤ f.room
    → f.room < f.position + length bytes
    → ((write_com bytes f).2 ≡ f.room - f.position) × (h.is_failed (write_com bytes f).1 ≡ false)
unfolding write_com check_error fwrite
write_com_short h f bytes d le full =
    (length-take_of (f.room - f.position) bytes (omega arith), ground (arith, d.is_failed-pos 1))

int64_small : (n : ℕ) → n < 2 ^ 63 → int64 n ≡ pos n
int64_small n lt = ground arith

module _ (f : File) (b : ℕ) (bytes : Bytes) where
  abbrev changed : File
  changed = (Write.write (b ∷ bytes) f).0

  -- If bytes are written, one at least, at any position of a file with room for them, which is
  -- below 2^63, then they are read back after a seek to where they were written, what stands in
  -- front of them is what stood there, with zeros up to the position where the file was shorter,
  -- and what stood behind them is unchanged.
  pub write-seek-read :
      f.position + length (b ∷ bytes) ≤ f.room
      → f.room < 2 ^ 63
      → ((Write.read (length (b ∷ bytes)) (Write.seek f.position Whence.set changed).0).1
          ≡ b ∷ bytes)
        × (take f.position changed.content ≡ take f.position (pad f.position f.content))
        × (drop (f.position + length (b ∷ bytes)) changed.content
            ≡ drop (f.position + length (b ∷ bytes)) f.content)
  unfolding Write.read Write.seek Write.write
  write-seek-read fits lt =
      let whole : changed.content ≡ write_at f.position (b ∷ bytes) f.content =
        fwrite_fits f (b ∷ bytes) fits in
      (
        ap (λ z. (fread (length (b ∷ bytes)) (fseek z Whence.set changed).0).1)
              (int64_small f.position (omega arith))
            ∙ (fread-fseek changed (length (b ∷ bytes)) f.position
                ∙ (ap (λ c. take (length (b ∷ bytes)) (drop f.position c)) whole
                    ∙ read_back f.position b bytes f.content)),
        ap (take f.position) whole ∙ take-write_at f.position b bytes f.content,
        ap (drop (f.position + length (b ∷ bytes))) whole
            ∙ drop_behind f.position b bytes f.content,
      )
