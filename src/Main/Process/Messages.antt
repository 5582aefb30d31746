-- ===== src/Main/Process/Messages.antt =====
-- What main (src/main.cpp) writes to the log, from the code page on.
use fuse3_p7zip.Base.{
  Bytes, codes, ◌≡◌, refl, ap, ◌∙◌, List, [], ◌∷◌, ◌++◌, Option, none, some, inl, inr,
}
use mathlib.Core.List.{map}
use fuse3_p7zip.Base.Outcome.{
  Outcome, ok, throws, fault, Outcome-cases, Ensures, returned, thrown, faulted, Ensures-then,
}
use fuse3_p7zip.Host.{Host}
use fuse3_p7zip.FilePath.{from_string}
use fuse3_p7zip.Log.{vsyslog, closelog, log_notice, process}
use fuse3_p7zip.Log.Laws.{opening, process_lem}
use fuse3_p7zip.Codepage.{find_codepage}
use fuse3_p7zip.Stream.Read.{ReadStream, open_stream}
use fuse3_p7zip.Archive.Loading.{Lib, library_of}
use fuse3_p7zip.Archive.Opening.{Library, open_archive, open_file}
use fuse3_p7zip.Archive.Opening.Messages.{open_messages, Names, open_messages-Names}
use fuse3_p7zip.Fuse.Params.{CmdParams, archive_of}
use fuse3_p7zip.Fuse.Password.{Password}
use fuse3_p7zip.Main.{with_encoding}
use fuse3_p7zip.Main.Process.{World, password_of, serve_archive}

unfoldable pub detected : Option Bytes → List Bytes
detected none = []
detected (some cp) = (codes "detected encoding: " ++ cp) ∷ []

-- From the constructor of the stream on.
unfoldable pub stream_messages : Host → Library → Outcome ReadStream → List Bytes
unfolding open_messages
stream_messages h lib (ok stream) = open_messages h lib lib.formats stream
stream_messages h lib (throws m) = []
stream_messages h lib fault = []

unfoldable pub messages : World → Lib → CmdParams → Password → List Bytes
unfolding find_codepage detected password_of stream_messages open_stream
messages w lib p source =
    let h = with_encoding w.host (archive_of p) in
    detected (find_codepage (archive_of p))
    ++ ((codes "open archive: " ++ archive_of p) ∷ elim (password_of w.shell source) [
      | ok _ ↦
          stream_messages h (library_of w.code lib)
            (open_stream h w.disk (from_string (archive_of p)))
      | throws m ↦ []
      | fault ↦ []
    ])

-- A fact holds whatever is returned.
any-Ensures {ℓ κ} : {A : Type ℓ} {Q : Type κ} (o : Outcome A) → Q → Ensures (λ a. Q) o
any-Ensures (ok a) q = returned q
any-Ensures (throws m) q = thrown
any-Ensures fault q = faulted

module _ (w : World) (lib : Lib) (p : CmdParams) (source : Password) where
  -- The messages of a run that has opened its archive with a format of that name.
  abbrev opened : Bytes → List Bytes
  opened name =
      detected (find_codepage (archive_of p))
      ++ ((codes "open archive: " ++ archive_of p) ∷ (codes "selected format: " ++ name) ∷ [])

  abbrev Logs : Type 0
  Logs =
      (name : Bytes) × (process (messages w lib p source)
        ≡ opening ∷ (map (vsyslog log_notice) (opened name) ++ (closelog ∷ [])))

  process-detected :
      (cp : Option Bytes) (m : Bytes) (ms : List Bytes)
      → process (detected cp ++ (m ∷ ms))
        ≡ opening ∷ (map (vsyslog log_notice) (detected cp ++ (m ∷ ms)) ++ (closelog ∷ []))
  unfolding detected
  process-detected none m ms = (process_lem m ms).1
  process-detected (some cp) m ms = (process_lem (codes "detected encoding: " ++ cp) (m ∷ ms)).1

  opened-Logs : (name : Bytes) → messages w lib p source ≡ opened name → Logs
  opened-Logs name same =
      (name, ap process same ∙ process-detected (find_codepage (archive_of p)) _ _)

  abbrev h : Host
  h = with_encoding w.host (archive_of p)

  abbrev library : Library
  library = library_of w.code lib

  messages_opening :
      {answer : Bytes × Password} {stream : ReadStream}
      → password_of w.shell source ≡ ok answer
      → open_stream h w.disk (from_string (archive_of p)) ≡ ok stream
      → messages w lib p source
        ≡ detected (find_codepage (archive_of p))
          ++ ((codes "open archive: " ++ archive_of p) ∷ open_messages h library lib.formats stream)
  unfolding messages detected library_of
  messages_opening e is_open = rw (messages, e, is_open, stream_messages) refl

  open_file-Logs :
      {answer : Bytes × Password}
      → password_of w.shell source ≡ ok answer
      → Ensures (λ a. Logs) (open_file h library w.disk w.address (from_string (archive_of p)))
  unfolding open_file library_of
  open_file-Logs e = elim (Outcome-cases (open_stream h w.disk (from_string (archive_of p)))) [
    | inl (stream, is_open) ↦
        rw (is_open, open_file)
          (Ensures-then (Names h library (open_messages h library lib.formats stream)) (λ a. Logs)
            (open_archive h library lib.formats stream) _
            (open_messages-Names h library lib.formats stream)
            λ o (name, named, same). any-Ensures _ (
              opened-Logs name (
                messages_opening e is_open
                ∙ ap
                    (λ ms.
                      detected (find_codepage (archive_of p))
                      ++ ((codes "open archive: " ++ archive_of p) ∷ ms))
                    same)))
    | inr (inl (m, fails)) ↦ rw (fails, open_file) thrown
    | inr (inr faults) ↦ rw (faults, open_file) faulted
  ]

  -- Where the archive is opened and nothing is thrown, the log is opened, tells of the code page, if
  -- the path has one, of the path and of the format, in that order, and is closed.
  serve_archive-Logs : Ensures (λ r. Logs) (serve_archive w lib p source)
  unfolding serve_archive
  serve_archive-Logs = elim (Outcome-cases (password_of w.shell source)) [
    | inl ((asked, kept), e) ↦
        rw (e, serve_archive)
          (Ensures-then (λ a. Logs) (λ r. Logs) _ _ (open_file-Logs e) λ a logs. any-Ensures _ logs)
    | inr (inl (m, e)) ↦ rw (e, serve_archive) thrown
    | inr (inr e) ↦ rw (e, serve_archive) faulted
  ]
