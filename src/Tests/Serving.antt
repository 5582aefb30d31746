-- ===== src/Tests/Serving.antt =====
-- The archive opened, mounted, and asked.
use fuse3_p7zip.Base.{◌≡◌, refl, List, some, arith}
use fuse3_p7zip.Base.Outcome.{ok}
use fuse3_p7zip.Host.{done}
use fuse3_p7zip.FilePath.{FilePath}
use fuse3_p7zip.Stdio.{new_file}
use fuse3_p7zip.Codepage.{detect_encoding}
use fuse3_p7zip.Fuse.Tree.{Node}
use fuse3_p7zip.Fuse.Tree.Entries.{last_node}
use fuse3_p7zip.Fuse.Operations.{Session}
use fuse3_p7zip.Fuse.Loop.{Answer, serve}
use fuse3_p7zip.Fuse.Loop.Spec.{AllAllowed}
use fuse3_p7zip.Fuse.Loop.Mounted.{file_system, nothing_open, node_of}
use fuse3_p7zip.Main.{new_session, mount}
use fuse3_p7zip.Main.Serving.{mount-AllAllowed}
use fuse3_p7zip.Tests.{host, archive}
use fuse3_p7zip.Tests.Files.{entries, archive-IsOpen, reads}
use fuse3_p7zip.Tests.Handles.{session, requests, legal, password_decodes, orderly}
use fuse3_p7zip.Tests.Mounting.{library, disk, request, opens}

mount-AllAllowed_example :
    (mount host library disk 16 request (done (new_file 100)) ≡ ok (some session))
    × ((t : Session) × (answers : List Answer) × (serve host requests session ≡ ok (t, answers))
        × AllAllowed (file_system host session) requests answers nothing_open)
    × ((k : FilePath) (v : Node)
        → last_node k entries ≡ some v
        → (file_system host session).node k ≡ node_of (some v))
unfolding detect_encoding new_session
mount-AllAllowed_example =
    mount-AllAllowed host library disk 16 request archive entries opens archive-IsOpen reads 100
      password_decodes (λ i lt. (orderly, refl, omega arith)) requests legal
