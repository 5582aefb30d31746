-- ===== src/Tests/Mounting.antt =====
-- The archive opened and mounted.
use fuse3_p7zip.Base.{codes, ◌≡◌, refl, true, false, [], ◌∷◌, none, some, nat_eq, ◌≢◌, ◌⊎◌}
use fuse3_p7zip.Base.Int.{ℤ, pos, negsuc}
use fuse3_p7zip.Base.Outcome.{ok}
use fuse3_p7zip.Host.{done}
use fuse3_p7zip.FilePath.{FilePath-eq, from_string}
use fuse3_p7zip.Text.Encoding
use fuse3_p7zip.Stream.Read.{Disk}
use fuse3_p7zip.Archive.Property.{Variant}
use fuse3_p7zip.Archive.Opening.{Library, open_file}
use fuse3_p7zip.Fuse.Lifecycle.{Libfuse, process, returned, exited}
use fuse3_p7zip.Fuse.Lifecycle.Laws.{
  obey_all, nothing_held, created_only, still_mounted, process-obey_all,
}
use fuse3_p7zip.Main.{Request, with_encoding}
use fuse3_p7zip.Tests.{host, archive, archive_stat, format, handler}

abbrev pub library : Library
library = record {
  exports = record {
    get_number_of_formats = (pos 0, 1);
    get_handler_property2 = some (λ idx id. (pos 0, Variant.bstr (some (codes "zip"))));
    get_handler_property = none;
  };
  formats = format ∷ [];
  create_object = λ f. (
    pos 0,
    record {
      handler = handler;
      open_stream = λ s. (s, pos 0);
      get_number_of_archive_properties = (pos 0, 0);
    },
  );
}

abbrev pub disk : Disk
disk = record {
  fopen = λ path. done (record { content = codes "PK"; position = 0; error = false; room = 2 });
  lstat = λ path. archive_stat;
}

abbrev pub request : Request
request = record { path = codes "/x/a.zip"; password = []; allow_other = true }

pub opens :
    open_file
      (with_encoding host (codes "/x/a.zip"))
      library
      disk
      16
      (from_string (codes "/x/a.zip"))
    ≡ ok archive
unfolding open_file Encoding.utf8 Encoding.wide_bytes
opens = refl

-- The process cannot become a daemon.
abbrev no_daemon : Libfuse
no_daemon = record {
  fuse_new = true;
  fuse_mount = pos 0;
  fuse_daemonize = negsuc 0;
  fuse_set_signal_handlers = pos 0;
  fuse_loop = pos 0;
}

process-obey_all_example :
    ((◌≡◌ {A = ℤ} (pos 0) (pos 0))
      × (◌≡◌ {A = ℤ} (negsuc 0) (pos 0))
      × (◌≡◌ {A = ℤ} (pos 0) (pos 0))
      × ((process no_daemon).1 ≡ returned (pos 0))
      × (obey_all (process no_daemon).0 nothing_held ≡ some nothing_held))
    ⊎ ((◌≢◌ {A = ℤ} (pos 0) (pos 0))
        × ((process no_daemon).1 ≡ exited 1)
        × (obey_all (process no_daemon).0 nothing_held ≡ some created_only))
    ⊎ ((◌≡◌ {A = ℤ} (pos 0) (pos 0))
        × ((◌≢◌ {A = ℤ} (negsuc 0) (pos 0)) ⊎ (◌≢◌ {A = ℤ} (pos 0) (pos 0)))
        × ((process no_daemon).1 ≡ exited 1)
        × (obey_all (process no_daemon).0 nothing_held ≡ some still_mounted))
process-obey_all_example = process-obey_all no_daemon refl
