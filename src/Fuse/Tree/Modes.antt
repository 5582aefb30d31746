-- ===== src/Fuse/Tree/Modes.antt =====
-- The file types in the tree of Fuse::execute (src/fuse3.cpp).
use fuse3_p7zip.Base.{ℕ, ◌≡◌, Bool, true, false, if◌then◌else◌, ◌∙◌}
use fuse3_p7zip.Fuse.Stat.{Stat, Timespec, format_of, directory, regular, as_root}
use fuse3_p7zip.Fuse.Stat.Laws.{
  format_of-as_directory, format_of-as_regular, format_of-as_root, format_of-open_to_others,
}
use fuse3_p7zip.Fuse.Tree.{root_stat, entry_stat, directory_of}

root_mode : (allow_other : Bool) (s : Stat) → format_of (root_stat allow_other s).mode ≡ directory
unfolding root_stat
root_mode true s = format_of-open_to_others (as_root s.mode) ∙ format_of-as_root s.mode
root_mode false s = format_of-as_root s.mode

entry_mode :
    (s : Stat) (is_dir : Bool) (size : ℕ) (atime mtime ctime : Timespec)
    → format_of (entry_stat s is_dir size atime mtime ctime).mode
      ≡ (if is_dir then directory else regular)
unfolding entry_stat
entry_mode s true size atime mtime ctime = format_of-as_directory s.mode
entry_mode s false size atime mtime ctime = format_of-as_regular s.mode

-- Whatever the mode of the archive's own file, the root is a directory, an item is a directory if
-- the library says so and else a regular file, and what is made up above it is a directory.
modes :
    (allow_other : Bool) (s : Stat) (is_dir : Bool) (size : ℕ) (atime mtime ctime : Timespec)
    → (format_of (root_stat allow_other s).mode ≡ directory)
      × (format_of (entry_stat s is_dir size atime mtime ctime).mode
          ≡ (if is_dir then directory else regular))
      × (format_of (directory_of (entry_stat s is_dir size atime mtime ctime)).mode ≡ directory)
modes allow_other s is_dir size atime mtime ctime = (
  root_mode allow_other s,
  entry_mode s is_dir size atime mtime ctime,
  format_of-as_directory (entry_stat s is_dir size atime mtime ctime).mode,
)
