-- ===== src/Fuse/Loop.antt =====
-- The requests that fuse_loop hands to the callbacks of Fuse::Operations (src/fuse3.cpp), one after
-- the other, and the answers.
pub mod Spec
pub mod Lists
pub mod Represents
pub mod Answers
pub mod Serves
pub mod Mounted
use fuse3_p7zip.Base.{ℕ, Bytes, List, [], ◌∷◌, Option}
use fuse3_p7zip.Base.Int.{ℤ}
use fuse3_p7zip.Base.Outcome.{Outcome, ok, ◌>>=◌}
use fuse3_p7zip.Host.{Host}
use fuse3_p7zip.Fuse.Stat.{Stat}
use fuse3_p7zip.Fuse.Operations.{
  Session, Filled, cb_getattr, cb_readdir, cb_open, cb_read, cb_release,
}

pub data Request : Type 0 where
  getattr readdir : Bytes → Request
  -- The path, and the address that `operator new` gives to the stream, if there is to be one.
  opens : Bytes → ℕ → Request
  -- The size, the offset and `fi->fh`.
  reads : ℕ → ℤ → ℕ → Request
  releases : ℕ → Request

-- The result, and what the callback filled in.
pub data Answer : Type 0 where
  attributes : ℤ → Stat → Answer
  entries : ℤ → List Filled → Answer
  handle : ℤ → Option ℕ → Answer
  contents : ℤ → Bytes → Answer
  released : ℤ → Answer

module _ (h : Host) where
  -- The members that the constructor of `Operations` sets.
  unfoldable pub dispatch : Request → Session → Outcome (Session × Answer)
  dispatch (getattr path) s =
      let (res, stat) = cb_getattr s.tree path in ok (s, attributes res stat)
  dispatch (readdir path) s =
      let (res, filled) = cb_readdir s.tree path in ok (s, entries res filled)
  dispatch (opens path address) s = do
    (t, res, fh) ← cb_open h s path address
    ok (t, handle res fh)
  dispatch (reads size offset fh) s = do
    (t, res, bytes) ← cb_read s size offset fh
    ok (t, contents res bytes)
  dispatch (releases fh) s = do (t, res) ← cb_release s fh; ok (t, released res)

  -- `fuse_loop`, while there are requests.
  unfoldable pub serve : List Request → Session → Outcome (Session × List Answer)
  unfolding dispatch
  serve [] s = ok (s, [])
  serve (r ∷ rs) s = do
    (t, answer) ← dispatch r s
    (u, answers) ← serve rs t
    ok (u, answer ∷ answers)
