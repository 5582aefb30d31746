-- ===== src/Fuse/Loop/Serves.antt =====
-- A run of the callbacks of src/fuse3.cpp, against what a read-only file system promises.
use fuse3_p7zip.Base.{◌≡◌, refl, sym, subst, List, [], ◌∷◌, nat_eq}
use fuse3_p7zip.Base.Outcome.{ok}
use fuse3_p7zip.Host.{Host}
use fuse3_p7zip.FilePath.{FilePath-eq}
use fuse3_p7zip.Fuse.Operations.{Session}
use fuse3_p7zip.Fuse.Loop.{Request, getattr, readdir, opens, reads, releases, Answer, serve}
use fuse3_p7zip.Fuse.Loop.Spec.{FileSystem, Opens, IsLegal, after, AllLegal, AllAllowed}
use fuse3_p7zip.Fuse.Loop.Represents.{Represents}
use fuse3_p7zip.Fuse.Loop.Answers.{
  Serves, getattr-Serves, readdir-Serves, opens-Serves, reads-Serves, releases-Serves,
}

module _ (h : Host) (fs : FileSystem) where
  request-Serves :
      (s : Session) (o : Opens) (r : Request)
      → Represents h s fs o
      → IsLegal fs r o
      → Serves h fs s o r
  request-Serves s o (getattr path) rep legal = getattr-Serves h fs s o path rep
  request-Serves s o (readdir path) rep (d, e, a, p) =
      subst (λ q. Serves h fs s o (readdir q)) (sym e) (readdir-Serves h fs s o d rep a p)
  request-Serves s o (opens path address) rep legal = opens-Serves h fs s o path address rep legal
  request-Serves s o (reads size offset fh) rep (bytes, n, there, e, small, lt) =
      subst (λ q. Serves h fs s o (reads size q fh)) (sym e)
        (reads-Serves h fs s o size n fh bytes rep there small lt)
  request-Serves s o (releases fh) rep (bytes, there) = releases-Serves h fs s o fh bytes rep there

  pub serve-AllAllowed :
      (rs : List Request) (s : Session) (o : Opens)
      → Represents h s fs o
      → AllLegal fs rs o
      → (t : Session) × (answers : List Answer) × (serve h rs s ≡ ok (t, answers))
        × AllAllowed fs rs answers o
  unfolding serve
  serve-AllAllowed [] s o rep legal = (s, [], refl, tt)
  serve-AllAllowed (r ∷ rs) s o rep (legal, later) =
      let (t, answer, e, allowed, rep') = request-Serves s o r rep legal in
      let (u, answers, e', allowed') = serve-AllAllowed rs t (after fs r o) rep' later in
      (u, answer ∷ answers, rw (serve, e, e') refl, (allowed, allowed'))
