-- ===== src/Archive/ProposedName/Laws.antt =====
-- `proposed_name` of src/7zip/Archive.cpp, by the two lists of extensions of the format.
use fuse3_p7zip.Base.{
  ℕ, zero, suc, ◌+◌, Bytes, codes, ◌≡◌, ◌≢◌, refl, ap, ◌∙◌, true, false, List, [], ◌∷◌, none, some,
  ◌==◌, nat_eq, list_eq, arith, get_elem?, beq_refl, beq_ne,
}
use fuse3_p7zip.Base.Outcome.{ok, fault}
use fuse3_p7zip.Archive.ProposedName.{propose, replace_extension, extension, proposed_name}
use fuse3_p7zip.Archive.Iterator.{Archive}
use fuse3_p7zip.FilePath.{filename}

-- `def` stands at a position of the list, for the first time.
abbrev pub FirstAt : Bytes → ℕ → List Bytes → Type 0
FirstAt def i [] = ⊥
FirstAt def zero (d ∷ ds) = d ≡ def
FirstAt def (suc i) (d ∷ ds) = (d ≢ def) × FirstAt def i ds

here_lem : (ext d def : Bytes) → d ≡ def → ext ≡ b'.' ∷ def → (ext == b'.' ∷ d) ≡ true
here_lem ext d def at e = rw (e, at) (beq_refl (b'.' ∷ def))

other_lem : (ext d def : Bytes) → d ≢ def → ext ≡ b'.' ∷ def → (ext == b'.' ∷ d) ≡ false
other_lem ext d def ne e = beq_ne ext (b'.' ∷ d) (λ q. ne (cc))

shift : (add : List Bytes) (k i : ℕ) → get_elem? add (k + 1 + i) ≡ get_elem? add (k + suc i)
shift add k i = ap (get_elem? add) (omega arith)

propose_first :
    (name ext new : Bytes) (defs add : List Bytes) (i k : ℕ) (def : Bytes)
    → FirstAt def i defs
    → ext ≡ b'.' ∷ def
    → get_elem? add (k + i) ≡ some new
    → new ≢ codes "*"
    → propose name ext add k defs ≡ ok (replace_extension name new)
unfolding propose
propose_first name ext new [] add i k def at e there ne = absurd at
propose_first name ext new (d ∷ defs) add zero k def at e there ne =
    let found : get_elem? add k ≡ some new = ap (get_elem? add) (omega arith) ∙ there in
    rw (here_lem ext d def at e, found, beq_ne new (codes "*") ne) refl
propose_first name ext new (d ∷ defs) add (suc i) k def (d_ne, at) e there ne =
    rw (other_lem ext d def d_ne e)
      (propose_first name ext new defs add i (k + 1) def at e (shift add k i ∙ there) ne)

propose_short :
    (name ext : Bytes) (defs add : List Bytes) (i k : ℕ) (def : Bytes)
    → FirstAt def i defs
    → ext ≡ b'.' ∷ def
    → get_elem? add (k + i) ≡ none
    → propose name ext add k defs ≡ fault
unfolding propose
propose_short name ext [] add i k def at e short = absurd at
propose_short name ext (d ∷ defs) add zero k def at e short =
    let absent : get_elem? add k ≡ none = ap (get_elem? add) (omega arith) ∙ short in
    rw (here_lem ext d def at e, absent) refl
propose_short name ext (d ∷ defs) add (suc i) k def (d_ne, at) e short =
    rw (other_lem ext d def d_ne e)
      (propose_short name ext defs add i (k + 1) def at e (shift add k i ∙ short))

module _ (a : Archive) (i : ℕ) (def : Bytes) where
  -- If the archive's extension stands among the format's, for the first time at a position, and
  -- the other list has an extension at that position that is not `*`, the proposed name is the
  -- archive's with that extension instead.
  pub proposed_name-first :
      (new : Bytes)
      → FirstAt def i a.format.ext_def
      → extension (filename a.path) ≡ b'.' ∷ def
      → get_elem? a.format.ext_add i ≡ some new
      → new ≢ codes "*"
      → proposed_name a ≡ ok (replace_extension (filename a.path) new)
  unfolding proposed_name
  proposed_name-first new at e there ne =
      propose_first (filename a.path) (extension (filename a.path)) new a.format.ext_def
        a.format.ext_add i 0 def at e (ap (get_elem? a.format.ext_add) (omega arith) ∙ there) ne

  -- If the archive's extension stands among the format's, for the first time at a position where
  -- the other list has ended, proposed_name reads behind the end of that list.
  pub proposed_name-short :
      FirstAt def i a.format.ext_def
      → extension (filename a.path) ≡ b'.' ∷ def
      → get_elem? a.format.ext_add i ≡ none
      → proposed_name a ≡ fault
  unfolding proposed_name
  proposed_name-short at e short =
      propose_short (filename a.path) (extension (filename a.path)) a.format.ext_def
        a.format.ext_add i 0 def at e (ap (get_elem? a.format.ext_add) (omega arith) ∙ short)
