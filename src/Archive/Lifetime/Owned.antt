-- ===== src/Archive/Lifetime/Owned.antt =====
-- Which references to its stream an archive and its handler own (src/7zip/Archive.cpp).
use fuse3_p7zip.Base.{ℕ, ◌+◌, ◌≡◌, refl, ap, ◌∙◌, none, some}
use fuse3_p7zip.Base.Int.{ℤ-eq}
use fuse3_p7zip.Base.Outcome.{Outcome, ok, throws, fault, ◌>>=◌}
use fuse3_p7zip.Archive.Lifetime.{
  Keeper, Store, Held, Holding, touch_all, release_arc, destruct_members, destruct, unwind,
  holding_then, touch, releases_ref,
}
use fuse3_p7zip.Archive.Lifetime.Counting.{
  GivesBack, counted, deleted, last, touch_all-when_open, touch_all-closed,
}

-- The stream has the program's reference and those that the handler keeps.
abbrev pub Owns : ℕ → Held → Type 0
Owns files (none, s) = s ≡ counted 0 files
Owns files (some k, s) = (g : GivesBack k) × (s ≡ counted g.kept files)

abbrev pub OwnsAfter {ℓ} : {A : Type ℓ} → ℕ → Holding A → Type 0
OwnsAfter files (ok a, (none, s)) = ⊥
OwnsAfter files (ok a, (some k, s)) = Owns files (some k, s)
OwnsAfter files (throws m, held) = Owns files held
OwnsAfter files (fault, held) = Unit

pub release_arc-Owns :
    (files : ℕ) (held : Held) → Owns files held → release_arc held ≡ counted 0 files
unfolding release_arc
release_arc-Owns files (none, s) e = e
release_arc-Owns files (some k, s) (g, e) =
    ap (touch_all k.when_open) e ∙ touch_all-when_open g files

pub destruct_members-Owns :
    (files : ℕ) (held : Held) → Owns (files + 1) held → destruct_members held ≡ deleted files
unfolding destruct_members
destruct_members-Owns files held o =
    ap (touch releases_ref) (release_arc-Owns (files + 1) held o) ∙ last files

pub destruct-Owns :
    (files : ℕ) (k : Keeper) (s : Store)
    → Owns (files + 1) (some k, s)
    → destruct (some k, s) ≡ deleted files
unfolding destruct
destruct-Owns files k s (g, e) =
    ap (λ t. touch releases_ref (touch_all k.when_closed (touch_all k.in_close t))) e
    ∙ ap (touch releases_ref) (touch_all-closed g (files + 1))
    ∙ last files

-- Whatever the outcome, the handler has been readied.
pub kept-OwnsAfter {ℓ} :
    {A : Type ℓ} (files : ℕ) (o : Outcome A) (k : Keeper) (s : Store)
    → Owns files (some k, s)
    → OwnsAfter files (o, (some k, s))
kept-OwnsAfter files (ok a) k s own = own
kept-OwnsAfter files (throws m) k s own = own
kept-OwnsAfter files fault k s own = tt

pub holding_then-outcome {ℓ κ} :
    {A : Type ℓ} {B : Type κ} (r : Holding A) (f : A → Held → Holding B) (g : A → Outcome B)
    → ((a : A) (held : Held) → (f a held).0 ≡ g a)
    → (holding_then r f).0 ≡ (r.0 >>= g)
unfolding holding_then
holding_then-outcome (ok a, held) f g e = e a held
holding_then-outcome (throws m, held) f g e = refl
holding_then-outcome (fault, held) f g e = refl

pub unwind-outcome {ℓ} : {A : Type ℓ} (r : Holding A) → (unwind r).0 ≡ r.0
unfolding unwind
unwind-outcome (ok a, held) = refl
unwind-outcome (throws m, held) = refl
unwind-outcome (fault, held) = refl
