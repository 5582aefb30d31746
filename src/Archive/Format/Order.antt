-- ===== src/Archive/Format/Order.antt =====
-- The order of the formats: FUSE3_P7ZIP_FORMATS in `fill_formats` of src/7zip/Format.cpp.
pub mod Laws
use fuse3_p7zip.Base.{
  Bytes, codes, ◌≡◌, Bool, true, false, List, [], ◌∷◌, ◌++◌, Option, none, some, ◌==◌, nat_eq,
  list_eq, if◌then◌else◌,
}
use fuse3_p7zip.Base.Outcome.{Outcome, ok, ◌>>=◌}

-- The variables of the loop: the flag says that `current` points to `tail`.
pub record Lists {ℓ} (F : Type ℓ) : Type ℓ where
  pub formats : List F
  pub head : List F
  pub tail : List F
  pub after_star : Bool

module _ {ℓ} {F : Type ℓ} where
  -- A format that was passed over stays.
  unfoldable pub put_back : F → Option (F × List F) → Option (F × List F)
  put_back f none = none
  put_back f (some (found, left)) = some (found, f ∷ left)

  -- `current->emplace_back(*f); m_formats.erase(f);` if there is one
  unfoldable pub move_found : Option (F × List F) → Lists F → Lists F
  move_found none s = s
  move_found (some (f, left)) s =
      if s.after_star
      then record s { formats = left; tail = s.tail ++ (f ∷ []) }
      else record s { formats = left; head = s.head ++ (f ∷ []) }

  -- Where the loop begins.
  abbrev pub unsorted : List F → Lists F
  unsorted formats = record { formats = formats; head = []; tail = []; after_star = false }

-- The name of a format is read each time that it is compared.
module _ {ℓ} {F : Type ℓ} (name_of : F → Outcome Bytes) where
  -- `find_if`, and what `erase` leaves: the first format of that name, and the rest.
  unfoldable pub take_out : Bytes → List F → Outcome (Option (F × List F))
  unfolding nat_eq list_eq put_back
  take_out wanted [] = ok none
  take_out wanted (f ∷ fs) =
      let rest = take_out wanted fs in
      name_of f >>= λ name.
      if name == wanted then ok (some (f, fs)) else (rest >>= λ r. ok (put_back f r))

  -- One round of the loop over the words of the variable.
  unfoldable pub pick : Bytes → Lists F → Outcome (Lists F)
  unfolding take_out move_found nat_eq list_eq
  pick it s =
      if it == codes "*"
      then ok (record s { after_star = true })
      else (take_out it s.formats >>= λ r. ok (move_found r s))

  unfoldable pub picks : List Bytes → Lists F → Outcome (Lists F)
  unfolding pick
  picks [] s = ok s
  picks (it ∷ its) s = pick it s >>= λ t. picks its t

  -- The order that the words ask for.
  unfoldable pub reorder : List Bytes → List F → Outcome (List F)
  unfolding picks
  reorder words formats =
      picks words (unsorted formats) >>= λ s. ok (s.head ++ (s.formats ++ s.tail))
