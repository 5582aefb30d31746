-- ===== src/Archive/Format/Order/Laws.antt =====
-- The order of the formats in `fill_formats` of src/7zip/Format.cpp, against the list before it.
use fuse3_p7zip.Base.{
  Bytes, codes, ◌≡◌, ◌≢◌, refl, ap, ◌∙◌, sym, subst, List, [], ◌∷◌, ◌++◌, append_assoc, append-nil,
  Option, none, some, false, ◌==◌, nat_eq, list_eq, beq_ne, beq_refl, All, both,
}
use fuse3_p7zip.Base.Outcome.{Outcome, ok, Gives, gives, Gives-then, Gives-map, given}
use mathlib.Core.List.{Perm, perm_middle}
use mathlib.Core.List.Perm
use fuse3_p7zip.Archive.Format.Order.{
  Lists, put_back, move_found, unsorted, take_out, pick, picks, reorder,
}

-- The lists, one behind the other.
abbrev all_of {ℓ} : {F : Type ℓ} → Lists F → List F
all_of s = s.head ++ (s.formats ++ s.tail)

module _ {ℓ} {F : Type ℓ} (name_of : F → Outcome Bytes) where
  abbrev pub IsNamed : F → Type 0
  IsNamed f = (name : Bytes) × (name_of f ≡ ok name)

  -- What was found comes out of the list, and what is left has names.
  abbrev IsTaken : List F → Option (F × List F) → Type ℓ
  IsTaken fs none = Unit
  IsTaken fs (some (f, left)) = Perm fs (f ∷ left) × All IsNamed left

  put_back-IsTaken :
      (f : F) (fs : List F) (r : Option (F × List F))
      → IsNamed f
      → IsTaken fs r
      → IsTaken (f ∷ fs) (put_back f r)
  unfolding put_back
  put_back-IsTaken f fs none n t = tt
  put_back-IsTaken f fs (some (found, left)) n (p, ns) =
      (Perm.trans (Perm.cons f p) (Perm.swap found f left), (n, ns))

  take_out-Gives :
      (wanted : Bytes) (fs : List F)
      → All IsNamed fs
      → Gives (IsTaken fs) (take_out name_of wanted fs)
  unfolding take_out
  take_out-Gives wanted [] ns = gives tt
  take_out-Gives wanted (f ∷ fs) ((name, e), ns) =
      rw (e, take_out)
        (both (Gives (IsTaken (f ∷ fs))) (name == wanted) (gives (Perm.refl (f ∷ fs), ns)) (
          Gives-then (IsTaken fs) (IsTaken (f ∷ fs)) (take_out name_of wanted fs) _
            (take_out-Gives wanted fs ns) (λ r t. gives (put_back-IsTaken f fs r (name, e) t))))

  move_to_head :
      (s : Lists F) (f : F) (left : List F)
      → Perm s.formats (f ∷ left)
      → Perm (all_of s) ((s.head ++ (f ∷ [])) ++ (left ++ s.tail))
  move_to_head s f left p =
      subst (Perm (all_of s)) (sym (append_assoc s.head (f ∷ []) (left ++ s.tail)))
        (Perm.append_left s.head (Perm.append_right s.tail p))

  move_to_tail :
      (s : Lists F) (f : F) (left : List F)
      → Perm s.formats (f ∷ left)
      → Perm (all_of s) (s.head ++ (left ++ (s.tail ++ (f ∷ []))))
  move_to_tail s f left p = Perm.append_left s.head (
      Perm.trans (Perm.append_right s.tail p) (
        subst (λ l. Perm (f ∷ l) (left ++ (s.tail ++ (f ∷ [])))) (append-nil (left ++ s.tail))
          (Perm.symm (
            subst (λ l. Perm l (f ∷ ((left ++ s.tail) ++ []))) (append_assoc left s.tail (f ∷ []))
              (perm_middle (left ++ s.tail) [])))))

  -- Nothing is lost, what is left has names, and the head only grows, at its end.
  record Follows (s t : Lists F) : Type ℓ where
    same : Perm (all_of s) (all_of t)
    named : All IsNamed t.formats
    more : List F
    grows : t.head ≡ s.head ++ more

  Follows-refl : (s : Lists F) → All IsNamed s.formats → Follows s s
  Follows-refl s ns = record {
    same = Perm.refl (all_of s);
    named = ns;
    more = [];
    grows = sym (append-nil s.head);
  }

  Follows-trans : (s t u : Lists F) → Follows s t → Follows t u → Follows s u
  Follows-trans s t u a b = record {
    same = Perm.trans a.same b.same;
    named = b.named;
    more = a.more ++ b.more;
    grows = b.grows ∙ (ap (λ l. l ++ b.more) a.grows ∙ append_assoc s.head a.more b.more);
  }

  move_found-Follows :
      (r : Option (F × List F)) (s : Lists F)
      → All IsNamed s.formats
      → IsTaken s.formats r
      → Follows s (move_found r s)
  unfolding move_found
  move_found-Follows none s ns t = Follows-refl s ns
  move_found-Follows (some (f, left)) s ns (p, rest) =
      both (Follows s) s.after_star
        (record {
          same = move_to_tail s f left p;
          named = rest;
          more = [];
          grows = sym (append-nil s.head);
        })
        (record { same = move_to_head s f left p; named = rest; more = f ∷ []; grows = refl })

  pick-Follows :
      (it : Bytes) (s : Lists F) → All IsNamed s.formats → Gives (Follows s) (pick name_of it s)
  unfolding pick
  pick-Follows it s ns =
      both (Gives (Follows s)) (it == codes "*")
        (gives (record {
          same = Perm.refl (all_of s);
          named = ns;
          more = [];
          grows = sym (append-nil s.head);
        }))
        (Gives-then (IsTaken s.formats) (Follows s) (take_out name_of it s.formats) _
          (take_out-Gives it s.formats ns) (λ r t. gives (move_found-Follows r s ns t)))

  picks-Follows :
      (its : List Bytes) (s : Lists F)
      → All IsNamed s.formats
      → Gives (Follows s) (picks name_of its s)
  unfolding picks
  picks-Follows [] s ns = gives (Follows-refl s ns)
  picks-Follows (it ∷ its) s ns =
      Gives-then (Follows s) (Follows s) (pick name_of it s) _ (pick-Follows it s ns) λ t a.
        Gives-map (Follows t) (Follows s) (picks name_of its t) (picks-Follows its t a.named)
          λ u b. Follows-trans s t u a b

  -- Whatever words the variable has, if every format has a name, the formats are put in a new
  -- order, which is a permutation of them.
  pub reorder-Perm :
      (words : List Bytes) (formats : List F)
      → All IsNamed formats
      → (out : List F) × (reorder name_of words formats ≡ ok out) × Perm formats out
  unfolding reorder
  reorder-Perm words formats ns = given (Perm formats) (reorder name_of words formats) (
      Gives-then (Follows (unsorted formats)) (Perm formats)
        (picks name_of words (unsorted formats)) _ (picks-Follows words (unsorted formats) ns)
        λ t a. gives (subst (λ l. Perm l (all_of t)) (append-nil formats) a.same))

  -- Has a name, and not that.
  abbrev pub IsOther : Bytes → F → Type 0
  IsOther wanted f = (name : Bytes) × (name_of f ≡ ok name) × (name ≢ wanted)

  take_out_first :
      (wanted : Bytes) (before after : List F) (f : F)
      → All (IsOther wanted) before
      → name_of f ≡ ok wanted
      → take_out name_of wanted (before ++ (f ∷ after)) ≡ ok (some (f, before ++ after))
  unfolding take_out put_back
  take_out_first wanted [] after f others e = rw (e, take_out, beq_refl wanted) refl
  take_out_first wanted (g ∷ before) after f ((name, e', other), others) e =
      rw (e', take_out, beq_ne name wanted other, take_out_first wanted before after f others e)
        refl

  pick_first :
      (wanted : Bytes) (before after : List F) (f : F)
      → wanted ≢ codes "*"
      → All (IsOther wanted) before
      → name_of f ≡ ok wanted
      → pick name_of wanted (unsorted (before ++ (f ∷ after)))
        ≡ ok (record { formats = before ++ after; head = f ∷ []; tail = []; after_star = false })
  unfolding pick move_found
  pick_first wanted before after f word others e =
      rw (beq_ne wanted (codes "*") word, take_out_first wanted before after f others e, pick) refl

  others-IsNamed :
      (wanted : Bytes) (before after : List F)
      → All (IsOther wanted) before
      → All IsNamed after
      → All IsNamed (before ++ after)
  others-IsNamed wanted [] after os ns = ns
  others-IsNamed wanted (g ∷ before) after ((name, e, other), os) ns =
      ((name, e), others-IsNamed wanted before after os ns)

  -- If the variable's first word is not `*` and is the name of a format, every format has a name,
  -- and none before that one has the same, then the formats are put in an order with that one
  -- first, whatever the other words are.
  pub reorder-first :
      (wanted : Bytes) (words : List Bytes) (before after : List F) (f : F)
      → wanted ≢ codes "*"
      → All (IsOther wanted) before
      → name_of f ≡ ok wanted
      → All IsNamed after
      → (rest : List F) × (reorder name_of (wanted ∷ words) (before ++ (f ∷ after)) ≡ ok (f ∷ rest))
  unfolding reorder picks
  reorder-first wanted words before after f word others e ns =
      let t : Lists F = record {
        formats = before ++ after;
        head = f ∷ [];
        tail = [];
        after_star = false;
      } in
      let (u, picked, a) =
        given (Follows t) (picks name_of words t)
          (picks-Follows words t (others-IsNamed wanted before after others ns)) in
      (
        a.more ++ (u.formats ++ u.tail),
        rw (pick_first wanted before after f word others e, picked)
            (ap (λ l. ok (l ++ (u.formats ++ u.tail))) a.grows),
      )
