-- ===== src/Profiles/Store/Names.antt =====
-- The loops of `ProfileStore::load` of src/profiles/Profile.cpp that give the profiles their names.
use infinity_clicker.Base.{
  ℕ, ◌+◌, ◌<◌, ◌≡◌, refl, ap, sym, subst, ◌∙◌, arith, Bool, true, false, ◌||◌, ◌⊎◌, inl, inr,
  Bool-cases, List, [], ◌∷◌, ◌++◌, length, length-append,
}
use mathlib.Core.List.{append_assoc, append-nil}
use infinity_clicker.Json.{Text, text_eq, NumArith}
use infinity_clicker.Profiles.Profile.{RateArith, Profile}
use infinity_clicker.Str.{trim, is_empty_text}
use infinity_clicker.Profiles.Store.{
  has_name, renamed, name_or_usual, unique_name, rename_past, fix_names,
}
use infinity_clicker.Profiles.Store.Free.{text_eq_refl, text_eq_sym, Injects, unique_name_free}

abbrev pub has_only_blanks : Text → Bool
has_only_blanks n = is_empty_text (trim n)

-- `numbered base i` is what "%s (%d)" prints: other numbers print otherwise, and it is no blank text.
pub record IsNumbering (numbered : Text → ℕ → Text) : Type 0 where
  pub numbers_differ : (base : Text) → Injects (numbered base)
  pub never_blank : (base : Text) (i : ℕ) → has_only_blanks (numbered base i) ≡ false

module _ (na : NumArith) (ra : RateArith na) where
  -- No two profiles share a name, and no name is blank.
  abbrev pub HaveNames : List (Profile na ra) → Type 0
  HaveNames [] = Unit
  HaveNames (p ∷ ps) =
      (has_name na ra ps p.name ≡ false) × (has_only_blanks p.name ≡ false) × HaveNames ps

  has_name-append :
      (ps qs : List (Profile na ra)) (n : Text)
      → has_name na ra (ps ++ qs) n ≡ (has_name na ra ps n || has_name na ra qs n)
  has_name-append [] qs n = refl
  has_name-append (p ∷ ps) qs n = ground (arith, has_name-append ps qs n)

  HaveNames-append :
      (ps : List (Profile na ra)) (p : Profile na ra)
      → HaveNames ps
      → has_name na ra ps p.name ≡ false
      → has_only_blanks p.name ≡ false
      → HaveNames (ps ++ p ∷ [])
  HaveNames-append [] p h free full = (refl, full, _)
  HaveNames-append (q ∷ ps) p h free full = (
    ground (arith, has_name-append ps (p ∷ []) q.name, text_eq_sym q.name p.name),
    h.1,
    HaveNames-append ps p h.2 (ground arith) full,
  )

  name_or_usual_full : (p : Profile na ra) → has_only_blanks (name_or_usual na ra p).name ≡ false
  unfolding renamed
  name_or_usual_full p = elim (Bool-cases (has_only_blanks p.name)) [
    | inl e ↦ rw e refl
    | inr e ↦ rw e e
  ]

  -- What the inner loop gives: a name that is not blank and none of `qs` has, the old one or one that
  -- none of `before` has.
  abbrev IsRenamed : List (Profile na ra) → List (Profile na ra) → Text → Text → Type 0
  IsRenamed before qs old n =
      (has_only_blanks n ≡ false)
      × (has_name na ra qs n ≡ false)
      × ((n ≡ old) ⊎ (has_name na ra before n ≡ false))

  -- A name that none of `before` has, none of the profiles among them has.
  abbrev Within : List (Profile na ra) → List (Profile na ra) → Type 0
  Within qs before = (n : Text) → has_name na ra before n ≡ false → has_name na ra qs n ≡ false

  past_kept :
      (before qs : List (Profile na ra)) (q : Profile na ra) (old n : Text)
      → Within (q ∷ qs) before
      → text_eq q.name old ≡ false
      → IsRenamed before qs old n
      → IsRenamed before (q ∷ qs) old n
  past_kept before qs q old n s d r = elim r.2 [
    | inl e ↦ (r.0, rw e (rw d (subst (λ t. has_name na ra qs t ≡ false) e r.1)), inl e)
    | inr free ↦ (r.0, s n free, inr free)
  ]

  past_fresh :
      (before qs : List (Profile na ra)) (q : Profile na ra) (old new n : Text)
      → Within (q ∷ qs) before
      → has_name na ra before new ≡ false
      → IsRenamed before qs new n
      → IsRenamed before (q ∷ qs) old n
  past_fresh before qs q old new n s free r =
      let still : has_name na ra before n ≡ false = elim r.2 [
        | inl e ↦ ap (has_name na ra before) e ∙ free
        | inr f ↦ f
      ] in
      (r.0, s n still, inr still)

  fresh_name :
      (numbered : Text → ℕ → Text) (before after : List (Profile na ra)) (p : Profile na ra)
      → IsNumbering numbered
      → length (before ++ p ∷ after) < 9998
      → let new = unique_name na ra numbered (before ++ p ∷ after) p.name in
        (has_only_blanks new ≡ false) × (has_name na ra before new ≡ false)
  fresh_name numbered before after p nb l =
      let taken : has_name na ra (before ++ p ∷ after) p.name ≡ true =
        ground (arith, has_name-append before (p ∷ after) p.name, text_eq_refl p.name) in
      let (k, e, free) =
        unique_name_free na ra numbered (before ++ p ∷ after) p.name (nb.numbers_differ p.name) l
          taken in
      rw e (
        nb.never_blank p.name k,
        ground (arith, free, has_name-append before (p ∷ after) (numbered p.name k)),
      )

  rename_past_lem :
      (numbered : Text → ℕ → Text) (before qs : List (Profile na ra)) (p : Profile na ra)
      (after : List (Profile na ra))
      → IsNumbering numbered
      → length (before ++ p ∷ after) < 9998
      → Within qs before
      → has_only_blanks p.name ≡ false
      → IsRenamed before qs p.name (rename_past na ra numbered before qs p after).name
  unfolding rename_past renamed
  rename_past_lem numbered before [] p after nb l s full = (full, refl, inl refl)
  rename_past_lem numbered before (q ∷ qs) p after nb l s full =
      let tail : Within qs before = λ n f. ground (arith, s n f) in
      elim (Bool-cases (text_eq q.name p.name)) [
        | inl same ↦
            (let all = before ++ p ∷ after in
              let fresh = renamed na ra p (unique_name na ra numbered all p.name) in
              let (full1, free) = fresh_name numbered before after p nb l in
              let shorter : length (before ++ fresh ∷ after) < 9998 = omega (
                arith,
                l,
                length-append before (p ∷ after),
                length-append before (fresh ∷ after),
              ) in
              rw (rename_past, same)
                (past_fresh before qs q p.name fresh.name _ s free
                  (rename_past_lem numbered before qs fresh after nb shorter tail full1)))
        | inr other ↦
            rw (rename_past, other)
              (past_kept before qs q p.name _ s other
                (rename_past_lem numbered before qs p after nb l tail full))
      ]

  pub fix_names-HaveNames :
      (numbered : Text → ℕ → Text) (before ps : List (Profile na ra))
      → IsNumbering numbered
      → length before + length ps < 9998
      → HaveNames before
      → HaveNames (fix_names na ra numbered before ps)
  unfolding fix_names
  fix_names-HaveNames numbered before [] nb l h = h
  fix_names-HaveNames numbered before (p ∷ after) nb l h =
      let named = name_or_usual na ra p in
      let r = rename_past na ra numbered before before named after in
      let (full, free, _) =
        rename_past_lem numbered before before named after nb
          (omega (arith, length-append before (named ∷ after))) (λ n f. f) (name_or_usual_full p) in
      fix_names-HaveNames numbered (before ++ r ∷ []) after nb
        (omega (arith, length-append before (r ∷ []))) (HaveNames-append before r h free full)

  unfoldable Absent : List (Profile na ra) → List (Profile na ra) → Type 0
  Absent before [] = Unit
  Absent before (p ∷ ps) = (has_name na ra before p.name ≡ false) × Absent before ps

  rename_past_same :
      (numbered : Text → ℕ → Text) (before qs : List (Profile na ra)) (p : Profile na ra)
      (after : List (Profile na ra))
      → has_name na ra qs p.name ≡ false
      → rename_past na ra numbered before qs p after ≡ p
  unfolding rename_past
  rename_past_same numbered before [] p after h = refl
  rename_past_same numbered before (q ∷ qs) p after h =
      ground (arith, rename_past_same numbered before qs p after)

  Absent-append :
      (before ps : List (Profile na ra)) (p : Profile na ra)
      → Absent before ps
      → has_name na ra ps p.name ≡ false
      → Absent (before ++ p ∷ []) ps
  unfolding Absent
  Absent-append before [] p d h = _
  Absent-append before (q ∷ ps) p d h = (
    ground (arith, has_name-append before (p ∷ []) q.name, text_eq_sym q.name p.name),
    Absent-append before ps p d.1 (ground arith),
  )

  Absent-nil : (ps : List (Profile na ra)) → Absent [] ps
  unfolding Absent
  Absent-nil [] = _
  Absent-nil (p ∷ ps) = (refl, Absent-nil ps)

  fix_names_same :
      (numbered : Text → ℕ → Text) (before ps : List (Profile na ra))
      → HaveNames ps
      → Absent before ps
      → fix_names na ra numbered before ps ≡ before ++ ps
  unfolding fix_names Absent
  fix_names_same numbered before [] h d = sym (append-nil before)
  fix_names_same numbered before (p ∷ ps) h d =
      let named : name_or_usual na ra p ≡ p = ground (arith, h.1) in
      rw (named, rename_past_same numbered before before p ps d.0)
        (fix_names_same numbered (before ++ p ∷ []) ps h.2 (Absent-append before ps p d.1 h.0)
          ∙ append_assoc before (p ∷ []) ps)

  -- Names that differ and are not blank stay.
  pub fix_names_kept :
      (numbered : Text → ℕ → Text) (ps : List (Profile na ra))
      → HaveNames ps
      → fix_names na ra numbered [] ps ≡ ps
  fix_names_kept numbered ps h = fix_names_same numbered [] ps h (Absent-nil ps)
