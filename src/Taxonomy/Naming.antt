-- ===== src/Taxonomy/Naming.antt =====
-- Which capability names the catalog accepts, and what it fills in.
use baran_os.Base.{
  ◌≡◌, refl, ◌↔◌, ◌⊎◌, inl, inr, sym, ◌∙◌, List, [], ◌∷◌, ◌++◌, GoString, Dict, lookup, insert,
  none, some, Bool, true, false, ◌&&◌, if◌then◌else◌, Result, ok, err, validation, split, arith,
  IsFree, split-segment, split-cons, split-cases, Option-cases, Bool-cases, lookup-insert, str_eq,
  str_eq_sound, is_ok, In, all, all-In,
}
use baran_os.Taxonomy.{
  IsCatalog, as_catalog, TaxonomyEntry, Capability, StandardCatalog, standard_entries,
  standard_categories, new_catalog, insert_entries, lookup_entry, is_standard_category,
  validate_parts, validate, auto_map, is_vendor,
}

ok_of : (r : Result Unit) → (r ≡ ok tt) ⊎ (is_ok r ≡ false)
ok_of (ok tt) = inl refl
ok_of (err e) = inr refl

module _ (c : StandardCatalog) where
  -- a vendor namespace that is no standard category, a dot, and anything
  pub IsVendorName : GoString → Type 0
  IsVendorName n =
      (v : GoString) × (r : GoString) × IsFree b'.' v
      × (n ≡ v ++ b'.' ∷ r)
      × (is_standard_category c v ≡ false)

  pub IsStandardName : GoString → Type 0
  IsStandardName n = (e : TaxonomyEntry) × (lookup_entry c n ≡ some e)

  validate_standard :
      (n : GoString) (e : TaxonomyEntry) → lookup_entry c n ≡ some e → validate c n ≡ ok tt
  unfolding validate lookup_entry
  validate_standard n e h = ground arith

  validate_other :
      (n : GoString) → lookup_entry c n ≡ none → validate c n ≡ validate_parts c (split b'.' n)
  unfolding validate lookup_entry
  validate_other n h = ground arith

  parts_two :
      (v r : GoString)
      → IsFree b'.' v
      → validate_parts c (split b'.' (v ++ b'.' ∷ r))
        ≡ (if is_standard_category c v then err validation else ok tt)
  unfolding validate_parts is_standard_category
  parts_two v r f = let (q, ps, h) = split-cons b'.' r in rw (split-segment b'.' v r f, h)

  other_iff : (n : GoString) → (validate_parts c (split b'.' n) ≡ ok tt) ↔ IsVendorName n
  unfolding IsVendorName
  other_iff n = (from, to)
    where
      from : validate_parts c (split b'.' n) ≡ ok tt → IsVendorName n
      from h = elim (split-cases b'.' n) [
        | inl one ↦ absurd (unfold validate_parts in ground (arith, one))
        | inr (v, r, f, e) ↦ (v, r, f, e, ground (arith, h, parts_two v r f, e))
      ]

      to : IsVendorName n → validate_parts c (split b'.' n) ≡ ok tt
      to (v, r, f, e, ns) = ground (arith, parts_two v r f, e, ns)

  -- `Validate` accepts a name exactly when it is in the catalog, or begins with a dot-free vendor
  -- namespace that is no standard category, followed by a dot.
  pub validate_exact : (n : GoString) → (validate c n ≡ ok tt) ↔ (IsStandardName n ⊎ IsVendorName n)
  unfolding IsStandardName
  validate_exact n = elim (Option-cases (lookup_entry c n)) [
    | inl no_entry ↦ (
      λ h. inr ((other_iff n).0 (sym (validate_other n no_entry) ∙ h)),
      elim [ inl (e, h) ↦ cc | inr v ↦ validate_other n no_entry ∙ (other_iff n).1 v ],
    )
    | inr (e, h) ↦ (λ _. inl (e, h), λ _. validate_standard n e h)
  ]

  -- `IsVendor` holds exactly of the vendor names that are not in the catalog.
  pub is_vendor_exact :
      (n : GoString) → (is_vendor c n ≡ true) ↔ ((lookup_entry c n ≡ none) × IsVendorName n)
  unfolding is_vendor lookup_entry
  is_vendor_exact n = elim (Option-cases (lookup n c.entries)) [
    | inl no_entry ↦ (
      λ h. (no_entry, (other_iff n).0 (ground (arith, h, no_entry, ok_of (validate c n)))),
      λ v. ground (arith, no_entry, validate_exact n, (other_iff n).1 v.1),
    )
    | inr (e, found) ↦ (λ h. absurd (ground (arith, h, found)), λ v. cc)
  ]

  -- `AutoMap` never changes a name, keeps the input and output types that were declared, and a
  -- second call changes nothing more.
  pub auto_map_keeps :
      (cap cap' : Capability)
      → auto_map c cap ≡ ok cap'
      → (cap'.name ≡ cap.name)
        × ((cap.input_types ≡ []) ⊎ (cap'.input_types ≡ cap.input_types))
        × ((cap.output_types ≡ []) ⊎ (cap'.output_types ≡ cap.output_types))
        × (auto_map c cap' ≡ ok cap')
  unfolding auto_map
  auto_map_keeps cap cap' h = ground arith

-- The standard catalog meets what the registry relies on.
pub as_catalog-IsCatalog : (c : StandardCatalog) → IsCatalog (as_catalog c)
unfolding as_catalog auto_map
as_catalog-IsCatalog c = record { auto_map_name = λ cap cap' h. (auto_map_keeps c cap cap' h).0 }

-- The standard table.
abbrev pub standard : StandardCatalog
standard = new_catalog standard_entries standard_categories

entries_hold :
    (es : List TaxonomyEntry) (m : Dict TaxonomyEntry) (n : GoString) (e : TaxonomyEntry)
    → lookup n (insert_entries es m) ≡ some e
    → (In e es × (e.name ≡ n)) ⊎ (lookup n m ≡ some e)
unfolding insert_entries
entries_hold [] m n e h = inr h
entries_hold (x ∷ es) m n e h = elim (entries_hold es (insert x.name x m) n e h) [
  | inl (i, same) ↦ inl (inr i, same)
  | inr found ↦ elim (Bool-cases (str_eq x.name n)) [
    | inl same ↦
        let eq : x ≡ e = ground (arith, found, lookup-insert x.name n x m, same) in
        inl (inl eq, ground (arith, eq, str_eq_sound x.name n same))
    | inr other ↦ inr (ground (arith, found, lookup-insert x.name n x m, other))
  ]
]

abbrev fits : TaxonomyEntry → Bool
fits e = str_eq e.name (e.category ++ b'.' ∷ e.action) && is_standard_category standard e.category

table_fits : all fits standard_entries ≡ true
unfolding standard_entries standard_categories new_catalog is_standard_category lookup insert str_eq
table_fits = refl

-- What the standard catalog returns for a name carries that name, which is its category, a dot and
-- its action, and the category is one of the standard ones: so no such name is a vendor name.
pub standard_entry :
    (n : GoString) (e : TaxonomyEntry)
    → lookup_entry standard n ≡ some e
    → (e.name ≡ n)
      × (n ≡ e.category ++ b'.' ∷ e.action)
      × (is_standard_category standard e.category ≡ true)
unfolding lookup_entry new_catalog
standard_entry n e h = elim (entries_hold standard_entries [] n e h) [
  | inl (i, same) ↦
      let ok = all-In fits standard_entries i table_fits in
      (
        same,
        sym same ∙ str_eq_sound e.name (e.category ++ b'.' ∷ e.action) (ground (arith, ok)),
        ground (arith, ok),
      )
  | inr none_yet ↦ absurd (unfold lookup in cc)
]
