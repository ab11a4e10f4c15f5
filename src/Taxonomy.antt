-- ===== src/Taxonomy.antt =====
-- core/taxonomy: the catalog of standard capabilities (catalog.go, catalog_data.go, validator.go).
-- `Query` (glob search by `path.Match`) is not modelled.
mod Types
mod Data
pub mod Naming
pub use Types.{TaxonomyCategory, TaxonomyEntry, Capability}
unfoldable pub use Data.{standard_entries, standard_categories}
use baran_os.Base.{
  ◌≡◌, ℕ, ◌<◌, suc, List, [], ◌∷◌, length, is_empty, GoString, codes, Dict, lookup, insert, Option,
  none, some, Bool, true, false, not, ◌&&◌, if◌then◌else◌, Result, ok, err, validation, split, ltb,
  is_ok,
}

-- taxonomy.Catalog
pub record Catalog : Type 0 where
  pub lookup_entry : GoString → Option TaxonomyEntry
  pub categories : List TaxonomyCategory
  pub version : GoString
  pub is_standard_category : GoString → Bool
  pub validate : GoString → Result Unit
  pub auto_map : Capability → Result Capability

-- What the registry relies on: a name stays a name that is accepted.
pub record IsCatalog (c : Catalog) : Type 0 where
  pub auto_map_name : (cap cap' : Capability) → c.auto_map cap ≡ ok cap' → cap'.name ≡ cap.name

-- standardCatalog
pub record StandardCatalog : Type 0 where
  pub entries : Dict TaxonomyEntry
  pub categories : Dict TaxonomyCategory

insert_entries : List TaxonomyEntry → Dict TaxonomyEntry → Dict TaxonomyEntry
insert_entries [] m = m
insert_entries (e ∷ es) m = insert_entries es (insert e.name e m)

insert_categories : List TaxonomyCategory → Dict TaxonomyCategory → Dict TaxonomyCategory
insert_categories [] m = m
insert_categories (c ∷ cs) m = insert_categories cs (insert c.name c m)

-- NewStandardCatalog, over the two tables
unfoldable pub new_catalog : List TaxonomyEntry → List TaxonomyCategory → StandardCatalog
unfolding insert_entries insert_categories
new_catalog es cs = record { entries = insert_entries es []; categories = insert_categories cs [] }

abbrev is_some {ℓ} : {A : Type ℓ} → Option A → Bool
is_some none = false
is_some (some a) = true

module _ (c : StandardCatalog) where
  unfoldable pub lookup_entry : GoString → Option TaxonomyEntry
  lookup_entry name = lookup name c.entries

  unfoldable pub is_standard_category : GoString → Bool
  is_standard_category name = is_some (lookup name c.categories)

  -- the rules 2 and 3 on the dot-separated parts
  validate_parts : List GoString → Result Unit
  validate_parts [] = err validation
  validate_parts (p ∷ []) = err validation
  validate_parts (p ∷ q ∷ ps) = if is_some (lookup p c.categories) then err validation else ok tt

  unfoldable pub validate : GoString → Result Unit
  unfolding validate_parts
  validate name =
      if is_some (lookup name c.entries) then ok tt else validate_parts (split b'.' name)

  fill : TaxonomyEntry → Capability → Capability
  fill e cap = record cap {
    category = e.category;
    action = e.action;
    input_types = if is_empty cap.input_types then e.input_types else cap.input_types;
    output_types = if is_empty cap.output_types then e.output_types else cap.output_types;
  }

  auto_map_with : Option TaxonomyEntry → Capability → Result Capability
  unfolding fill
  auto_map_with none cap = ok cap
  auto_map_with (some e) cap = ok (fill e cap)

  -- the changed capability is returned
  unfoldable pub auto_map : Capability → Result Capability
  unfolding auto_map_with
  auto_map cap = auto_map_with (lookup cap.name c.entries) cap

  -- Validator.IsVendor
  unfoldable pub is_vendor : GoString → Bool
  unfolding validate
  is_vendor name = not (is_some (lookup name c.entries)) && is_ok (validate name)

map_snd : Dict TaxonomyCategory → List TaxonomyCategory
map_snd [] = []
map_snd ((k, c) ∷ m) = c ∷ map_snd m

-- the standard catalog behind the interface
unfoldable pub as_catalog : StandardCatalog → Catalog
unfolding map_snd lookup_entry is_standard_category validate auto_map
as_catalog c = record {
  lookup_entry = lookup_entry c;
  categories = map_snd c.categories;
  version = codes "v1.0";
  is_standard_category = is_standard_category c;
  validate = validate c;
  auto_map = auto_map c;
}
