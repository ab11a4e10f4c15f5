-- ===== src/Taxonomy/Types.antt =====
-- core/taxonomy/catalog.go: the records.
use baran_os.Base.{List, GoString, Dict}

pub record TaxonomyCategory : Type 0 where
  pub name : GoString
  pub description : GoString

pub record TaxonomyEntry : Type 0 where
  pub name : GoString
  pub category : GoString
  pub action : GoString
  pub description : GoString
  pub input_types : List GoString
  pub output_types : List GoString
  pub catalog_version : GoString

-- taxonomy.Capability and registry.Capability have the same fields, and the registry copies one
-- into the other field by field: they are one record here.
pub record Capability : Type 0 where
  pub name : GoString
  pub version : GoString
  pub description : GoString
  pub parameters : Dict GoString
  pub category : GoString
  pub action : GoString
  pub input_types : List GoString
  pub output_types : List GoString
