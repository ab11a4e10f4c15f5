-- ===== src/Tests/Names.antt =====
-- Capability names in the standard catalog.
use baran_os.Base.{◌≡◌, ◌↔◌, ◌⊎◌, refl, [], ◌∷◌, codes, lookup, insert, str_eq, some, ok}
use baran_os.Taxonomy.{TaxonomyEntry, standard_entries, new_catalog, lookup_entry, validate}
use baran_os.Taxonomy.Naming.{IsVendorName, IsStandardName, standard, validate_exact}

validate_exact_example :
    (validate standard (codes "acme.paint") ≡ ok tt)
    ↔ (IsStandardName standard (codes "acme.paint") ⊎ IsVendorName standard (codes "acme.paint"))
validate_exact_example = validate_exact standard (codes "acme.paint")

abbrev sentiment : TaxonomyEntry
sentiment = record {
  name = codes "nlp.sentiment";
  category = codes "nlp";
  action = codes "sentiment";
  description = codes "Analyze text sentiment";
  input_types = codes "text/plain" ∷ [];
  output_types = codes "application/json" ∷ [];
  catalog_version = codes "v1.0";
}

listed : lookup_entry standard (codes "nlp.sentiment") ≡ some sentiment
unfolding lookup_entry new_catalog standard_entries lookup insert str_eq
listed = refl
