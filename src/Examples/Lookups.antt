-- ===== src/Examples/Lookups.antt =====
-- A lookup in the entries of an index.
use rs_redbase.Prelude.{ℕ, ◌≡◌, refl, List, [], ◌∷◌, map, ok}
use rs_redbase.Prelude.Int.{ℤ, pos, negsuc}
use rs_redbase.Prelude.Bytes.{slice}
use rs_redbase.Index.{IndexEntry}
use rs_redbase.Index.Lookup.{lookup_entries, with_key, lookup_entries-with_key}

abbrev entry : ℤ → ℕ → IndexEntry
entry key slot_id = record { key = key; rid = record { page_id = 0; slot_id = slot_id } }

abbrev four_entries : List IndexEntry
four_entries = entry (negsuc 4) 3 ∷ entry (pos 7) 0 ∷ entry (pos 7) 2 ∷ entry (pos 9) 1 ∷ []

two_found :
    lookup_entries four_entries (pos 7)
    ≡ ok (record { page_id = 0; slot_id = 0 } ∷ record { page_id = 0; slot_id = 2 } ∷ [])
unfolding lookup_entries slice
two_found = refl

lookup_entries-with_key_example :
    lookup_entries four_entries (pos 7)
    ≡ ok (map (λ entry. entry.rid) (with_key (pos 7) four_entries))
lookup_entries-with_key_example =
    lookup_entries-with_key four_entries (pos 7)
      ((refl, (refl, (refl, tt))), ((refl, (refl, tt)), ((refl, tt), (tt, tt))))
