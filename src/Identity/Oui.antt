-- ===== src/Identity/Oui.antt =====
-- src/identity/oui.rs: the vendor of a hardware address. The registry is the embedded data file
-- data/oui.tsv, which is a parameter.
use netgraspd.Base.{
  ℕ, ◌||◌, List, [], ◌∷◌, Option, none, some, Text, ◌==◌, list_eq, nat_eq, if◌then◌else◌,
}
use netgraspd.Types.{
  MacAddr, is_group, is_zero, is_locally_administered, hex_prefix, Signal, vendor,
}

-- The rows of the registry, and the text "IEEE Registration Authority".
module _ (table : Text → Option Text) (registry_placeholder : Text) where
  unfoldable pub lookup_width : MacAddr → List ℕ → Option Text
  lookup_width m [] = none
  lookup_width m (w ∷ ws) =
      let rest = lookup_width m ws in
      elim (table (hex_prefix m w)) [
        | some org ↦ if org == registry_placeholder then rest else some org
        | none ↦ rest
      ]

  unfoldable pub oui_lookup : MacAddr → Option Text
  unfolding lookup_width is_locally_administered is_group is_zero
  oui_lookup m =
      if is_locally_administered m || (is_group m || is_zero m)
      then none
      else lookup_width m (9 ∷ 7 ∷ 6 ∷ [])

  -- `identity::vendor_signal`
  unfoldable pub vendor_signal : MacAddr → Option Signal
  unfolding oui_lookup
  vendor_signal m = elim (oui_lookup m) [
    | some v ↦ some (record { kind = vendor; value = v })
    | none ↦ none
  ]
