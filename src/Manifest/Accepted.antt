-- ===== src/Manifest/Accepted.antt =====
-- Which checkpoints are accepted.
use Prim.Native.String.{String}
use mc_mjlab.Prelude.{Bool, true, ◌≡◌, refl, eq_iff, ok}
use mc_mjlab.Json.{Host, Json, Fields, json_eq}
use mc_mjlab.Manifest.{
  strip_source_hashes, added_keys, drop_paths, rename_fields, normalize, entry, payload_key, digest,
  comparable, compare_contracts, validate,
}

module _ {W : Type 0} (host : Host W) where
  -- A checkpoint is accepted whatever file digests, legacy names and unused defaults its contract
  -- records, if the schema is the run's and what is left of the contract is what is left of the
  -- run's.
  pub validate_same :
      (renamed : String → String) (saved active : Fields W) (full_resume : Bool) (p : Json W)
      → json_eq host (entry host saved "schema_version") (entry host active "schema_version") ≡ true
      → normalize host (
          strip_source_hashes
            (entry host (rename_fields renamed saved) (payload_key host full_resume)))
        ≡ ok p
      → normalize host (strip_source_hashes (entry host active (payload_key host full_resume)))
        ≡ ok p
      → validate host renamed saved active full_resume ≡ ok tt
  unfolding validate compare_contracts comparable
  validate_same renamed saved active full_resume p e s a =
      let left = drop_paths p (added_keys p p "") "" in
      rw (e, s, a, (eq_iff (digest host left) (digest host left)).1 refl) refl
