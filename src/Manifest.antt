-- ===== src/Manifest.antt =====
-- rl/effective_training_manifest.py: the comparison of a checkpoint's contract with the run's. The
-- contracts are JSON documents, which are built from the live environment.
pub mod Names
pub mod Accepted
use Prim.Native.String.{String, ◌++◌ as text_append}
use mc_mjlab.Prelude.{
  ℕ, zero, suc, Bool, true, false, not, ◌&&◌, ◌||◌, Option, none, some, List, [], ◌∷◌, ◌++◌,
  contains, if◌then◌else◌, str_eq, pos, Result, ok, err, type_error, attribute_error, runtime_error,
  ensure, ◌>>=◌, ◌>>◌,
}
use mc_mjlab.Json.{
  Host, Json, Items, Fields, null, bool, int, real, str, arr, obj, nil, cons, end, field, find,
  find_or, json_eq,
}

-- f"{prefix}.{key}" if prefix else key
unfoldable pub path : String → String → String
path prefix key = if str_eq prefix "" then key else text_append prefix (text_append "." key)

abbrev is_null : {W : Type 0} → Json W → Bool
is_null null = true
is_null _ = false

module _ {W : Type 0} where
  -- `_drop_keys`; `_strip_source_hashes` is the same with one key
  unfoldable mutual
    pub drop_keys : List String → Json W → Json W
    drop_keys excluded (arr xs) = arr (drop_keys_items excluded xs)
    drop_keys excluded (obj fs) = obj (drop_keys_fields excluded fs)
    drop_keys excluded v = v

    pub drop_keys_items : List String → Items W → Items W
    drop_keys_items excluded nil = nil
    drop_keys_items excluded (cons x xs) = cons (drop_keys excluded x) (drop_keys_items excluded xs)

    pub drop_keys_fields : List String → Fields W → Fields W
    drop_keys_fields excluded end = end
    drop_keys_fields excluded (field k v r) =
        let rest = drop_keys_fields excluded r in
        if contains k excluded then rest else field k (drop_keys excluded v) rest

  abbrev pub strip_source_hashes : Json W → Json W
  strip_source_hashes v = drop_keys ("source_sha256" ∷ []) v

  -- `rename_legacy_modules`
  unfoldable mutual
    pub rename_legacy : (String → String) → Json W → Json W
    rename_legacy renamed (str s) = str (renamed s)
    rename_legacy renamed (arr xs) = arr (rename_items renamed xs)
    rename_legacy renamed (obj fs) = obj (rename_fields renamed fs)
    rename_legacy renamed v = v

    pub rename_items : (String → String) → Items W → Items W
    rename_items renamed nil = nil
    rename_items renamed (cons x xs) = cons (rename_legacy renamed x) (rename_items renamed xs)

    pub rename_fields : (String → String) → Fields W → Fields W
    rename_fields renamed end = end
    rename_fields renamed (field k v r) =
        field k (rename_legacy renamed v) (rename_fields renamed r)

  -- `_added_keys`, in the order of the active dictionary: a set is made of the result
  unfoldable mutual
    pub added_keys : Json W → Json W → String → List String
    added_keys (obj fs) (obj gs) prefix = added_fields fs gs prefix
    added_keys _ _ prefix = []

    pub added_fields : Fields W → Fields W → String → List String
    added_fields fs end prefix = []
    added_fields fs (field k w r) prefix =
        let rest = added_fields fs r prefix in
        elim (find fs k) [
          | none ↦ path prefix k ∷ rest
          | some v ↦ added_keys v w (path prefix k) ++ rest
        ]

  -- `_drop_paths`
  unfoldable mutual
    pub drop_paths : Json W → List String → String → Json W
    drop_paths (obj fs) paths prefix = obj (drop_paths_fields fs paths prefix)
    drop_paths v paths prefix = v

    pub drop_paths_fields : Fields W → List String → String → Fields W
    drop_paths_fields end paths prefix = end
    drop_paths_fields (field k v r) paths prefix =
        let rest = drop_paths_fields r paths prefix in
        if contains (path prefix k) paths
        then rest
        else field k (drop_paths v paths (path prefix k)) rest

-- the terms whose unused defaults are dropped
abbrev pub impulse_terms : List String
impulse_terms =
    "mc_mjlab.mdp.disturbances:finite_impulse_curriculum"
    ∷ "mc_mjlab.mdp.disturbances:stratified_finite_impulse_curriculum"
    ∷ "mc_mjlab.mdp.disturbances:achievement_finite_impulse_curriculum" ∷ []

module _ {W : Type 0} (host : Host W) where
  -- value.get(key, {}), where the value is a dictionary
  abbrev pub get_dict : Fields W → String → Result (Fields W)
  get_dict fs k = elim (find fs k) [
    | none ↦ ok end
    | some (obj gs) ↦ ok gs
    | some _ ↦ err attribute_error
  ]

  -- name in impulse_terms
  abbrev pub is_impulse_term : Option (Json W) → Result Bool
  is_impulse_term none = ok false
  is_impulse_term (some (str s)) = ok (contains s impulse_terms)
  is_impulse_term (some (arr xs)) = err type_error
  is_impulse_term (some (obj fs)) = err type_error
  is_impulse_term (some _) = ok false

  -- {"source": "default", "value": default}
  abbrev default_entry : Json W → Json W
  default_entry d = obj (field "source" (str "default") (field "value" d end))

  -- the entries of a key are removed
  pop : String → Fields W → Fields W
  pop k end = end
  pop k (field j v r) = let rest = pop k r in if str_eq j k then rest else field j v rest

  pop_default : String → Json W → Fields W → Fields W
  unfolding pop
  pop_default k d fs = elim (find fs k) [
    | none ↦ fs
    | some v ↦ if json_eq host v (default_entry d) then pop k fs else fs
  ]

  pop_defaults : Fields W → Fields W
  unfolding pop_default
  pop_defaults fs = pop_default "band_weights" null (
      pop_default "bands" null (
        pop_default "initial_stage" (int (pos 0))
          (pop_default "rehearsal_weights" null (pop_default "asset_cfg" null fs))))

  -- the dictionary under a key is changed, which is shared with the result
  change : String → Fields W → Fields W → Fields W
  change k gs end = end
  change k gs (field j v r) =
      let rest = change k gs r in if str_eq j k then field j (obj gs) rest else field j v rest

  -- a dictionary whose values are normalized
  normalize_term : Fields W → Result (Json W)
  unfolding pop_defaults change
  normalize_term fs = get_dict fs "callable" >>= (λ callable.
      is_impulse_term (find callable "name") >>= (λ is_term.
        if is_term
        then get_dict fs "effective_parameters"
          >>= (λ parameters. ok (obj (change "effective_parameters" (pop_defaults parameters) fs)))
        else ok (obj fs)))

  -- `_normalize_impulse_defaults`
  unfoldable mutual
    unfolding normalize_term

    pub normalize : Json W → Result (Json W)
    normalize (arr xs) = normalize_items xs >>= (λ ys. ok (arr ys))
    normalize (obj fs) = normalize_fields fs >>= (λ gs. normalize_term gs)
    normalize v = ok v

    pub normalize_items : Items W → Result (Items W)
    normalize_items nil = ok nil
    normalize_items (cons x xs) =
        normalize x >>= (λ y. normalize_items xs >>= (λ ys. ok (cons y ys)))

    pub normalize_fields : Fields W → Result (Fields W)
    normalize_fields end = ok end
    normalize_fields (field k v r) =
        normalize v >>= (λ w. normalize_fields r >>= (λ rest. ok (field k w rest)))

  -- value.get(key)
  abbrev pub entry : Fields W → String → Json W
  entry fs k = find_or fs k null

  abbrev pub payload_key : Bool → String
  payload_key full_resume = if full_resume then "training_contract" else "policy_interface"

  -- `_digest`
  unfoldable pub digest : Json W → String
  digest v = host.sha256 (host.dumps v)

  -- what is compared of two contracts: without the fields that only the run has
  unfoldable pub comparable : Json W → Json W → Json W × Json W
  comparable saved active =
      let added = added_keys saved active "" in
      (drop_paths saved added "", drop_paths active added "")

  -- the digests of what is compared
  unfoldable pub compare_contracts : Json W → Json W → Result (Unit {0})
  unfolding digest comparable
  compare_contracts saved active =
      let (s, a) = comparable saved active in ensure (str_eq (digest s) (digest a)) runtime_error

  -- `validate_effective_training_manifest`, whose warnings are only printed
  unfoldable pub validate : (String → String) → Fields W → Fields W → Bool → Result (Unit {0})
  unfolding compare_contracts
  validate renamed saved active full_resume = do
    ensure (json_eq host (entry saved "schema_version") (entry active "schema_version"))
        runtime_error
    s ←
        normalize
          (strip_source_hashes (entry (rename_fields renamed saved) (payload_key full_resume)))
    a ← normalize (strip_source_hashes (entry active (payload_key full_resume)))
    compare_contracts s a
