-- ===== src/Resume/Accepted.antt =====
-- Which checkpoints a run goes on from.
use mc_mjlab.Prelude.{
  ℕ, String, Bool, true, false, Option, none, some, List, [], ◌∷◌, ◌≡◌, ◌⊎◌, inl, inr, refl, arith,
  ==_iff, eq_iff, Result, ok, err, >>=-eq-ok, ensure-eq-ok,
}
use mc_mjlab.Json.{Host, Json, Fields, json_eq}
use mc_mjlab.Manifest.{validate, normalize, strip_source_hashes, entry, rename_fields, payload_key}
use mc_mjlab.Manifest.Accepted.{validate_same}
use mc_mjlab.Resume.{
  Provenance, provenance_signature, same_text, same_files, same_signature, Infos, Active, Hooks,
  stamp, finished, restored, check_provenance, check_manifest, check, synchronize, admitted, loaded,
  load, Signature,
}

same_text_refl : (a : Option String) → same_text a a ≡ true
same_text_refl none = refl
same_text_refl (some a) = (eq_iff a a).1 refl

same_files_refl : (xs : List (String × Bool × Option String)) → same_files xs xs ≡ true
unfolding same_files
same_files_refl [] = refl
same_files_refl ((role, true, sha) ∷ xs) =
    ground (arith, eq_iff role role, same_text_refl sha, same_files_refl xs)
same_files_refl ((role, false, sha) ∷ xs) =
    ground (arith, eq_iff role role, same_text_refl sha, same_files_refl xs)

same_text-eq : (a b : Option String) → same_text a b ≡ true → a ≡ b
same_text-eq none none h = refl
same_text-eq none (some b) h = cc h
same_text-eq (some a) none h = cc h
same_text-eq (some a) (some b) h = ground (arith, eq_iff a b, h)

same_files-eq : (xs ys : List (String × Bool × Option String)) → same_files xs ys ≡ true → xs ≡ ys
unfolding same_files
same_files-eq [] [] h = refl
same_files-eq [] (y ∷ ys) h = cc h
same_files-eq (x ∷ xs) [] h = cc h
same_files-eq ((role, present, sha) ∷ xs) ((role', present', sha') ∷ ys) h =
    ground (arith, eq_iff role role', same_text-eq sha sha', same_files-eq xs ys, h)

same_signature-eq : (s t : Signature) → same_signature s t ≡ true → s ≡ t
unfolding same_signature
same_signature-eq (name, xs) (name', ys) h =
    ground (arith, eq_iff name name', same_files-eq xs ys, h)

same_signature_refl : (s : Signature) → same_signature s s ≡ true
unfolding same_signature
same_signature_refl (name, xs) = ground (arith, eq_iff name name, same_files_refl xs)

module _ {W : Type 0} where
  abbrev pub SameController : Active W → Option Provenance → Type 0
  SameController a o =
      (o ≡ none)
      ⊎ ((p : Provenance) × (o ≡ some p)
          × (provenance_signature p ≡ provenance_signature a.controller_provenance))

  check_provenance-ok :
      (a : Active W) (o : Option Provenance) → check_provenance a o ≡ ok tt → SameController a o
  unfolding check_provenance
  check_provenance-ok a none e = inl refl
  check_provenance-ok a (some p) e = inr (p, refl, same_signature-eq _ _ (ensure-eq-ok _ _ e))

  module _ (host : Host W) (renamed : String → String) where
    abbrev pub SameContract : Active W → Option (Fields W) → Type 0
    SameContract a o =
        (o ≡ none)
        ⊎ ((m : Fields W) × (o ≡ some m)
            × (validate host renamed m a.effective_manifest true ≡ ok tt))

    check_manifest-ok :
        (a : Active W) (o : Option (Fields W))
        → check_manifest host renamed a true o ≡ ok tt
        → SameContract a o
    unfolding check_manifest
    check_manifest-ok a none e = inl refl
    check_manifest-ok a (some m) e = inr (m, refl, e)

    check-ok :
        (a : Active W) (i : Infos W)
        → check host renamed a true i ≡ ok tt
        → SameController a i.provenance × SameContract a i.manifest
    unfolding check
    check-ok a i e =
        let (u, first, second) = >>=-eq-ok (check_provenance a i.provenance) _ e in
        (check_provenance-ok a i.provenance first, check_manifest-ok a i.manifest second)

    module _ {E : Type 0} (h : Hooks W E) where
      finished-ok :
          (i j : Infos W) (r : E × Result (Unit {0}))
          → (finished host renamed h i r).1 ≡ ok j
          → j ≡ i
      finished-ok i j (e, ok u) d = cc d
      finished-ok i j (e, err raised) d = cc d

      restored-ok :
          (i j : Infos W) (r : E × Result (Unit {0}))
          → (restored host renamed h i r).1 ≡ ok j
          → (j ≡ i) × (r.1 ≡ ok tt)
      restored-ok i j (e, ok u) d = (finished-ok i j (h.restore_task_state i.task_state e) d, refl)
      restored-ok i j (e, err raised) d = cc d

      synchronize-ok :
          (o : Option ℕ) (e : E)
          → (synchronize host renamed h o e).1 ≡ ok tt
          → (o ≡ none) ⊎ (o ≡ some (h.common_step_counter e))
      unfolding synchronize
      synchronize-ok none e d = inl refl
      synchronize-ok (some expected) e d =
          inr (ground (arith, ==_iff (h.common_step_counter e) expected, d))

      admitted-ok :
          (i j : Infos W) (e : E) (r : Result (Unit {0}))
          → (admitted host renamed h true i e r).1 ≡ ok j
          → (r ≡ ok tt)
            × (j ≡ i)
            × ((i.env_step ≡ none) ⊎ (i.env_step ≡ some (h.common_step_counter e)))
      unfolding admitted
      admitted-ok i j e (err raised) d = cc d
      admitted-ok i j e (ok u) d =
          let (same, stepped) = restored-ok i j (synchronize host renamed h i.env_step e) d in
          (refl, same, synchronize-ok i.env_step e stepped)

      loaded-ok :
          (a : Active W) (e : E) (i j : Infos W)
          → (loaded host renamed h a true (e, ok i)).1 ≡ ok j
          → (j ≡ i)
            × SameController a i.provenance
            × SameContract a i.manifest
            × ((i.env_step ≡ none) ⊎ (i.env_step ≡ some (h.common_step_counter e)))
      unfolding loaded
      loaded-ok a e i j d =
          let (checked, same, step) = admitted-ok i j e (check host renamed a true i) d in
          let (controller, contract) = check-ok a i checked in (same, controller, contract, step)

      -- What a full resume returns is what was loaded. It names the run's controller files, or
      -- none; its contract is one that the run accepts, or there is none; and the environment is at
      -- the step that it names, if it names one.
      pub load_checks :
          (a : Active W) (e e1 : E) (i j : Infos W)
          → h.base_load e ≡ (e1, ok i)
          → (load host renamed h a true e).1 ≡ ok j
          → (j ≡ i)
            × SameController a i.provenance
            × SameContract a i.manifest
            × ((i.env_step ≡ none) ⊎ (i.env_step ≡ some (h.common_step_counter e1)))
      unfolding load
      load_checks a e e1 i j base done = loaded-ok a e1 i j (rw base at done)

      -- A checkpoint that a run saved is loaded by a run with the same files and contract: the
      -- curriculum is computed at the restored step, and then the task is restored.
      pub load-stamp :
          (a : Active W) (e e1 e2 e3 : E) (task : Option (Json W)) (p : Json W)
          → h.base_load e ≡ (e1, ok (stamp a (h.common_step_counter e1) task))
          → json_eq host
              (entry host a.effective_manifest "schema_version")
              (entry host a.effective_manifest "schema_version")
            ≡ true
          → normalize host (
              strip_source_hashes
                (entry host (rename_fields renamed a.effective_manifest) (payload_key host true)))
            ≡ ok p
          → normalize host
              (strip_source_hashes (entry host a.effective_manifest (payload_key host true)))
            ≡ ok p
          → h.compute_curriculum e1 ≡ (e2, ok tt)
          → h.restore_task_state task e2 ≡ (e3, ok tt)
          → load host renamed h a true e ≡ (e3, ok (stamp a (h.common_step_counter e1) task))
      unfolding load loaded check admitted synchronize check_provenance check_manifest stamp
      load-stamp a e e1 e2 e3 task p base schema saved active computed put_back =
          let contract =
            validate_same host renamed a.effective_manifest a.effective_manifest true p schema saved
              active in
          rw base (
            ground (
              arith,
              contract,
              same_signature_refl (provenance_signature a.controller_provenance),
              ==_iff (h.common_step_counter e1) (h.common_step_counter e1),
              computed,
              put_back,
            ))
