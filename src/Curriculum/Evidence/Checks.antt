-- ===== src/Curriculum/Evidence/Checks.antt =====
-- What an accepted report has been checked for.
use mc_mjlab.Prelude.{
  ℕ, ◌≤◌, String, true, false, Option, none, some, List, [], ◌∷◌, ◌≡◌, ◌≢◌, sym, ap, Raised,
  os_error, arith, Bool-cases, inl, inr, ensure-eq-ok, value_error, subst, ok-injective, length, ℤ,
  pos, leb_ℤ, eq_ℤ, eq_ℤ_iff, ok, leb, >>=-eq-ok, ensure,
}
use mc_mjlab.Prelude.Dict.{Dict, get}
use mc_mjlab.Names.{model_iteration}
use mathlib.Core.Option
use mc_mjlab.Json.{Host, Json, Fields, arr, nil, to_int, iterate, find_or}
use mc_mjlab.Curriculum.State.{QualificationEvidence}
use mc_mjlab.Curriculum.Evidence.{
  insert_seed, or_raise, load_report, dict_at, check_scenarios, only_field, read_promotion,
  sorted_seeds, read_seeds, check_stage, check_path, read_qualification_evidence,
}

-- strictly ascending
abbrev pub Below : ℤ → List ℤ → Type 0
Below n [] = Unit
Below n (m ∷ ms) = (leb_ℤ n m ≡ true) × (n ≢ m)

abbrev pub IsAscending : List ℤ → Type 0
IsAscending [] = Unit
IsAscending (n ∷ ns) = Below n ns × IsAscending ns

leb_ℤ_total : (a b : ℤ) → leb_ℤ a b ≡ false → leb_ℤ b a ≡ true
leb_ℤ_total a b h = ground arith

insert_seed-Below :
    (k n : ℤ) (ms : List ℤ) → leb_ℤ k n ≡ true → k ≢ n → Below k ms → Below k (insert_seed n ms)
unfolding insert_seed
insert_seed-Below k n [] le ne b = (le, ne)
insert_seed-Below k n (m ∷ ms) le ne b = ground arith

insert_seed-IsAscending : (n : ℤ) (ms : List ℤ) → IsAscending ms → IsAscending (insert_seed n ms)
unfolding insert_seed
insert_seed-IsAscending n [] a = (tt, tt)
insert_seed-IsAscending n (m ∷ ms) (b, a) = elim (Bool-cases (eq_ℤ n m)) [
  | inl same ↦ rw same (b, a)
  | inr other ↦
      let ne : n ≢ m = λ e. cc (other, (eq_ℤ_iff n m).1 e) in
      elim (Bool-cases (leb_ℤ n m)) [
        | inl le ↦ rw (other, le) ((le, ne), (b, a))
        | inr gt ↦
            rw (other, gt)
              (
                insert_seed-Below m n ms (leb_ℤ_total n m gt) (λ e. ne (sym e)) b,
                insert_seed-IsAscending n ms a,
              )
      ]
]

or_raise_lem : (o : Option String) (x : Raised) {a : String} → or_raise o x ≡ ok a → o ≡ some a
unfolding or_raise
or_raise_lem none x h = cc
or_raise_lem (some b) x h = ap some (ok-injective h)

module _ {W : Type 0} (host : Host W) where
  sorted_seeds-IsAscending :
      (xs : List (Json W)) {ns : List ℤ} → sorted_seeds host xs ≡ ok ns → IsAscending ns
  unfolding sorted_seeds
  sorted_seeds-IsAscending [] h = ground arith
  sorted_seeds-IsAscending (x ∷ xs) h =
      let (n, _, h') = >>=-eq-ok (to_int host x) _ h in
      let (rest, read, made) = >>=-eq-ok (sorted_seeds host xs) _ h' in
      subst IsAscending (ok-injective made)
        (insert_seed-IsAscending n rest (sorted_seeds-IsAscending xs read))

  read_seeds_lem :
      (config : Fields W) {ns : List ℤ}
      → read_seeds host config ≡ ok ns
      → (2 ≤ length ns) × IsAscending ns
  unfolding read_seeds
  read_seeds_lem config h =
      let (given, _, h1) = >>=-eq-ok (iterate (find_or config "seeds" (arr nil))) _ h in
      let (seeds, read, h2) = >>=-eq-ok (sorted_seeds host given) _ h1 in
      let (_, enough, made) = >>=-eq-ok (ensure (leb 2 (length seeds)) value_error) _ h2 in
      let many : leb 2 (length seeds) ≡ true = ensure-eq-ok _ _ enough in
      rw (← ok-injective made) (ground arith, sorted_seeds-IsAscending given read)

  check_stage_lem :
      (given : Fields W) (expected : ℤ) {stage : ℤ}
      → check_stage host given expected ≡ ok stage
      → stage ≡ expected
  unfolding check_stage
  check_stage_lem given expected h = ground arith

  check_path_lem :
      (files : Dict String) (run_dir : String) (now : ℕ) (name : String) {p : String} {i : ℕ}
      → check_path host files run_dir now name ≡ ok (p, i)
      → (get files p ≢ none)
        × (host.is_under p (host.resolve run_dir) ≡ true)
        × (model_iteration (host.file_name p) ≡ some i)
        × (leb_ℤ (pos i) (pos now) ≡ true)
  unfolding check_path
  check_path_lem files run_dir now name h = ground arith

  -- An accepted report is for the stage that was asked, was made with at least two seeds, listed
  -- once each in ascending order, and names an existing checkpoint under the run's directory, whose
  -- file name carries an iteration that the trainer has reached. Its digest is that of the file.
  pub read_qualification_evidence_checks :
      (files : Dict String) (report_path : String) (expected : ℤ) (run_dir : String) (now : ℕ)
      {e : QualificationEvidence}
      → read_qualification_evidence host files report_path expected run_dir now ≡ ok e
      → (e.stage ≡ expected)
        × (2 ≤ length e.seeds)
        × IsAscending e.seeds
        × (get files e.checkpoint ≢ none)
        × (host.is_under e.checkpoint (host.resolve run_dir) ≡ true)
        × (Option.map pos (model_iteration (host.file_name e.checkpoint))
            ≡ some e.checkpoint_iteration)
        × (leb_ℤ e.checkpoint_iteration (pos now) ≡ true)
        × (Option.map host.sha256 (get files report_path) ≡ some e.report_sha256)
  unfolding read_qualification_evidence
  read_qualification_evidence_checks files report_path expected run_dir now h =
      let (payload, found, h1) = >>=-eq-ok (or_raise (get files report_path) os_error) _ h in
      let (report, _, h2) = >>=-eq-ok (load_report host payload) _ h1 in
      let (config, _, h3) = >>=-eq-ok (dict_at host report "config") _ h2 in
      let (given, _, h4) = >>=-eq-ok (dict_at host config "achievement") _ h3 in
      let (stage, staged, h5) = >>=-eq-ok (check_stage host given expected) _ h4 in
      let (seeds, seeded, h6) = >>=-eq-ok (read_seeds host config) _ h5 in
      let (_, _, h7) = >>=-eq-ok (check_scenarios host config) _ h6 in
      let (checkpoints, _, h8) = >>=-eq-ok (dict_at host report "checkpoints") _ h7 in
      let (one, _, h9) = >>=-eq-ok (only_field host checkpoints) _ h8 in
      let (place, placed, h10) = >>=-eq-ok (check_path host files run_dir now one.0) _ h9 in
      let (verdict, _, made) = >>=-eq-ok (read_promotion host one.1) _ h10 in
      let (there, under, named, reached) = check_path_lem files run_dir now one.0 placed in
      rw (← ok-injective made) (
        check_stage_lem given expected staged,
        (read_seeds_lem config seeded).0,
        (read_seeds_lem config seeded).1,
        there,
        under,
        ap (Option.map pos) named,
        reached,
        ap (Option.map host.sha256) (or_raise_lem (get files report_path) os_error found),
      )
