-- ===== src/Robots/Collisions.antt =====
-- robots/collisions.py: the names of a robot's collision geoms, and turning them off and on. A spec
-- is the list of its geoms; Python's text of a number is an argument.
pub mod Fresh
pub mod Named
use Prim.Native.String.{◌++◌ as ◌+str◌}
use mc_mjlab.Prelude.{
  ℕ, zero, suc, ◌+◌, String, Bool, true, false, not, ◌&&◌, ◌||◌, Option, none, some, List, [], ◌∷◌,
  map, ◌==◌, if◌then◌else◌, str_eq, contains, length, Result, ok, err, value_error, ◌>>=◌, ◌>>◌,
  ensure,
}
use mc_mjlab.Prelude.Dict.{Dict}

-- an empty name or mesh is none; the body is the parent's name, if there is a parent
pub record Geom : Type 0 where
  pub name : String
  pub meshname : String
  pub parent : Option String
  pub contype : ℕ
  pub conaffinity : ℕ
  pub group : ℕ

unfoldable pub is_collision_geom : Geom → Bool
is_collision_geom g = not (g.contype == 0) || not (g.conaffinity == 0)

abbrev prepend : String → Option String → Option String
prepend head none = none
prepend head (some rest) = some (head +str rest)

abbrev or_text : String → Option String → String
or_text fallback none = fallback
or_text fallback (some s) = s

-- s.removesuffix(suffix), if s ends with it
unfoldable pub remove_suffix : String → String → Option String
remove_suffix suffix String.[] = if str_eq String.[] suffix then some "" else none
remove_suffix suffix (String.◌∷◌ c s) =
    if str_eq (String.◌∷◌ c s) suffix
    then some ""
    else prepend (String.◌∷◌ c String.[]) (remove_suffix suffix s)

-- `a or b` of texts
abbrev text_or : String → String → String
text_or a b = if str_eq a "" then b else a

unfoldable pub geom_name_stem : Geom → String
unfolding remove_suffix
geom_name_stem g =
    if str_eq g.meshname ""
    then text_or (or_text "" g.parent) "geom"
    else or_text g.meshname (remove_suffix "_mesh" g.meshname)

unfoldable pub is_on : String → Geom → Bool
unfolding is_collision_geom
is_on body g = str_eq (or_text "" g.parent) body && str_eq g.name "" && is_collision_geom g

-- how many geoms are found on a body
unfoldable pub count_on : String → List Geom → ℕ
unfolding is_on
count_on body [] = 0
count_on body (g ∷ spec) = (if is_on body g then 1 else 0) + count_on body spec

unfoldable pub name_on : String → String → List Geom → List Geom
unfolding is_on
name_on body geom_name [] = []
name_on body geom_name (g ∷ spec) =
    (if is_on body g then record g { name = geom_name } else g) ∷ name_on body geom_name spec

-- the geoms are found before any is named
unfoldable pub name_feet : List Geom → Dict String → List Geom → Result (List Geom)
unfolding count_on name_on
name_feet found [] spec = ok spec
name_feet found ((body, geom_name) ∷ feet) spec = do
  ensure (count_on body found == 1) value_error
  name_feet found feet (name_on body geom_name spec)

unfoldable pub name_foot_collision_geoms : Dict String → List Geom → Result (List Geom)
unfolding name_feet
name_foot_collision_geoms feet spec = name_feet spec feet spec

-- the names that geoms have
unfoldable pub names_of : List Geom → List String
names_of [] = []
names_of (g ∷ spec) = if str_eq g.name "" then names_of spec else g.name ∷ names_of spec

abbrev pub Naming : Type 0
Naming = List Geom × List String

abbrev keep : Geom → Option Naming → Option Naming
keep g none = none
keep g (some (spec, assigned)) = some (g ∷ spec, assigned)

abbrev assign : Geom → String → Option Naming → Option Naming
assign g name none = none
assign g name (some (spec, assigned)) = some (record g { name = name } ∷ spec, name ∷ assigned)

abbrev pub collision_name : String → Geom → String
unfolding geom_name_stem
collision_name prefix g = prefix +str ("_collision_" +str geom_name_stem g)

abbrev pub is_skipped : Geom → Bool
unfolding is_collision_geom
is_skipped g = not (str_eq g.name "") || not (is_collision_geom g)

module _ (decimal : ℕ → String) where
  abbrev pub numbered : String → ℕ → String
  numbered name suffix = name +str ("_" +str decimal suffix)

  -- `while ... in taken`, from a suffix on; none where the fuel ran out
  unfoldable pub next_free : ℕ → ℕ → String → List String → Option String
  next_free zero suffix name taken = none
  next_free (suc fuel) suffix name taken = elim (contains (numbered name suffix) taken) [
    | true ↦ next_free fuel (suc suffix) name taken
    | false ↦ some (numbered name suffix)
  ]

  unfoldable pub free_name : String → List String → Option String
  unfolding next_free
  free_name name taken =
      if contains name taken then next_free (suc (length taken)) 2 name taken else some name

  unfoldable pub name_from : String → List String → List Geom → Option Naming
  unfolding free_name collision_name is_skipped
  name_from prefix taken [] = some ([], [])
  name_from prefix taken (g ∷ spec) = elim (is_skipped g) [
    | true ↦ keep g (name_from prefix taken spec)
    | false ↦ elim (free_name (collision_name prefix g) taken) [
      | none ↦ none
      | some name ↦ assign g name (name_from prefix (name ∷ taken) spec)
    ]
  ]

  -- the geoms, and the names that were assigned
  unfoldable pub name_remaining_collision_geoms : String → List Geom → Option Naming
  unfolding name_from names_of
  name_remaining_collision_geoms prefix spec = name_from prefix (names_of spec) spec

-- `COLLISION_GROUP`
abbrev collision_group : ℕ
collision_group = 3

abbrev grouped : Geom → Geom
grouped g = record g {
  group = if (g.contype == 0) && (g.conaffinity == 0) then 2 else collision_group;
  contype = 0;
  conaffinity = 0;
}

-- of the geoms; the sites' group is a constant
unfoldable pub group_and_disable_collision_geoms : List Geom → List Geom
group_and_disable_collision_geoms spec = map grouped spec

abbrev enabled : Geom → Geom
enabled g = if g.group == collision_group then record g { contype = 1; conaffinity = 1 } else g

unfoldable pub enable_all_collision_geoms : List Geom → List Geom
enable_all_collision_geoms spec = map enabled spec
