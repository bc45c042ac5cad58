-- ===== src/Json.antt =====
-- JSON documents as Python reads them, and the built-in operations the code applies to them:
-- `dict.get`, truth, iteration, `==`. `W` is the type of floats.
use mc_mjlab.Prelude.{
  ℕ, suc, String, Bool, true, false, not, ◌&&◌, Option, none, some, List, [], ◌∷◌, ◌==◌, str_eq,
  if◌then◌else◌, ℤ, pos, eq_ℤ, Result, ok, err, type_error,
}

mutual
  pub data Json (W : Type 0) : Type 0 where
    null : Json W
    bool : Bool → Json W
    int : ℤ → Json W
    real : W → Json W
    str : String → Json W
    arr : Items W → Json W
    obj : Fields W → Json W

  pub data Items (W : Type 0) : Type 0 where
    nil : Items W
    cons : Json W → Items W → Items W

  pub data Fields (W : Type 0) : Type 0 where
    end : Fields W
    field : String → Json W → Fields W → Fields W

module _ {W : Type 0} where
  -- fields.get(k)
  abbrev pub find : Fields W → String → Option (Json W)
  find end k = none
  find (field j v r) k = if str_eq j k then some v else find r k

  abbrev pub find_or : Fields W → String → Json W → Json W
  find_or fs k d = elim (find fs k) [ none ↦ d | some v ↦ v ]

  abbrev pub items : Items W → List (Json W)
  items nil = []
  items (cons x xs) = x ∷ items xs

  abbrev pub of_list : List (Json W) → Items W
  of_list [] = nil
  of_list (x ∷ xs) = cons x (of_list xs)

  abbrev pub keys : Fields W → List (Json W)
  keys end = []
  keys (field k v r) = str k ∷ keys r

  abbrev pub size : Fields W → ℕ
  size end = 0
  size (field k v r) = suc (size r)

  abbrev pub count_items : Items W → ℕ
  count_items nil = 0
  count_items (cons x xs) = suc (count_items xs)

  abbrev characters : String → List (Json W)
  characters String.[] = []
  characters (String.◌∷◌ c s) = str (String.◌∷◌ c String.[]) ∷ characters s

  -- `for x in value`
  abbrev pub iterate : Json W → Result (List (Json W))
  iterate (arr xs) = ok (items xs)
  iterate (obj fs) = ok (keys fs)
  iterate (str s) = ok (characters s)
  iterate _ = err type_error

  -- isinstance(value, dict), with the dictionary
  abbrev pub as_dict : Json W → Option (Fields W)
  as_dict (obj fs) = some fs
  as_dict _ = none

  abbrev pub as_items : Json W → Option (Items W)
  as_items (arr xs) = some xs
  as_items _ = none

  abbrev pub is_list : Json W → Bool
  is_list (arr xs) = true
  is_list _ = false

  -- A list or a dictionary cannot be put in a set.
  abbrev pub is_hashable : Json W → Bool
  is_hashable (arr xs) = false
  is_hashable (obj fs) = false
  is_hashable _ = true

-- `bool(value)`, given the truth of a float.
abbrev pub is_true : {W : Type 0} → (W → Bool) → Json W → Bool
is_true real_true null = false
is_true real_true (bool b) = b
is_true real_true (int n) = not (eq_ℤ n (pos 0))
is_true real_true (real w) = real_true w
is_true real_true (str s) = not (str_eq s "")
is_true real_true (arr nil) = false
is_true real_true (arr (cons x xs)) = true
is_true real_true (obj end) = false
is_true real_true (obj (field k v r)) = true

-- `hashlib.sha256(...).hexdigest()`, `json.loads` and `json.dumps`, `str` of a value that is no
-- text, `int` of a text or a float, `==` between floats, the float of an integer, float literals of
-- two decimals, and `pathlib`. `loads` is `none` where it raises JSONDecodeError.
pub record Host (W : Type 0) : Type 0 where
  pub sha256 : String → String
  pub loads : String → Option (Json W)
  pub dumps : Json W → String
  pub str_of : Json W → String
  pub int_of_text : String → Result ℤ
  pub int_of_real : W → Result ℤ
  pub real_eq : W → W → Bool
  pub real_of_int : ℤ → W
  pub hundredths : ℕ → W
  -- Path(p).expanduser().resolve(), Path(p).name, root / name
  pub resolve : String → String
  pub file_name : String → String
  pub join : String → String → String
  -- p.relative_to(d) does not raise
  pub is_under : String → String → Bool

-- The built-in conversions and `==`, over the host's conversions of texts and floats.
module _ {W : Type 0} (host : Host W) where
  -- int(value)
  unfoldable pub to_int : Json W → Result ℤ
  to_int (bool true) = ok (pos 1)
  to_int (bool false) = ok (pos 0)
  to_int (int n) = ok n
  to_int (real w) = host.int_of_real w
  to_int (str s) = host.int_of_text s
  to_int _ = err type_error

  -- str(value)
  unfoldable pub to_str : Json W → String
  to_str (str s) = s
  to_str v = host.str_of v

  -- bool(value)
  abbrev pub truth : Json W → Bool
  truth = is_true (λ w. not (host.real_eq w (host.real_of_int (pos 0))))

  abbrev equals_int : ℤ → Json W → Bool
  equals_int n (bool true) = eq_ℤ n (pos 1)
  equals_int n (bool false) = eq_ℤ n (pos 0)
  equals_int n (int m) = eq_ℤ n m
  equals_int n (real w) = host.real_eq (host.real_of_int n) w
  equals_int n _ = false

  abbrev equals_real : W → Json W → Bool
  equals_real w (bool true) = host.real_eq w (host.real_of_int (pos 1))
  equals_real w (bool false) = host.real_eq w (host.real_of_int (pos 0))
  equals_real w (int m) = host.real_eq w (host.real_of_int m)
  equals_real w (real v) = host.real_eq w v
  equals_real w _ = false

  abbrev pub equals_str : String → Json W → Bool
  equals_str s (str t) = str_eq s t
  equals_str s _ = false

  abbrev is_null : Json W → Bool
  is_null null = true
  is_null _ = false

  -- value == other; two dictionaries are equal in any order of their keys
  unfoldable mutual
    pub json_eq : Json W → Json W → Bool
    json_eq null y = is_null y
    json_eq (bool true) y = equals_int (pos 1) y
    json_eq (bool false) y = equals_int (pos 0) y
    json_eq (int n) y = equals_int n y
    json_eq (real w) y = equals_real w y
    json_eq (str s) y = equals_str s y
    json_eq (arr xs) y = elim (as_items y) [ some ys ↦ items_eq xs ys | none ↦ false ]
    json_eq (obj fs) y = elim (as_dict y) [
      | some gs ↦ (size fs == size gs) && fields_in fs gs
      | none ↦ false
    ]

    pub items_eq : Items W → Items W → Bool
    items_eq nil nil = true
    items_eq nil (cons y ys) = false
    items_eq (cons x xs) nil = false
    items_eq (cons x xs) (cons y ys) = json_eq x y && items_eq xs ys

    pub fields_in : Fields W → Fields W → Bool
    fields_in end gs = true
    fields_in (field k v r) gs =
        (elim (find gs k) [ some w ↦ json_eq v w | none ↦ false ]) && fields_in r gs
