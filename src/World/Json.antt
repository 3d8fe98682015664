-- ===== src/World/Json.antt =====
-- Values of a dynamic type, as `json` and `yaml` make them.
use autonomy_engine.Base.{
  ℕ, String, Bool, true, false, Option, none, some, List, [], ◌∷◌, ◌==◌, if◌then◌else◌, eqb, truthy,
}
use autonomy_engine.Base.Dict.{Dict}

-- `literal` is any other number, by its text.
mutual
  pub data Json : Type 0 where
    null : Json
    bool : Bool → Json
    num : ℕ → Json
    literal : String → Json
    str : String → Json
    arr : Items → Json
    obj : Fields → Json

  pub data Items : Type 0 where
    nil : Items
    cons : Json → Items → Items

  pub data Fields : Type 0 where
    end : Fields
    field : String → Json → Fields → Fields

-- d.get(k)
unfoldable pub get_field : String → Fields → Option Json
get_field k end = none
get_field k (field j v fs) = if j == k then some v else get_field k fs

unfoldable pub of_dict : Dict Json → Fields
of_dict [] = end
of_dict ((k, v) ∷ d) = field k v (of_dict d)

unfoldable pub of_texts : List String → Items
of_texts [] = nil
of_texts (s ∷ ss) = cons (str s) (of_texts ss)

-- `str | None`
unfoldable pub of_option : Option String → Json
of_option none = null
of_option (some s) = str s

unfoldable pub is_truthy : Json → Bool
is_truthy null = false
is_truthy (bool b) = b
is_truthy (num n) = if eqb n 0 then false else true
is_truthy (literal s) = true
is_truthy (str s) = truthy s
is_truthy (arr nil) = false
is_truthy (arr (cons x xs)) = true
is_truthy (obj end) = false
is_truthy (obj (field k v fs)) = true
