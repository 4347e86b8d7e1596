-- ===== src/Chain/Json.antt =====
-- JSON values as `json.loads` gives them, and the breadth-first walk over one (trans_updater.py,
-- `_walk_json`). The queue keeps only what is still to be read. A path stands last key first.
pub mod Walk
use nim_hunt.Prelude.{
  ℕ, zero, suc, ◌+◌, Bool, true, false, Option, none, some, List, [], ◌∷◌, ◌++◌, if◌then◌else◌,
}
use nim_hunt.Prelude.Text.{Text, same}
use nim_hunt.Chain.Python.{Whole}

-- A number stands for what the program reads of it: `str(value or "")` and `int(value)`.
mutual
  pub data Json : Type 0 where
    json_null : Json
    json_bool : Bool → Json
    json_number : Text → Whole → Json
    json_text : Text → Json
    json_array : Items → Json
    json_object : Fields → Json

  pub data Items : Type 0 where
    no_item : Items
    next_item : Json → Items → Items

  pub data Fields : Type 0 where
    no_field : Fields
    next_field : Text → Json → Fields → Fields

-- The parts of a path: a key of an object, or the position in an array.
pub data Key : Type 0 where
  key : Text → Key
  position : ℕ → Key

pub record Entry : Type 0 where
  pub path : List Key
  pub item : Json

-- How many values a value holds, itself included.
unfoldable mutual
  pub nodes : Json → ℕ
  nodes (json_array xs) = suc (item_nodes xs)
  nodes (json_object fs) = suc (field_nodes fs)
  nodes _ = 1

  pub item_nodes : Items → ℕ
  item_nodes no_item = 0
  item_nodes (next_item v xs) = nodes v + item_nodes xs

  pub field_nodes : Fields → ℕ
  field_nodes no_field = 0
  field_nodes (next_field k v fs) = nodes v + field_nodes fs

unfoldable pub item_entries : List Key → ℕ → Items → List Entry
item_entries p n no_item = []
item_entries p n (next_item v xs) =
    record { path = position n ∷ p; item = v } ∷ item_entries p (suc n) xs

unfoldable pub field_entries : List Key → Fields → List Entry
field_entries p no_field = []
field_entries p (next_field k v fs) = record { path = key k ∷ p; item = v } ∷ field_entries p fs

unfoldable pub children : Entry → List Entry
unfolding item_entries field_entries
children e = elim e.item [
  | json_array xs ↦ item_entries e.path 0 xs
  | json_object fs ↦ field_entries e.path fs
  | _ ↦ []
]

-- The loop, on fuel.
unfoldable pub walk : ℕ → List Entry → Option (List Entry)
walk zero [] = some []
walk zero (e ∷ queue) = none
walk (suc n) [] = some []
walk (suc n) (e ∷ queue) = elim (walk n (queue ++ children e)) [
  | none ↦ none
  | some es ↦ some (e ∷ es)
]

unfoldable pub walk_json : Json → List Entry
walk_json v = elim (walk (nodes v) (record { path = []; item = v } ∷ [])) [
  | none ↦ []
  | some es ↦ es
]

-- `value.get(key)` on an object, whose keys `json.loads` makes distinct.
unfoldable pub get_field : Text → Fields → Option Json
get_field k no_field = none
get_field k (next_field j v fs) = let rest = get_field k fs in if same j k then some v else rest
