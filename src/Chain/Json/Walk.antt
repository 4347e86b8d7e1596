-- ===== src/Chain/Json/Walk.antt =====
-- The walk over a JSON value ends, and reads every value in it once.
use nim_hunt.Prelude.{
  ℕ, zero, suc, ◌≤◌, ◌≡◌, refl, some, List, [], ◌∷◌, ◌++◌, arith, total, length, total-append,
}
use nim_hunt.Chain.Json.{
  Json, json_null, json_bool, json_number, json_text, json_array, json_object, Items, no_item,
  next_item, Fields, no_field, next_field, Key, Entry, nodes, item_nodes, field_nodes, item_entries,
  field_entries, children, walk, walk_json,
}

abbrev pub weight : List Entry → ℕ
weight es = total (λ e. nodes e.item) es

item_entries-weight :
    (p : List Key) (n : ℕ) (xs : Items) → weight (item_entries p n xs) ≡ item_nodes xs
unfolding item_entries item_nodes
item_entries-weight p n no_item = refl
item_entries-weight p n (next_item v xs) = omega (arith, item_entries-weight p (suc n) xs)

field_entries-weight : (p : List Key) (fs : Fields) → weight (field_entries p fs) ≡ field_nodes fs
unfolding field_entries field_nodes
field_entries-weight p no_field = refl
field_entries-weight p (next_field k v fs) = omega (arith, field_entries-weight p fs)

children-weight :
    (p : List Key) (v : Json) → suc (weight (children (record { path = p; item = v }))) ≡ nodes v
unfolding children nodes
children-weight p json_null = refl
children-weight p (json_bool b) = refl
children-weight p (json_number t w) = refl
children-weight p (json_text t) = refl
children-weight p (json_array xs) = omega (arith, item_entries-weight p 0 xs)
children-weight p (json_object fs) = omega (arith, field_entries-weight p fs)

pub walk_enough :
    (n : ℕ) (queue : List Entry)
    → weight queue ≤ n
    → (es : List Entry) × (walk n queue ≡ some es) × (length es ≡ weight queue)
unfolding walk
walk_enough zero [] h = ([], refl, refl)
walk_enough zero (e ∷ queue) h = absurd (omega (arith, children-weight e.path e.item))
walk_enough (suc n) [] h = ([], refl, refl)
walk_enough (suc n) (e ∷ queue) h =
    let rest = walk_enough n (queue ++ children e) (
      rw (total-append (λ x. nodes x.item) queue (children e))
        (omega (arith, children-weight e.path e.item))) in
    (
      e ∷ rest.0,
      rw rest.1 refl,
      omega (
        arith,
        rest.2,
        total-append (λ x. nodes x.item) queue (children e),
        children-weight e.path e.item,
      ),
    )

-- The breadth-first walk over any JSON value ends, and reads as many values as there are in it.
pub walk_json-ends :
    (v : Json)
    → (walk (nodes v) (record { path = []; item = v } ∷ []) ≡ some (walk_json v))
      × (length (walk_json v) ≡ nodes v)
unfolding walk_json
walk_json-ends v =
    let (es, e, l) = walk_enough (nodes v) (record { path = []; item = v } ∷ []) (omega arith) in
    rw (walk_json, e) (refl, omega (arith, l))
