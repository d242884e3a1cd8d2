-- ===== src/Logging/Mask/Paths.antt =====
-- Masked JSON values: nothing that a path reaches keeps its value.
use morpheus_proxy.Prelude.{
  ◌≡◌, refl, Bool, true, false, List, [], ◌∷◌, ◌++◌, Text, All, All-append, if◌then◌else◌,
  Bool-cases, inl, inr, All-split,
}
use morpheus_proxy.Json.{Json, Items, Fields, null, bool, num, str, arr, obj, nil, cons, end, field}
use morpheus_proxy.Logging.Mask.{
  apply_path, apply_items, apply_fields, gained, selects, masked_value,
}

-- The values that a path of segments reaches.
unfoldable mutual
  pub reached : Json → Text → List Text → List Json
  reached null head rest = []
  reached (bool b) head rest = []
  reached (num n) head rest = []
  reached (str t) head rest = []
  reached (arr vs) head rest = reached_items vs head rest
  reached (obj fs) head rest = reached_fields fs head rest

  pub reached_items : Items → Text → List Text → List Json
  reached_items nil head rest = []
  reached_items (cons v vs) head rest = reached v head rest ++ reached_items vs head rest

  pub reached_fields : Fields → Text → List Text → List Json
  reached_fields end head rest = []
  reached_fields (field k v fs) head [] =
      (if selects head k then v ∷ [] else []) ++ reached_fields fs head []
  reached_fields (field k v fs) head (segment ∷ rest) =
      (if selects head k then reached v segment rest else [])
      ++ reached_fields fs head (segment ∷ rest)

abbrev IsMasked : Json → Type 0
IsMasked v = v ≡ str masked_value

gained-reached :
    (b : Bool) (name head : Text) (rest : List Text) (fs : Fields)
    → All IsMasked (reached_fields fs head rest)
    → All IsMasked (reached_fields (gained b name fs) head rest)
unfolding gained reached
gained-reached false name head rest end h = h
gained-reached true name head [] end h = elim (Bool-cases (selects head name)) [
  | inl e ↦ rw e (refl, tt)
  | inr e ↦ rw e tt
]
gained-reached true name head (segment ∷ rest) end h = elim (Bool-cases (selects head name)) [
  | inl e ↦ rw e tt
  | inr e ↦ rw e tt
]
gained-reached b name head [] (field k v fs) h =
    let parts = All-split IsMasked _ (reached_fields fs head []) h in
    All-append IsMasked _ _ parts.0 (gained-reached b name head [] fs parts.1)
gained-reached b name head (segment ∷ rest) (field k v fs) h =
    let parts = All-split IsMasked _ (reached_fields fs head (segment ∷ rest)) h in
    All-append IsMasked _ _ parts.0 (gained-reached b name head (segment ∷ rest) fs parts.1)

mutual
  unfolding apply_path reached

  apply-reached :
      (v : Json) (head : Text) (rest : List Text)
      → All IsMasked (reached (apply_path v head rest) head rest)
  apply-reached null head rest = tt
  apply-reached (bool b) head rest = tt
  apply-reached (num n) head rest = tt
  apply-reached (str t) head rest = tt
  apply-reached (arr vs) head rest = items-reached vs head rest
  apply-reached (obj fs) head rest = gained-reached _ head head rest _ (fields-reached fs head rest)

  items-reached :
      (vs : Items) (head : Text) (rest : List Text)
      → All IsMasked (reached_items (apply_items vs head rest) head rest)
  items-reached nil head rest = tt
  items-reached (cons v vs) head rest =
      All-append IsMasked _ _ (apply-reached v head rest) (items-reached vs head rest)

  fields-reached :
      (fs : Fields) (head : Text) (rest : List Text)
      → All IsMasked (reached_fields (apply_fields fs head rest) head rest)
  fields-reached end head rest = tt
  fields-reached (field k v fs) head [] = elim (Bool-cases (selects head k)) [
    | inl e ↦ rw e (refl, fields-reached fs head [])
    | inr e ↦ rw e (fields-reached fs head [])
  ]
  fields-reached (field k v fs) head (segment ∷ rest) = elim (Bool-cases (selects head k)) [
    | inl e ↦ rw e (
        All-append IsMasked _ _ (apply-reached v segment rest)
          (fields-reached fs head (segment ∷ rest)))
    | inr e ↦ rw e (fields-reached fs head (segment ∷ rest))
  ]

-- After a path has been masked, every value that it reaches, through any arrays and the wildcard, is
-- `***`.
pub apply_path-reached :
    (v : Json) (head : Text) (rest : List Text)
    → All (λ w. w ≡ str masked_value) (reached (apply_path v head rest) head rest)
apply_path-reached v head rest = apply-reached v head rest
