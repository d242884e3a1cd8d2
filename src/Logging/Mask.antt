-- ===== src/Logging/Mask.antt =====
-- src/logging/mask.ts. The code masks a JSON value in place; here a function gives the masked value.
-- JSON.parse and JSON.stringify are the parameter `json`.
pub mod Headers
pub mod Paths
use morpheus_proxy.Prelude.{
  ℕ, zero, suc, Bool, true, false, not, ◌&&◌, ◌||◌, Option, none, some, List, [], ◌∷◌, ◌++◌, Text,
  js, text_eq, starts_with, to_lower_case, drop, length, filter, map, ltb, ◌==◌, insert, any,
  is_some, lookup, if◌then◌else◌,
}
use morpheus_proxy.Json.{
  Json, Items, Fields, null, bool, num, str, arr, obj, nil, cons, end, field, fields,
}
use morpheus_proxy.Rules.Matcher.{HeaderMap, HeaderValue, one, many}

pub record MaskSettings : Type 0 where
  pub headers : List Text
  pub json_paths : List Text

unfoldable pub masked_value : Text
masked_value = js "***"

pub record JsonText : Type 0 where
  pub parse : Text → Option Json
  pub stringify : Json → Text

pub record MaskRegistry : Type 0 where
  pub headers : List Text
  pub json_paths : List (List Text)
  pub raw_json_paths : List Text

abbrev mem : Text → List Text → Bool
mem t ts = any (λ u. text_eq u t) ts

-- `new Set(names)`, in insertion order.
unfoldable pub to_set : List Text → List Text → List Text
to_set seen [] = []
to_set seen (t ∷ ts) =
    let rest = to_set (t ∷ seen) ts in
    let skipped = to_set seen ts in if mem t seen then skipped else t ∷ rest

-- `s.split('.')`, with the part that has been read.
unfoldable pub split_dot : Text → Text → List Text
split_dot part [] = part ∷ []
split_dot part (c ∷ s) =
    let closed = part ∷ split_dot [] s in
    let longer = split_dot (part ++ c ∷ []) s in if c == b'.' then closed else longer

abbrev is_json_path : Text → Bool
is_json_path p = starts_with p (js "$.") && ltb 2 (length p)

-- `set`, and the constructor.
unfoldable pub set : MaskSettings → MaskRegistry
unfolding to_set split_dot
set settings =
    let raw = filter is_json_path settings.json_paths in
    record {
      headers = to_set [] (map to_lower_case settings.headers);
      json_paths = map (λ p. split_dot [] (drop 2 p)) raw;
      raw_json_paths = raw;
    }

unfoldable pub get : MaskRegistry → MaskSettings
get registry = record { headers = registry.headers; json_paths = registry.raw_json_paths }

-- The names that every object has from `Object.prototype`.
unfoldable pub inherited_names : List Text
inherited_names =
    js "constructor"
    ∷ js "__defineGetter__"
    ∷ js "__defineSetter__"
    ∷ js "hasOwnProperty"
    ∷ js "__lookupGetter__"
    ∷ js "__lookupSetter__"
    ∷ js "isPrototypeOf"
    ∷ js "propertyIsEnumerable"
    ∷ js "toString"
    ∷ js "valueOf"
    ∷ js "toLocaleString"
    ∷ []

abbrev pub selects : Text → Text → Bool
selects head key = text_eq head (js "*") || text_eq key head

abbrev pub has_field : Text → Fields → Bool
has_field key fs = is_some (lookup key (fields fs))

-- `head in record` holds of an inherited name; the write then makes the name a property.
unfoldable pub gains : Text → List Text → Fields → Bool
unfolding inherited_names
gains head [] fs =
    not (text_eq head (js "*")) && not (has_field head fs) && mem head inherited_names
gains head (segment ∷ rest) fs = false

unfoldable pub gained : Bool → Text → Fields → Fields
gained false head end = end
gained true head end = field head (str masked_value) end
gained b head (field k v fs) = field k v (gained b head fs)

unfoldable mutual
  pub apply_path : Json → Text → List Text → Json
  apply_path null head rest = null
  apply_path (bool b) head rest = bool b
  apply_path (num n) head rest = num n
  apply_path (str t) head rest = str t
  apply_path (arr vs) head rest = arr (apply_items vs head rest)
  apply_path (obj fs) head rest = obj (gained (gains head rest fs) head (apply_fields fs head rest))

  -- Arrays are transparent.
  pub apply_items : Items → Text → List Text → Items
  apply_items nil head rest = nil
  apply_items (cons v vs) head rest = cons (apply_path v head rest) (apply_items vs head rest)

  -- The loop over the keys.
  pub apply_fields : Fields → Text → List Text → Fields
  apply_fields end head rest = end
  apply_fields (field k v fs) head [] =
      field k (if selects head k then str masked_value else v) (apply_fields fs head [])
  apply_fields (field k v fs) head (segment ∷ rest) =
      field k (if selects head k then apply_path v segment rest else v)
        (apply_fields fs head (segment ∷ rest))

-- `applyPath(node, segments)`
unfoldable pub apply_segments : Json → List Text → Json
apply_segments v [] = v
apply_segments v (head ∷ rest) = apply_path v head rest

mask_paths : List (List Text) → Json → Json
mask_paths [] v = v
mask_paths (path ∷ paths) v = mask_paths paths (apply_segments v path)

unfoldable pub mask_json_value : MaskRegistry → Json → Json
unfolding mask_paths
mask_json_value registry v = mask_paths registry.json_paths v

abbrev is_container : Json → Bool
is_container (arr vs) = true
is_container (obj fs) = true
is_container null = false
is_container (bool b) = false
is_container (num n) = false
is_container (str t) = false

unfoldable pub mask_json_text : JsonText → MaskRegistry → Text → Text
unfolding mask_json_value
mask_json_text json registry body =
    if ltb 0 (length registry.json_paths)
    then (elim (json.parse body) [
      | none ↦ body
      | some v ↦ if is_container v then json.stringify (mask_json_value registry v) else body
    ])
    else body

abbrev pub mask_value : HeaderValue → HeaderValue
mask_value (one value) = one masked_value
mask_value (many values) = many (map (λ v. masked_value) values)

unfoldable pub is_masked : MaskRegistry → Text → Bool
is_masked registry name = mem (to_lower_case name) registry.headers

mask_entries : MaskRegistry → HeaderMap → HeaderMap → HeaderMap
mask_entries registry [] masked = masked
mask_entries registry ((name, value) ∷ headers) masked =
    mask_entries registry headers
      (insert name (if is_masked registry name then mask_value value else value) masked)

unfoldable pub mask_headers : MaskRegistry → HeaderMap → HeaderMap
unfolding mask_entries
mask_headers registry headers = mask_entries registry headers []
