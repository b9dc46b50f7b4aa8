-- ===== src/Agent/Fields.antt =====
-- How pydantic reads the fields of the models that the agent parses: `none` where the value has
-- another type than the field, the default where the key is missing.
use atlas_the_agent.Base.{String, Option, none, some, [], Text}
use atlas_the_agent.Core.Json.{Json, null, str, arr, obj, Items, nil, Fields, end, get}

abbrev as_str : Json → Option Text
as_str (str s) = some s
as_str _ = none

abbrev as_str_or_none : Json → Option (Option Text)
as_str_or_none null = some none
as_str_or_none (str s) = some (some s)
as_str_or_none _ = none

abbrev as_dict : Json → Option Fields
as_dict (obj fs) = some fs
as_dict _ = none

abbrev as_list : Json → Option Items
as_list (arr xs) = some xs
as_list _ = none

abbrev field_or : {A : Type 0} → A → (Json → Option A) → String → Fields → Option A
field_or default read k fs = elim (get fs k) [ none ↦ some default | some v ↦ read v ]

-- `name: str = ""`
abbrev pub str_field : String → Fields → Option Text
str_field = field_or [] as_str

-- `name: str | None = None`
abbrev pub opt_str_field : String → Fields → Option (Option Text)
opt_str_field = field_or none as_str_or_none

-- `name: dict = {}`
abbrev pub dict_field : String → Fields → Option Fields
dict_field = field_or end as_dict

-- `name: list = []`
abbrev pub list_field : String → Fields → Option Items
list_field = field_or nil as_list

infixl 5 ◌>>=◌
abbrev pub ◌>>=◌ : {A B : Type 0} → Option A → (A → Option B) → Option B
none >>= f = none
some a >>= f = f a
