-- ===== src/InputProfile/Json.antt =====
-- JSON values as Python holds them. The keys of an object are distinct, as those of a `dict`.
use cognous_agent_control_pl.Base.{
  ℕ, String, Bool, false, Option, none, some, List, [], ◌∷◌, ◌==◌, if◌then◌else◌,
}

-- A float by its bit pattern.
mutual
  pub data Json : Type 0 where
    null : Json
    boolean : Bool → Json
    integer : ℕ → Json
    negative_integer : ℕ → Json
    float : ℕ → Json
    text : String → Json
    array : Elements → Json
    object : Members → Json

  pub data Elements : Type 0 where
    nil : Elements
    cons : Json → Elements → Elements

  pub data Members : Type 0 where
    end : Members
    member : String → Json → Members → Members

unfoldable pub list_of : Elements → List Json
list_of Elements.nil = []
list_of (Elements.cons x xs) = x ∷ list_of xs

unfoldable pub pairs_of : Members → List (String × Json)
pairs_of Members.end = []
pairs_of (Members.member k v m) = (k, v) ∷ pairs_of m

-- `m.get(key)`
unfoldable pub lookup : String → Members → Option Json
lookup key Members.end = none
lookup key (Members.member k v m) = if k == key then some v else lookup key m

-- `{k: v for k, v in m.items() if k != key}`
unfoldable pub without : String → Members → Members
without key Members.end = Members.end
without key (Members.member k v m) =
    if k == key then without key m else Members.member k v (without key m)

-- `null` where there is no value, as in a dictionary of `m.get(key)`.
abbrev pub or_null : Option Json → Json
or_null none = Json.null
or_null (some v) = v

abbrev pub array_of : List Members → Elements
array_of [] = Elements.nil
array_of (m ∷ ms) = Elements.cons (Json.object m) (array_of ms)

-- `value == s`
unfoldable pub is_text : String → Option Json → Bool
is_text s (some (Json.text t)) = t == s
is_text s _ = false
