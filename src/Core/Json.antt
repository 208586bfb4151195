-- ===== src/Core/Json.antt =====
-- The values that `json.loads` gives, as core/identity.py and core/identity_state.py tell them apart
-- by `type(x) is int` and the like. A `float` is no `int` to them, whatever it stands for.
use jake_ai.Prelude.{
  Bool, List, Option, Result, String, [], err, ok, pos, some, value_error, ℕ, ℤ, ◌>>=◌, ◌∷◌,
}

mutual
  pub data Json : Type 0 where
    nothing : Json
    bool : Bool → Json
    int : ℤ → Json
    float : ℤ → Json
    text : String → Json
    array : JsonItems → Json
    object : JsonMembers → Json

  pub data JsonItems : Type 0 where
    item : Json → JsonItems → JsonItems
    no_items : JsonItems

  pub data JsonMembers : Type 0 where
    member : String → Json → JsonMembers → JsonMembers
    no_members : JsonMembers

-- `type(x) is int` with x >= 0
unfoldable pub as_natural : Option Json → Result ℕ
as_natural (some (int (pos n))) = ok n
as_natural _ = err value_error

-- `type(x) is str`
unfoldable pub as_text : Option Json → Result String
as_text (some (text s)) = ok s
as_text _ = err value_error

-- a list of texts only
unfoldable pub texts : JsonItems → Result (List String)
texts no_items = ok []
texts (item (text s) xs) = texts xs >>= λ rest. ok (s ∷ rest)
texts (item _ xs) = err value_error

unfoldable pub as_texts : Option Json → Result (List String)
unfolding texts
as_texts (some (array xs)) = texts xs
as_texts _ = err value_error
