-- ===== src/Json.antt =====
-- jsonutil/jsonutil.go. encoding/json is a parameter, at the type that a value has, and so is the file system.
use ecstoolkit.Base.{Result, ◌>>=◌, [], ◌∷◌}
use ecstoolkit.Buffer.{Bytes}
use ecstoolkit.Method.{Method, continue}

-- What is marshalled, at the type `A`; `marshal_indent` takes the prefix and the indentation.
pub record Marshaler (A : Type 0) : Type 0 where
  pub json_marshal : A → Result Bytes
  pub json_marshal_indent : A → Bytes → Bytes → Result Bytes

-- What is parsed, at the type `A`.
pub record Unmarshaler (A : Type 0) : Type 0 where
  pub json_unmarshal : Bytes → Result A

-- Two spaces.
abbrev pub json_format : Bytes
json_format = 32 ∷ 32 ∷ []

-- `json.Indent` takes the text, the prefix and the indentation.
unfoldable pub indent : (Bytes → Bytes → Bytes → Result Bytes) → Bytes → Result Bytes
indent json_indent json_str = json_indent json_str [] json_format

module _ {A : Type 0} (m : Marshaler A) where
  unfoldable pub marshal : A → Result Bytes
  marshal obj = m.json_marshal obj

  unfoldable pub marshal_indent : A → Result Bytes
  marshal_indent obj = m.json_marshal_indent obj [] json_format

module _ {B : Type 0} (u : Unmarshaler B) where
  unfoldable pub unmarshal : Bytes → Result B
  unmarshal json_content = u.json_unmarshal json_content

  -- The file's content is read by `read_file`.
  unfoldable pub unmarshal_file : {S : Type 0} → (Bytes → Method S Bytes) → Bytes → Method S B
  unmarshal_file read_file file_path s =
      let (content, s') = read_file file_path s in continue content (λ b t. (unmarshal b, t)) s'

-- From one type to another by way of JSON.
unfoldable pub remarshal : {A B : Type 0} → Marshaler A → Unmarshaler B → A → Result B
remarshal m u obj = m.json_marshal obj >>= u.json_unmarshal
