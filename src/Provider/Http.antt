-- ===== src/Provider/Http.antt =====
-- What the adapters of the providers share: JSON values, requests and answers, and the functions of the
-- Go library that they call, which are parameters.
use wanpay.Base.{ℕ, ℤ, String, Option, none, some, List, [], ◌∷◌, ◌==◌, if◌then◌else◌}
use wanpay.Entity.Fee.{Time}
use wanpay.Db.Error.{external, Result, ok, err}
use wanpay.Db.Monad.{M}

-- The bodies of requests: `map[string]any`.
mutual
  pub data Json : Type 0 where
    text : String → Json
    num : ℤ → Json
    arr : Items → Json
    obj : Fields → Json

  pub data Items : Type 0 where
    nil : Items
    cons : Json → Items → Items

  pub data Fields : Type 0 where
    end : Fields
    field : String → Json → Fields → Fields

-- A field that is left out where its text is empty.
abbrev pub field_if : String → String → Fields → Fields
field_if key value rest = if value == "" then rest else field key (text value) rest

pub record HttpRequest : Type 0 where
  pub method : String
  pub url : String
  pub headers : List (String × String)
  pub body : Option String

pub record HttpAnswer : Type 0 where
  pub status_code : ℕ
  pub body : String

-- `send` is the client's Do and the reading of the answer; other requests may be served meanwhile.
-- `marshal` is json.Marshal, `base64` the standard encoding, `rfc3339` and `date_time` format a time (the
-- second as "2006-01-02 15:04:05"), `to_upper` and `to_lower` are those of the package strings.
pub record Ports : Type 0 where
  pub send : HttpRequest → M HttpAnswer
  pub marshal : Json → String
  pub base64 : String → String
  pub rfc3339 : Time → String
  pub date_time : Time → String
  pub parse_date_time : String → Option Time
  pub to_upper : String → String
  pub to_lower : String → String

-- `headers["…"]`, which is empty where there is none.
unfoldable pub header : String → List (String × String) → String
header key [] = ""
header key ((k, v) ∷ rest) = let later = header key rest in if k == key then v else later

-- `json.Unmarshal`
abbrev pub unmarshalled : {A : Type 0} → Option A → Result A
unmarshalled none = err (external "json")
unmarshalled (some a) = ok a
