-- ===== src/Domain/Libraries.antt =====
-- What the program calls and does not define: hashlib, json, re, datetime and pathlib.
use civ4_turn_relay.Prelude.{ℕ, ◌≡◌, Bool, Option, some, Text, Bytes}
use civ4_turn_relay.Domain.Json.{Value}

pub record Libraries : Type 0 where
  -- `hashlib.sha256(data).hexdigest()`
  pub sha256_hexdigest : Bytes → Text
  -- `json.dumps(value, …).encode("utf-8") + b"\n"`, with the settings of `to_canonical_json_bytes`
  pub json_dumps : Value → Bytes
  -- `json.loads(data.decode("utf-8"), …)` after the test for a BOM; no value where one of these
  -- raises
  pub json_loads : Bytes → Option Value
  -- whether `json.loads` raises another exception than `JSONDecodeError`, which no reader catches:
  -- `ValueError` at an integer of too many digits, `RecursionError` at too deep a value
  pub json_escapes : Bytes → Bool
  -- `\d` of `re` over text: any decimal digit of Unicode
  pub is_decimal : ℕ → Bool
  -- whether `datetime.strptime(value, "%Y-%m-%dT%H:%M:%SZ")` returns
  pub strptime : Text → Bool
  -- `(datetime.strptime(value, f) + timedelta(seconds=n)).strftime(f)`; no value where it raises
  pub advance_seconds : Text → ℕ → Option Text
  -- `PureWindowsPath(value).name == value`
  pub is_windows_name : Text → Bool
  -- `PureWindowsPath(value).is_absolute()`
  pub is_windows_absolute : Text → Bool
  -- `float(n)` and `float(-n)`, by the text that stands for the number in JSON
  pub float_of : ℕ → Bytes
  pub float_of_negative : ℕ → Bytes

-- What is documented of json: `loads` reads back what `dumps` wrote. `dumps` sorts the keys of an object
-- and raises on a text that is no UTF-8, so this holds of the values that it is called on here: objects
-- with their keys in order, of texts that can be encoded.
abbrev pub JsonReadsBack : Libraries → Type 0
JsonReadsBack lib = (v : Value) → lib.json_loads (lib.json_dumps v) ≡ some v
