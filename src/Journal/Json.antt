-- ===== src/Journal/Json.antt =====
-- The values that executor/journal.py reads and writes, and how Python turns a decoded value into a
-- text or an integer. The text of a journal line is the JSON value that it encodes, whose dicts are
-- equal in any order of their keys.
use Prim.Native.Nat.{◌^◌}
use polymarket_trade_executo.Common.{
  String, Bool, true, false, not, Option, none, some, Result, ok, err, ◌>>=◌, ◌==◌, string_eq,
  if◌then◌else◌,
}
use polymarket_trade_executo.Common.Int.{ℤ, pos, ◌-ℤ◌, ◌/ℤ◌, eqb_ℤ, ltb_ℤ}
use polymarket_trade_executo.Common.Float.{Float, finite, infinite, nan}
use polymarket_trade_executo.Common.Text.{decimal}
use polymarket_trade_executo.StateMachine.Types.{Error}

-- A Python value: what JSON has, and what a payload may hold beside that. A dict's key is the text that
-- `str` makes of it.
mutual
  pub data Json : Type 0 where
    null : Json
    boolean : Bool → Json
    number : ℤ → Json
    real : Float → Json
    text : String → Json
    array : Items → Json
    object : Fields → Json
    -- a tuple, a deque or a set, in the order of its iteration
    sequence : Items → Json
    -- a member of an enum, by its value: those of the source's enums are texts
    member : String → Json
    -- an instance of a dataclass, by its fields
    instance_of : Fields → Json
    -- any other object, by what `str` makes of it
    other_object : String → Json

  pub data Items : Type 0 where
    empty : Items
    item : Json → Items → Items

  -- a dict, with distinct keys
  pub data Fields : Type 0 where
    end : Fields
    field : String → Json → Fields → Fields

-- what the exceptions of the module name
pub data JournalError : Type 0 where
  missing_key not_a_member : String → JournalError
  not_an_integer line_not_object payload_not_object : JournalError
  machine : Error → JournalError

abbrev pub Decoded : Type 0 → Type 0
Decoded A = Result JournalError A

-- `data.get(key)`
abbrev pub lookup : Fields → String → Option Json
lookup end key = none
lookup (field k v rest) key = if k == key then some v else lookup rest key

-- `data[key]`
abbrev pub found_at : String → Option Json → Decoded Json
found_at key none = err (JournalError.missing_key key)
found_at key (some v) = ok v

abbrev pub required : Fields → String → Decoded Json
required d key = found_at key (lookup d key)

-- `bool(value)`; an object is true, as one is whose class does not say otherwise
unfoldable pub is_truthy : Json → Bool
is_truthy Json.null = false
is_truthy (Json.boolean b) = b
is_truthy (Json.number n) = not (eqb_ℤ n (pos 0))
is_truthy (Json.real (finite n k)) = not (eqb_ℤ n (pos 0))
is_truthy (Json.real (infinite is_negative)) = true
is_truthy (Json.real nan) = true
is_truthy (Json.text s) = not (s == "")
is_truthy (Json.array Items.empty) = false
is_truthy (Json.array (Items.item v vs)) = true
is_truthy (Json.object Fields.end) = false
is_truthy (Json.object (Fields.field k v vs)) = true
is_truthy (Json.sequence Items.empty) = false
is_truthy (Json.sequence (Items.item v vs)) = true
is_truthy (Json.member v) = true
is_truthy (Json.instance_of vs) = true
is_truthy (Json.other_object s) = true

-- What Python's `str` prints of floats, of lists and dicts and of what JSON does not have, and what its
-- `int` reads of a text and of any other object.
pub record Python : Type 0 where
  pub repr : Json → String
  pub read_int : String → Option ℤ
  pub int_of : Json → Option ℤ

-- toward zero
abbrev truncated : ℤ → ℤ → ℤ
truncated n d = if ltb_ℤ n (pos 0) then pos 0 -ℤ (pos 0 -ℤ n) /ℤ d else n /ℤ d

abbrev integer_or : Option ℤ → Decoded ℤ
integer_or none = err JournalError.not_an_integer
integer_or (some n) = ok n

module _ (python : Python) where
  -- `str(value)`
  unfoldable pub str : Json → String
  str Json.null = "None"
  str (Json.boolean true) = "True"
  str (Json.boolean false) = "False"
  str (Json.number n) = decimal n
  str (Json.real x) = python.repr (Json.real x)
  str (Json.text s) = s
  str (Json.array vs) = python.repr (Json.array vs)
  str (Json.object vs) = python.repr (Json.object vs)
  str (Json.sequence vs) = python.repr (Json.sequence vs)
  str (Json.member v) = python.repr (Json.member v)
  str (Json.instance_of vs) = python.repr (Json.instance_of vs)
  str (Json.other_object s) = s

  -- `int(value)`
  unfoldable pub int : Json → Decoded ℤ
  int Json.null = err JournalError.not_an_integer
  int (Json.boolean true) = ok (pos 1)
  int (Json.boolean false) = ok (pos 0)
  int (Json.number n) = ok n
  int (Json.real (finite n k)) = ok (truncated n (pos (2 ^ k)))
  int (Json.real (infinite is_negative)) = err JournalError.not_an_integer
  int (Json.real nan) = err JournalError.not_an_integer
  int (Json.text s) = integer_or (python.read_int s)
  int (Json.array vs) = err JournalError.not_an_integer
  int (Json.object vs) = err JournalError.not_an_integer
  int (Json.sequence vs) = err JournalError.not_an_integer
  int (Json.member v) = integer_or (python.int_of (Json.member v))
  int (Json.instance_of vs) = integer_or (python.int_of (Json.instance_of vs))
  int (Json.other_object s) = integer_or (python.int_of (Json.other_object s))

  -- `str(data[key])`
  abbrev pub text_at : Fields → String → Decoded String
  text_at d key = required d key >>= λ v. ok (str v)

  -- `int(data[key])`
  abbrev pub int_at : Fields → String → Decoded ℤ
  int_at d key = required d key >>= int

  -- `_as_optional_str(data.get(key))`
  unfoldable pub as_optional_str : Option Json → Option String
  as_optional_str none = none
  as_optional_str (some Json.null) = none
  as_optional_str (some v) = some (str v)
