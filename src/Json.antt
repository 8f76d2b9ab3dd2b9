-- ===== src/Json.antt =====
-- Values of the dynamic language (`unknown`, `Record<string, unknown>`), and how they are printed
-- by `JSON.stringify`. A number is kept as the text that it is printed as; an object lists its own
-- enumerable keys in their order.
pub mod Order
use Prim.Native.Char.{Char, code}
use Prim.Native.Nat.{◌%◌}
use Prim.Native.String.{slice}
use dsh_assistant.Prelude.{
  ℕ, ◌+◌, String, Bool, true, false, ltb, ◌==◌, number_equality, ◌&◌, if◌then◌else◌,
}

mutual
  pub data Json : Type 0 where
    null : Json
    bool : Bool → Json
    num : String → Json
    str : String → Json
    arr : Items → Json
    obj : Fields → Json

  pub data Items : Type 0 where
    nil : Items
    cons : Json → Items → Items

  pub data Fields : Type 0 where
    end : Fields
    field : String → Json → Fields → Fields

hex_digit : ℕ → String
hex_digit n = slice "0123456789abcdef" n (n + 1)

-- one character inside a JSON string literal
escape : Char → String
unfolding hex_digit
escape c =
    let n = code c in
    if n == b'"'
    then "\\\""
    else if n == 92
    then "\\\\"
    else if n == 8
    then "\\b"
    else if n == 9
    then "\\t"
    else if n == 10
    then "\\n"
    else if n == 12
    then "\\f"
    else if n == 13
    then "\\r"
    else if ltb n 32
    then "\\u00" & (if ltb n 16 then "0" else "1") & hex_digit (n % 16)
    else String.◌∷◌ c String.[]

escape_all : String → String
unfolding escape
escape_all String.[] = ""
escape_all (String.◌∷◌ c s) = escape c & escape_all s

pub quote : String → String
unfolding escape_all
quote s = "\"" & escape_all s & "\""

-- `JSON.stringify(value)`; a comma stands in front of every member but the first
unfoldable mutual
  unfolding quote

  pub stringify : Json → String
  stringify null = "null"
  stringify (bool true) = "true"
  stringify (bool false) = "false"
  stringify (num n) = n
  stringify (str s) = quote s
  stringify (arr xs) = "[" & stringify_items "" xs & "]"
  stringify (obj fs) = "{" & stringify_fields "" fs & "}"

  pub stringify_items : String → Items → String
  stringify_items sep nil = ""
  stringify_items sep (cons v vs) = sep & stringify v & stringify_items "," vs

  pub stringify_fields : String → Fields → String
  stringify_fields sep end = ""
  stringify_fields sep (field k v fs) = sep & quote k & ":" & stringify v & stringify_fields "," fs
