-- ===== src/Pg/Scram/Final.antt =====
-- pg/src/protocol/scram/parser.rs: the message that ends a SCRAM exchange.
use cartel.Base.{
  Bool, List, Option, Result, [], err, false, if◌then◌else◌, none, ok, some, true, ◌&&◌, ◌+◌, ◌==◌,
  ◌>>=◌, ◌∷◌,
}
use cartel.Pg.Reason.{Reason}
use cartel.Pg.Wire.{Wire, find_not}
use cartel.Pg.Scram.{Attribute, Attributes, attributes_new, attribute_offset, next, is_value_char}
use cartel.Pg.Scram.Messages.{extensions}

-- `scram::Error`
pub data ServerError : Type 0 where
  invalid_encoding extensions_not_supported invalid_proof : ServerError
  channel_bindings_dont_match server_does_support_channel_binding : ServerError
  channel_binding_not_supported unsupported_channel_binding_type : ServerError
  unknown_user invalid_username_encoding no_resources other : ServerError

-- `ServerFinal`
pub data ServerFinal : Type 0 where
  error : ServerError → ServerFinal
  verifier : Wire → ServerFinal

-- whether two slices are equal
abbrev pub same_bytes : Wire → Wire → Bool
same_bytes [] [] = true
same_bytes (x ∷ xs) (y ∷ ys) = x == y && same_bytes xs ys
same_bytes _ _ = false

-- the literals of `parse_server_error`, in its order
abbrev pub server_errors : List (Wire × ServerError)
server_errors =
    (
      b'i' ∷ b'n' ∷ b'v' ∷ b'a' ∷ b'l' ∷ b'i' ∷ b'd' ∷ b'-' ∷ b'e' ∷ b'n' ∷ b'c' ∷ b'o' ∷ b'd'
          ∷ b'i' ∷ b'n' ∷ b'g' ∷ [],
      ServerError.invalid_encoding,
    )
    ∷ (
      b'e' ∷ b'x' ∷ b't' ∷ b'e' ∷ b'n' ∷ b's' ∷ b'i' ∷ b'o' ∷ b'n' ∷ b's' ∷ b'-' ∷ b'n' ∷ b'o'
          ∷ b't' ∷ b'-' ∷ b's' ∷ b'u' ∷ b'p' ∷ b'p' ∷ b'o' ∷ b'r' ∷ b't' ∷ b'e' ∷ b'd' ∷ [],
      ServerError.extensions_not_supported,
    )
    ∷ (
      b'i' ∷ b'n' ∷ b'v' ∷ b'a' ∷ b'l' ∷ b'i' ∷ b'd' ∷ b'-' ∷ b'p' ∷ b'r' ∷ b'o' ∷ b'o' ∷ b'f' ∷ [],
      ServerError.invalid_proof,
    )
    ∷ (
      b'c' ∷ b'h' ∷ b'a' ∷ b'n' ∷ b'n' ∷ b'e' ∷ b'l' ∷ b'-' ∷ b'b' ∷ b'i' ∷ b'n' ∷ b'd' ∷ b'i'
          ∷ b'n' ∷ b'g' ∷ b's' ∷ b'-' ∷ b'd' ∷ b'o' ∷ b'n' ∷ b't' ∷ b'-' ∷ b'm' ∷ b'a' ∷ b't' ∷ b'c'
          ∷ b'h' ∷ [],
      ServerError.channel_bindings_dont_match,
    )
    ∷ (
      b's' ∷ b'e' ∷ b'r' ∷ b'v' ∷ b'e' ∷ b'r' ∷ b'-' ∷ b'd' ∷ b'o' ∷ b'e' ∷ b's' ∷ b'-' ∷ b's'
          ∷ b'u' ∷ b'p' ∷ b'p' ∷ b'o' ∷ b'r' ∷ b't' ∷ b'-' ∷ b'c' ∷ b'h' ∷ b'a' ∷ b'n' ∷ b'n' ∷ b'e'
          ∷ b'l' ∷ b'-' ∷ b'b' ∷ b'i' ∷ b'n' ∷ b'd' ∷ b'i' ∷ b'n' ∷ b'g' ∷ [],
      ServerError.server_does_support_channel_binding,
    )
    ∷ (
      b'c' ∷ b'h' ∷ b'a' ∷ b'n' ∷ b'n' ∷ b'e' ∷ b'l' ∷ b'-' ∷ b'b' ∷ b'i' ∷ b'n' ∷ b'd' ∷ b'i'
          ∷ b'n' ∷ b'g' ∷ b'-' ∷ b'n' ∷ b'o' ∷ b't' ∷ b'-' ∷ b's' ∷ b'u' ∷ b'p' ∷ b'p' ∷ b'o' ∷ b'r'
          ∷ b't' ∷ b'e' ∷ b'd' ∷ [],
      ServerError.channel_binding_not_supported,
    )
    ∷ (
      b'u' ∷ b'n' ∷ b's' ∷ b'u' ∷ b'p' ∷ b'p' ∷ b'o' ∷ b'r' ∷ b't' ∷ b'e' ∷ b'd' ∷ b'-' ∷ b'c'
          ∷ b'h' ∷ b'a' ∷ b'n' ∷ b'n' ∷ b'e' ∷ b'l' ∷ b'-' ∷ b'b' ∷ b'i' ∷ b'n' ∷ b'd' ∷ b'i' ∷ b'n'
          ∷ b'g' ∷ b'-' ∷ b't' ∷ b'y' ∷ b'p' ∷ b'e' ∷ [],
      ServerError.unsupported_channel_binding_type,
    )
    ∷ (
      b'u' ∷ b'n' ∷ b'k' ∷ b'n' ∷ b'o' ∷ b'w' ∷ b'n' ∷ b'-' ∷ b'u' ∷ b's' ∷ b'e' ∷ b'r' ∷ [],
      ServerError.unknown_user,
    )
    ∷ (
      b'i' ∷ b'n' ∷ b'v' ∷ b'a' ∷ b'l' ∷ b'i' ∷ b'd' ∷ b'-' ∷ b'u' ∷ b's' ∷ b'e' ∷ b'r' ∷ b'n'
          ∷ b'a' ∷ b'm' ∷ b'e' ∷ b'-' ∷ b'e' ∷ b'n' ∷ b'c' ∷ b'o' ∷ b'd' ∷ b'i' ∷ b'n' ∷ b'g' ∷ [],
      ServerError.invalid_username_encoding,
    )
    ∷ (
      b'n' ∷ b'o' ∷ b'-' ∷ b'r' ∷ b'e' ∷ b's' ∷ b'o' ∷ b'u' ∷ b'r' ∷ b'c' ∷ b'e' ∷ b's' ∷ [],
      ServerError.no_resources,
    )
    ∷ []

abbrev pub first_match : Wire → List (Wire × ServerError) → ServerError
first_match value [] = ServerError.other
first_match value ((literal, e) ∷ rest) =
    if same_bytes value literal then e else first_match value rest

-- `parse_server_error`
unfoldable pub parse_server_error : Wire → ServerError
parse_server_error value = first_match value server_errors

-- the match on the name of the first attribute
unfoldable pub final_result : Attribute → Result Reason ServerFinal
final_result first =
    if first.name == b'm'
    then err (Reason.extension (attribute_offset first))
    else if first.name == b'e'
    then elim (find_not is_value_char first.value) [
      | some (relative, byte) ↦ err (Reason.final_value (first.start + relative) byte)
      | none ↦ ok (ServerFinal.error (parse_server_error first.value))
    ]
    else if first.name == b'v'
    then ok (ServerFinal.verifier first.value)
    else err (Reason.final_attribute first.name)

-- `Parser::server_final`, behind its first attribute
unfoldable pub final_from : Option Attribute × Attributes → Result Reason ServerFinal
final_from (none, attrs) = err Reason.missing_result
final_from (some first, attrs) = do result ← final_result first; _ ← extensions attrs; ok result

-- `Parser::server_final`
unfoldable pub server_final : Wire → Result Reason ServerFinal
server_final bytes = do first ← next (attributes_new bytes); final_from first
