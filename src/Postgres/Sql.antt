-- ===== src/Postgres/Sql.antt =====
-- What the repositories of internal/adapters/postgres see of the database: the errors of a
-- statement, the unique violations, and the 32-bit columns.
use Prim.Native.Nat.{◌^◌}
use booking_concurrent.Common.{
  Option, ℕ, ◌-◌, ◌%◌, ◌<◌, ◌≡◌, arith, Bool, false, Text, text_eq, bytes, ltb, if◌then◌else◌, ℤ,
  pos, negsuc,
}

-- The error of a statement: no row, an error of the server with its SQLSTATE and constraint, or
-- one of the connection.
pub data DbError : Type 0 where
  no_rows : DbError
  pg_error : (code constraint : Text) → DbError
  broken : DbError

abbrev pub unique_violation : Text
unique_violation = bytes "23505"

abbrev pub check_violation : Text
check_violation = bytes "23514"

abbrev pub invalid_text : Text
invalid_text = bytes "22P02"

abbrev pub foreign_key_violation : Text
foreign_key_violation = bytes "23503"

-- `isUniqueViolation`
unfoldable pub is_unique_violation : DbError → Bool
is_unique_violation no_rows = false
is_unique_violation (pg_error code constraint) = text_eq code unique_violation
is_unique_violation broken = false

-- What the columns make of a value: the server's reading of a UUID, which gives its canonical form or
-- refuses the text; `uuidToPgtype` and `uuidFromPgtype` together; and an instant as it comes back from
-- a TIMESTAMPTZ column, which keeps microseconds.
pub record Columns : Type 0 where
  pub uuid : Text → Option Text
  pub parsed : Text → Option Text
  pub instant : ℕ → ℕ

abbrev pub signed32 : ℕ → ℤ
signed32 w = if ltb w (2 ^ 31) then pos w else negsuc (2 ^ 32 - w - 1)

-- `int32(n)`: the low 32 bits, with their sign.
unfoldable pub int32 : ℤ → ℤ
int32 (pos n) = signed32 (n % 2 ^ 32)
int32 (negsuc n) = signed32 (2 ^ 32 - 1 - n % 2 ^ 32)

-- The numbers of a 32-bit column.
abbrev pub IsInt32 : ℤ → Type 0
IsInt32 (pos n) = n < 2 ^ 31
IsInt32 (negsuc n) = n < 2 ^ 31

-- A number that fits is stored as it is.
pub int32_of_IsInt32 : (a : ℤ) → IsInt32 a → int32 a ≡ a
unfolding int32
int32_of_IsInt32 (pos n) h = ground arith
int32_of_IsInt32 (negsuc n) h = ground arith

-- What is stored fits, whatever the number.
pub int32-IsInt32 : (a : ℤ) → IsInt32 (int32 a)
unfolding int32
int32-IsInt32 (pos n) = ground arith
int32-IsInt32 (negsuc n) = ground arith
