-- ===== src/Assets/BodyLimit.antt =====
-- maxBytesReadCloser of internal/assets/handler.go: the body of a proxied segment whose length the
-- origin did not announce, read through io.LimitReader(body, max + 1).
pub mod Prefix
use audistro_provider.Prelude.{
  ℕ, ◌+◌, ◌-◌, Bool, true, false, List, [], ◌∷◌, ◌++◌, length, take, drop, min, ltb, ◌==◌,
  if◌then◌else◌,
}
use audistro_provider.Go.Int64.{pos, pos_part, ◌+ℤ◌}

-- The error of a read: none yet, the end of the body, one of the connection, or the limit's own.
pub data ReadError : Type 0 where
  no_error eof broken too_large : ReadError

-- What the connection reports with the bytes of a read.
pub data Connection : Type 0 where
  streaming ended failed : Connection

unfoldable pub connection_error : Connection → ReadError
connection_error streaming = no_error
connection_error ended = eof
connection_error failed = broken

-- What one read meets: the size of its buffer, how many bytes have arrived, and what the
-- connection reports with them.
pub record Arrival : Type 0 where
  pub buffer : ℕ
  pub ready : ℕ
  pub connection : Connection

-- `rest` is what the origin has yet to send, `left` the N of the LimitedReader,
-- or 0 where that is negative.
pub record BodyReader : Type 0 where
  pub rest : List ℕ
  pub left : ℕ
  pub max : ℕ
  pub read : ℕ
  pub overflow : Bool

unfoldable pub new_body_reader : ℕ → List ℕ → BodyReader
new_body_reader max body = record {
  rest = body;
  left = max + 1;
  max = max;
  read = 0;
  overflow = false;
}

-- LimitedReader.Read: how many bytes it asks for and gets; with nothing left it answers io.EOF.
abbrev pub granted : BodyReader → Arrival → ℕ
granted r a = min (min a.buffer r.left) a.ready

abbrev pub limited_error : BodyReader → Arrival → ReadError
limited_error r a = if r.left == 0 then eof else connection_error a.connection

abbrev pub consume : BodyReader → Arrival → BodyReader
consume r a =
    let chunk = take (granted r a) r.rest in
    record r { rest = drop (granted r a) r.rest; left = r.left - length chunk }

-- The rest of `Read`, given the bytes and the error of the limited reader.
unfoldable pub check_limit : BodyReader → List ℕ → ReadError → List ℕ × ReadError × BodyReader
check_limit r chunk error =
    if length chunk == 0
    then (chunk, error, r)
    else if ltb r.max (r.read + length chunk)
    then (
      take (r.max - r.read) chunk,
      (if r.max - r.read == 0 then too_large else no_error),
      record r { read = r.max; overflow = true },
    )
    else (chunk, error, record r { read = r.read + length chunk })

unfoldable pub read : BodyReader → Arrival → List ℕ × ReadError × BodyReader
unfolding check_limit
read r a =
    if r.overflow
    then ([], too_large, r)
    else check_limit (consume r a) (take (granted r a) r.rest) (limited_error r a)

-- An error ends the reading, no error goes on with it.
unfoldable pub hand_on : ReadError → List ℕ → List ℕ × ReadError → List ℕ × ReadError
hand_on no_error chunk (more, last) = (chunk ++ more, last)
hand_on eof chunk later = (chunk, eof)
hand_on broken chunk later = (chunk, broken)
hand_on too_large chunk later = (chunk, too_large)

-- Reads until one reports an error: the bytes handed on, and that error.
unfoldable pub read_all : BodyReader → List Arrival → List ℕ × ReadError
read_all r [] = ([], no_error)
read_all r (a ∷ arrivals) = hand_on (read r a).1 (read r a).0 (read_all (read r a).2 arrivals)
