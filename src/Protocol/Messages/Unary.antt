-- ===== src/Protocol/Messages/Unary.antt =====
-- An implementation of `Codec` with unary numbers: no code of the repository. It shows that `IsCodec`
-- can be met, and it runs the definitions in tests.
use hash_router.Common.{
  ◌≡◌, refl, arith, ℕ, zero, suc, ◌+◌, ◌*◌, ◌/◌, ◌%◌, String, true, Option, some, ◌==◌,
  if◌then◌else◌,
}
use Prim.Native.String.{len, ◌++◌ as str_append}
use text.Mathlib.TextPositions.{len-append}
use hash_router.Common.Int.{ℤ, pos, negsuc}
use hash_router.Float.Hundredths.{hundredths}
use hash_router.Protocol.Messages.Json.{Json, Codec, IsCodec}

abbrev pub ones : ℕ → String
ones zero = ""
ones (suc n) = str_append "1" (ones n)

len-ones : (n : ℕ) → len (ones n) ≡ n
len-ones zero = refl
len-ones (suc n) = omega (arith, len-append "1" (ones n), len-ones n)

abbrev format : ℤ → String
format (pos n) = ones (2 * n)
format (negsuc n) = ones (2 * n + 1)

abbrev parse : String → Option ℤ
parse s = if len s % 2 == 0 then some (pos (len s / 2)) else some (negsuc (len s / 2))

parse-format : (i : ℤ) → parse (format i) ≡ some i
parse-format (pos n) = ground (arith, len-ones (2 * n))
parse-format (negsuc n) = ground (arith, len-ones (2 * n + 1))

abbrev pub unary : Codec hundredths
unary = record {
  Raw = Json;
  marshal = λ j. j;
  unmarshal = λ j. some j;
  format_int = format;
  parse_int = parse;
  format_float = format;
  parse_float = parse;
  is_finite = λ x. true;
}

pub unary-IsCodec : IsCodec hundredths unary
unary-IsCodec = record {
  unmarshal-marshal = λ j. refl;
  parse_int-format_int = parse-format;
  parse_float-format_float = λ x h. parse-format x;
}
