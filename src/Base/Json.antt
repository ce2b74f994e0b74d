-- ===== src/Base/Json.antt =====
-- JSON texts of one flat object, by RFC 8259: a reader that stands on the grammar alone. It goes over the
-- code points once; a value is a string, an integer or a truth value, and there is no white space.
-- A pair of surrogate escapes is not joined: each half is refused.
use Prim.Native.Char.{code}
use Prim.Native.Nat.{ℕ, ◌+◌, ◌-◌, ◌*◌, compare, Ordering, zero, suc}
use Prim.Native.String.{String}
use mathlib.Core.Path.{◌≡◌, refl}
use mathlib.Core.Bool.{Bool, true, false, ◌&&◌, ◌||◌}
use mathlib.Core.Option.{Option, none, some}
use mathlib.Core.List.{List, [], ◌∷◌}
use cleat_ports.Base.Tests.{ltb, leb, if◌then◌else◌}
use cleat_ports.Base.Lists.{append}
use cleat_ports.Base.Int.{ℤ, pos, negsuc}

abbrev pub codes : String → List ℕ
codes String.[] = []
codes (String.◌∷◌ c s) = code c ∷ codes s

abbrev pub same : ℕ → ℕ → Bool
same a b = elim (compare a b) [ Ordering.eq ↦ true | _ ↦ false ]

pub data Value : Type 0 where
  text : List ℕ → Value
  number : ℤ → Value
  flag : Bool → Value

abbrev pub Fields : Type 0
Fields = List (List ℕ × Value)

-- Where a string is: between characters, after a backslash, or in the digits of `\u`, of which so many
-- are left, with what they have come to.
pub data Escape : Type 0 where
  plain escaped : Escape
  digits_left : ℕ → ℕ → Escape

-- A string that is being read is a member's name, or the value of a member.
pub data Place : Type 0 where
  name_here : Place
  value_of : List ℕ → Place

pub data Reader : Type 0 where
  at_start : Reader
  at_first : Reader
  at_name : Fields → Reader
  in_string : Fields → Place → List ℕ → Escape → Reader
  at_colon : Fields → List ℕ → Reader
  at_value : Fields → List ℕ → Reader
  at_minus : Fields → List ℕ → Reader
  in_number : Fields → List ℕ → Bool → ℕ → Reader
  in_word : Fields → List ℕ → Bool → List ℕ → Reader
  after_value : Fields → Reader
  at_end : Fields → Reader

-- The value of a hexadecimal digit.
abbrev pub hex_value : ℕ → Option ℕ
hex_value c =
    if leb b'0' c && leb c b'9'
    then some (c - b'0')
    else if leb b'a' c && leb c b'f'
    then some (c - 87)
    else if leb b'A' c && leb c b'F'
    then some (c - 55)
    else none

-- What a backslash and this character stand for; `u` is left to the caller.
abbrev short_escape : ℕ → Option ℕ
short_escape c =
    if same c b'"' || same c b'\\' || same c b'/'
    then some c
    else if same c b'b'
    then some 8
    else if same c b'f'
    then some 12
    else if same c b'n'
    then some 10
    else if same c b'r'
    then some 13
    else if same c b't'
    then some 9
    else none

abbrev pub surrogate : ℕ → Bool
surrogate n = leb 0xd800 n && leb n 0xdfff

-- The end of a string.
abbrev pub finish_string : Fields → Place → List ℕ → Reader
finish_string fs name_here out = at_colon fs out
finish_string fs (value_of k) out = after_value (append fs (k, text out))

abbrev grow : Fields → Place → List ℕ → Option ℕ → Option Reader
grow fs p out none = none
grow fs p out (some c) = some (in_string fs p (append out c) plain)

abbrev pub digit_read : Fields → Place → List ℕ → ℕ → ℕ → Option ℕ → Option Reader
digit_read fs p out left n none = none
digit_read fs p out left n (some d) =
    if ltb 1 left
    then some (in_string fs p out (digits_left (left - 1) (n * 16 + d)))
    else if surrogate (n * 16 + d)
    then none
    else grow fs p out (some (n * 16 + d))

abbrev string_step : Fields → Place → List ℕ → Escape → ℕ → Option Reader
string_step fs p out plain c =
    if same c b'"'
    then some (finish_string fs p out)
    else if same c b'\\'
    then some (in_string fs p out escaped)
    else if ltb c 32
    then none
    else grow fs p out (some c)
string_step fs p out escaped c =
    if same c b'u'
    then some (in_string fs p out (digits_left 4 0))
    else grow fs p out (short_escape c)
string_step fs p out (digits_left left n) c = digit_read fs p out left n (hex_value c)

abbrev pub signed : Bool → ℕ → ℤ
signed false n = pos n
signed true n = elim n [ zero ↦ pos 0 | suc k ↦ negsuc k ]

abbrev after_step : Fields → ℕ → Option Reader
after_step fs c =
    if same c b',' then some (at_name fs) else if same c b'}' then some (at_end fs) else none

abbrev pub is_digit : ℕ → Bool
is_digit c = leb b'0' c && leb c b'9'

abbrev word_step : Fields → List ℕ → Bool → List ℕ → ℕ → Option Reader
word_step fs k b [] c = none
word_step fs k b (w ∷ []) c = if same c w then some (after_value (append fs (k, flag b))) else none
word_step fs k b (w ∷ v ∷ ws) c = if same c w then some (in_word fs k b (v ∷ ws)) else none

-- A number has no leading zero.
unfoldable pub step : Reader → ℕ → Option Reader
step at_start c = if same c b'{' then some at_first else none
step at_first c =
    if same c b'"'
    then some (in_string [] name_here [] plain)
    else if same c b'}'
    then some (at_end [])
    else none
step (at_name fs) c = if same c b'"' then some (in_string fs name_here [] plain) else none
step (in_string fs p out e) c = string_step fs p out e c
step (at_colon fs k) c = if same c b':' then some (at_value fs k) else none
step (at_value fs k) c =
    if same c b'"'
    then some (in_string fs (value_of k) [] plain)
    else if same c b'-'
    then some (at_minus fs k)
    else if is_digit c
    then some (in_number fs k false (c - b'0'))
    else if same c b't'
    then some (in_word fs k true (codes "rue"))
    else if same c b'f'
    then some (in_word fs k false (codes "alse"))
    else none
step (at_minus fs k) c = if is_digit c then some (in_number fs k true (c - b'0')) else none
step (in_number fs k minus n) c =
    if is_digit c
    then if same n 0 then none else some (in_number fs k minus (n * 10 + (c - b'0')))
    else after_step (append fs (k, number (signed minus n))) c
step (in_word fs k b ws) c = word_step fs k b ws c
step (after_value fs) c = after_step fs c
step (at_end fs) c = none

-- One after the other.
unfoldable pub feed : Option Reader → List ℕ → Option Reader
feed r [] = r
feed none (c ∷ cs) = none
feed (some r) (c ∷ cs) = feed (step r c) cs

abbrev pub finished : Option Reader → Option Fields
finished (some (at_end fs)) = some fs
finished _ = none

-- The members of the object that a text writes, or none if it is no such text.
unfoldable pub read_object : String → Option Fields
unfolding feed step append
read_object s = finished (feed (some at_start) (codes s))

reads_three :
    read_object "{\"a\":-120,\"b\":\"x\\u0041\\n\",\"c\":true}"
    ≡ some (
        (codes "a", number (negsuc 119))
        ∷ (codes "b", text (codes "xA\n"))
        ∷ (codes "c", flag true)
        ∷ [])
unfolding read_object
reads_three = refl

refuses_bell : read_object "{\"a\":\"\\a\"}" ≡ none
unfolding read_object
refuses_bell = refl

refuses_leading_zero : read_object "{\"a\":01}" ≡ none
unfolding read_object
refuses_leading_zero = refl
