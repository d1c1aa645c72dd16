-- ===== src/Oidc/Texts.antt =====
-- What the protocol uses of Go's strings and regexp packages.
use Prim.Native.Char.{code}
use opened_connect_server.Prelude.{
  ltb, leb, eqb, if◌then◌else◌, ◌<>◌, ℕ, ◌+◌, ◌-◌, ◌*◌, ◌^◌, String, Bool, true, false, ◌&&◌, ◌||◌,
  Option, none, some, List, [], ◌∷◌,
}

-- The code points of a text.
abbrev pub codes : String → List ℕ
codes String.[] = []
codes (String.◌∷◌ c s) = code c ∷ codes s

-- unicode.IsSpace
is_space : ℕ → Bool
is_space c =
    leb 9 c && leb c 13
    || (eqb c 32
        || (eqb c 0x85
            || (eqb c 0xA0
                || (eqb c 0x1680
                    || (leb 0x2000 c && leb c 0x200A
                        || (leb 0x2028 c && leb c 0x2029
                            || (eqb c 0x202F || (eqb c 0x205F || eqb c 0x3000))))))))

abbrev push_word : String → List String → List String
push_word String.[] ws = ws
push_word (String.◌∷◌ c w) ws = String.◌∷◌ c w ∷ ws

-- the word that the text begins with, and the words after it
split_words : String → String × List String
unfolding is_space
split_words String.[] = ("", [])
split_words (String.◌∷◌ c s) =
    let (w, ws) = split_words s in
    if is_space (code c) then ("", push_word w ws) else (String.◌∷◌ c w, ws)

-- strings.Fields
unfoldable pub fields : String → List String
unfolding split_words
fields s = let (w, ws) = split_words s in push_word w ws

-- strings.TrimLeft and strings.TrimRight, by unicode.IsSpace
trim_left : String → String
unfolding is_space
trim_left String.[] = String.[]
trim_left (String.◌∷◌ c s) =
    let rest = trim_left s in if is_space (code c) then rest else String.◌∷◌ c s

is_blank : String → Bool
is_blank String.[] = true
is_blank (String.◌∷◌ c s) = false

trim_right : String → String
unfolding is_space is_blank
trim_right String.[] = String.[]
trim_right (String.◌∷◌ c s) =
    let rest = trim_right s in
    if is_blank rest && is_space (code c) then String.[] else String.◌∷◌ c rest

-- strings.TrimSpace
unfoldable pub trim_space : String → String
unfolding trim_left trim_right
trim_space s = trim_right (trim_left s)

-- a run of decimal digits, read from the left
digits_value : ℕ → List ℕ → Option ℕ
digits_value total [] = some total
digits_value total (c ∷ cs) =
    let rest = digits_value (total * 10 + (c - b'0')) cs in
    if leb b'0' c && leb c b'9' then rest else none

unsigned : List ℕ → Option ℕ
unfolding digits_value
unsigned [] = none
unsigned (c ∷ cs) = digits_value 0 (c ∷ cs)

signed : List ℕ → Bool × List ℕ
signed [] = (false, [])
signed (c ∷ cs) =
    if eqb c b'-' then (true, cs) else if eqb c b'+' then (false, cs) else (false, c ∷ cs)

-- strconv.ParseInt(text, 10, 64), where it gives a number that is not negative: `-0` is one
unfoldable pub parse_natural : String → Option ℕ
unfolding unsigned signed
parse_natural text =
    let (negative, digits) = signed (codes text) in
    elim (unsigned digits) [
      | none ↦ none
      | some n ↦ if (if negative then eqb n 0 else ltb n (2 ^ 63)) then some n else none
    ]

-- strings.Join
unfoldable pub join_texts : List String → String → String
join_texts [] separator = ""
join_texts (x ∷ []) separator = x
join_texts (x ∷ y ∷ xs) separator = x <> separator <> join_texts (y ∷ xs) separator

-- [A-Za-z0-9]
unfoldable pub is_alphanumeric : ℕ → Bool
is_alphanumeric c =
    leb b'A' c && leb c b'Z' || (leb b'a' c && leb c b'z' || leb b'0' c && leb c b'9')
