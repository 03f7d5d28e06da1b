-- ===== src/Tests/Json/Docs.antt =====
-- A library of objects with the behaviour that is relied on of json-c: objects are terms, written
-- node by node with every number raised by one.
use yubikey_personalization.Prelude.{
  ℕ, zero, suc, ◌+◌, ◌-◌, ◌≤◌, ◌≡◌, refl, sym, ap, ◌∙◌, arith, Bool, true, false, Option, none,
  some, List, [], ◌∷◌, ◌++◌, map, str_eq, ◌==◌, if◌then◌else◌, length, take, drop, length-append,
  take-append, drop-append, append_assoc, append-nil,
}
use yubikey_personalization.Pers.Export.{until_zero}
use yubikey_personalization.Pers.Json.{JsonC, IsLawful}
use yubikey_personalization.Pers.Json.Options.{until_zero-append}

pub data Doc : Type 0 where
  empty : Doc
  text : List ℕ → Doc
  int : ℕ → Doc
  boolean : Bool → Doc
  entry : Doc → List ℕ → Doc → Doc

abbrev raised : List ℕ → List ℕ
raised s = suc (length s) ∷ map suc s

abbrev write : Doc → List ℕ
write empty = 1 ∷ []
write (text s) = 2 ∷ raised s
write (int n) = 3 ∷ suc n ∷ []
write (boolean true) = 4 ∷ 2 ∷ []
write (boolean false) = 4 ∷ 1 ∷ []
write (entry o k v) = 5 ∷ (raised k ++ (write o ++ write v))

abbrev size : Doc → ℕ
size empty = 1
size (text s) = 1
size (int n) = 1
size (boolean b) = 1
size (entry o k v) = suc (size o + size v)

abbrev pred : ℕ → ℕ
pred n = n - 1

-- A list behind its length, and what follows it.
abbrev read_list : List ℕ → List ℕ × List ℕ
read_list [] = ([], [])
read_list (n ∷ s) = (map pred (take (n - 1) s), drop (n - 1) s)

abbrev read : ℕ → List ℕ → Option (Doc × List ℕ)
read zero s = none
read (suc fuel) [] = none
read (suc fuel) (c ∷ s) =
    if c == 1
    then some (empty, s)
    else if c == 2
    then some (text (read_list s).0, (read_list s).1)
    else if c == 3
    then elim s [ [] ↦ none | n ∷ t ↦ some (int (n - 1), t) ]
    else if c == 4
    then elim s [ [] ↦ none | n ∷ t ↦ some (boolean (n == 2), t) ]
    else elim (read fuel (read_list s).1) [
      | none ↦ none
      | some (o, t) ↦ elim (read fuel t) [
        | none ↦ none
        | some (v, u) ↦ some (entry o (read_list s).0 v, u)
      ]
    ]

length-map-suc : (s : List ℕ) → length (map suc s) ≡ length s
length-map-suc [] = refl
length-map-suc (x ∷ s) = ap suc (length-map-suc s)

map-pred-map-suc : (s : List ℕ) → map pred (map suc s) ≡ s
map-pred-map-suc [] = refl
map-pred-map-suc (x ∷ s) =
    let e : suc x - 1 ≡ x = omega arith in rw e (ap (λ l. x ∷ l) (map-pred-map-suc s))

read_list-raised : (s rest : List ℕ) → read_list (raised s ++ rest) ≡ (s, rest)
read_list-raised s rest =
    let e : suc (length s) - 1 ≡ length s = omega arith in
    rw
      (
        e,
        take-append (length s) (map suc s) rest (length-map-suc s),
        drop-append (length s) (map suc s) rest (length-map-suc s),
        map-pred-map-suc s,
      )
      refl

size_positive : (d : Doc) → 1 ≤ size d
size_positive empty = omega arith
size_positive (text s) = omega arith
size_positive (int n) = omega arith
size_positive (boolean b) = omega arith
size_positive (entry o k v) = omega arith

-- Two objects one behind the other, under a key.
abbrev read_entry : ℕ → List ℕ × List ℕ → Option (Doc × List ℕ)
read_entry fuel p = elim (read fuel p.1) [
  | none ↦ none
  | some (o, t) ↦ elim (read fuel t) [ none ↦ none | some (v, u) ↦ some (entry o p.0 v, u) ]
]

read-write :
    (d : Doc) (fuel : ℕ) (rest : List ℕ)
    → size d ≤ fuel
    → read fuel (write d ++ rest) ≡ some (d, rest)
read-write d zero rest h = absurd (omega (arith, h, size_positive d))
read-write empty (suc fuel) rest h = refl
read-write (text s) (suc fuel) rest h = ap (λ p. some (text p.0, p.1)) (read_list-raised s rest)
read-write (int n) (suc fuel) rest h = let e : suc n - 1 ≡ n = omega arith in rw e refl
read-write (boolean true) (suc fuel) rest h = refl
read-write (boolean false) (suc fuel) rest h = refl
read-write (entry o k v) (suc fuel) rest h =
    let all : raised k ++ (write o ++ write v) ++ rest
        ≡ raised k ++ (write o ++ (write v ++ rest)) =
      append_assoc (raised k) (write o ++ write v) rest
      ∙ ap (λ l. raised k ++ l) (append_assoc (write o) (write v) rest) in
    let first : read fuel (write o ++ (write v ++ rest)) ≡ some (o, write v ++ rest) =
      read-write o fuel (write v ++ rest) (omega (arith, h, size_positive v)) in
    let second : read fuel (write v ++ rest) ≡ some (v, rest) =
      read-write v fuel rest (omega (arith, h, size_positive o)) in
    ap (read_entry fuel) (ap read_list all ∙ read_list-raised k (write o ++ (write v ++ rest)))
    ∙ rw (first, second, read_entry) refl

size_le : (d : Doc) → size d ≤ length (write d)
size_le empty = omega arith
size_le (text s) = omega arith
size_le (int n) = omega arith
size_le (boolean true) = omega arith
size_le (boolean false) = omega arith
size_le (entry o k v) = omega (
  arith,
  size_le o,
  size_le v,
  length-append (raised k) (write o ++ write v),
  length-append (write o) (write v),
)

until_zero-raised : (s : List ℕ) → until_zero (map suc s) ≡ map suc s
unfolding until_zero
until_zero-raised [] = refl
until_zero-raised (x ∷ s) =
    let e : (suc x == 0) ≡ false = ground arith in rw e (ap (λ l. suc x ∷ l) (until_zero-raised s))

until_zero-suc : (n : ℕ) (s : List ℕ) → until_zero s ≡ s → until_zero (suc n ∷ s) ≡ suc n ∷ s
unfolding until_zero
until_zero-suc n s h = let e : (suc n == 0) ≡ false = ground arith in rw (e, h) refl

until_zero-write : (d : Doc) → until_zero (write d) ≡ write d
unfolding until_zero
until_zero-write empty = refl
until_zero-write (text s) =
    until_zero-suc 1 (raised s) (until_zero-suc (length s) (map suc s) (until_zero-raised s))
until_zero-write (int n) = until_zero-suc 2 (suc n ∷ []) (until_zero-suc n [] refl)
until_zero-write (boolean true) = refl
until_zero-write (boolean false) = refl
until_zero-write (entry o k v) = until_zero-suc 4 (raised k ++ (write o ++ write v)) (
    until_zero-append (raised k) (write o ++ write v)
      (until_zero-suc (length k) (map suc k) (until_zero-raised k))
    ∙ ap (λ l. raised k ++ l)
        (until_zero-append (write o) (write v) (until_zero-write o)
          ∙ ap (λ l. write o ++ l) (until_zero-write v)))

abbrev get : Doc → List ℕ → Option Doc
get (entry o k v) j = let rest = get o j in if str_eq j k then some v else rest
get empty j = none
get (text s) j = none
get (int n) j = none
get (boolean b) j = none

abbrev parsed : Option (Doc × List ℕ) → Option Doc
parsed none = none
parsed (some (d, rest)) = some d

abbrev bool_of : Doc → Bool
bool_of (boolean b) = b
bool_of (int n) = false
bool_of (text s) = false
bool_of empty = false
bool_of (entry o k v) = false

abbrev is_bool : Doc → Bool
is_bool (boolean b) = true
is_bool (int n) = false
is_bool (text s) = false
is_bool empty = false
is_bool (entry o k v) = false

abbrev int_of : Doc → ℕ
int_of (int n) = n
int_of (boolean b) = 0
int_of (text s) = 0
int_of empty = 0
int_of (entry o k v) = 0

abbrev text_of : Doc → List ℕ
text_of (text s) = s
text_of (int n) = []
text_of (boolean b) = []
text_of empty = []
text_of (entry o k v) = []

abbrev pub doc_lib : JsonC Doc
doc_lib = record {
  new_object = empty;
  new_string = text;
  new_int = int;
  new_boolean = boolean;
  object_add = entry;
  object_get = get;
  is_boolean = is_bool;
  get_boolean = bool_of;
  get_int = int_of;
  get_string = text_of;
  to_json_string = write;
  tokener_parse = λ s. parsed (read (length s) s);
}

pub doc_lib-IsLawful : IsLawful doc_lib
doc_lib-IsLawful = record {
  get-new = λ k. refl;
  get-add = λ o k v j. refl;
  is_boolean-new = λ b. refl;
  get_boolean-new = λ b. refl;
  get_int-new = λ n. refl;
  get_string-new = λ s. refl;
  parse-to_string = λ o.
      ap (λ t. parsed (read (length (write o)) t)) (sym (append-nil (write o)))
      ∙ ap parsed (read-write o (length (write o)) [] (size_le o));
  until_zero-to_string = until_zero-write;
}
