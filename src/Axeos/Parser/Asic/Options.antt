-- ===== src/Axeos/Parser/Asic/Options.antt =====
-- About the options and the defaults that a device states.
use bitaxe_fleet.Prelude.{
  ◌≡◌, refl, Bool, false, not, Option, none, some, List, [], ◌∷◌, ◌++◌, ◌&&◌, ◌||◌, arith, ℤ, pos,
  leb_ℤ, eq_ℤ, All, All-append,
}
use mathlib.Core.Path.{subst}
use bitaxe_fleet.Python.Text.{Text, codes}
use bitaxe_fleet.Python.Float.{Float, of_ℤ, float_eq, is_integer, to_int}
use bitaxe_fleet.Python.Value.{Value, null, array, Items, nil, cons}
use bitaxe_fleet.Python.Library.{Library}
use bitaxe_fleet.Axeos.Errors.{
  Error, Result, ok, >>=-eq-ok, raise_if, raise_if-eq-ok, invalid_response, invalid_field, Ensures,
  Ensures-bind, Ensures-ok,
}
use bitaxe_fleet.Axeos.Models.{AsicCapabilities, contains_float, contains_int}
use bitaxe_fleet.Axeos.Parser.Fields.{
  get, as_string_keyed_mapping, parse_number, validate_number_range, optional_text, required_text,
}
use bitaxe_fleet.Axeos.Parser.Fields.Ranges.{
  NumberIn, IntIn, parse_number-finite, validate_number_range-NumberIn, optional_number-NumberIn,
  optional_int-IntIn,
}
use bitaxe_fleet.Axeos.Parser.Asic.{
  system_asic_operation, read_numbers, number_tuple, read_ints, int_tuple, foreign_number,
  foreign_int, optional_number_tuple, optional_int_tuple, parse_system_asic,
}

-- No value stands twice.
abbrev pub NoFloatTwice : List Float → Type 0
NoFloatTwice [] = Unit
NoFloatTwice (x ∷ xs) = (contains_float x xs ≡ false) × NoFloatTwice xs

abbrev pub NoIntTwice : List ℤ → Type 0
NoIntTwice [] = Unit
NoIntTwice (n ∷ ns) = (contains_int n ns ≡ false) × NoIntTwice ns

float_eq_sym : (x y : Float) → float_eq x y ≡ float_eq y x
unfolding float_eq
float_eq_sym x y = ground arith

contains_float-append :
    (x y : Float) (xs : List Float)
    → contains_float x (xs ++ y ∷ []) ≡ (contains_float x xs || float_eq x y)
unfolding contains_float
contains_float-append x y [] = ground arith
contains_float-append x y (z ∷ xs) = ground (arith, contains_float-append x y xs)

append-NoFloatTwice :
    (xs : List Float) (y : Float)
    → NoFloatTwice xs
    → contains_float y xs ≡ false
    → NoFloatTwice (xs ++ y ∷ [])
unfolding contains_float
append-NoFloatTwice [] y h new = (refl, tt)
append-NoFloatTwice (x ∷ xs) y h new = (
  ground (arith, contains_float-append x y xs, h.0, new, float_eq_sym x y),
  append-NoFloatTwice xs y h.1 (ground (arith, new)),
)

contains_int-append :
    (x y : ℤ) (xs : List ℤ) → contains_int x (xs ++ y ∷ []) ≡ (contains_int x xs || eq_ℤ x y)
unfolding contains_int
contains_int-append x y [] = ground arith
contains_int-append x y (z ∷ xs) = ground (arith, contains_int-append x y xs)

append-NoIntTwice :
    (xs : List ℤ) (y : ℤ) → NoIntTwice xs → contains_int y xs ≡ false → NoIntTwice (xs ++ y ∷ [])
unfolding contains_int
append-NoIntTwice [] y h new = (refl, tt)
append-NoIntTwice (x ∷ xs) y h new = (
  ground (arith, contains_int-append x y xs, h.0, new),
  append-NoIntTwice xs y h.1 (ground (arith, new)),
)

-- Options that are absent, or distinct and within the bounds.
abbrev pub FloatOptions : Option (List Float) → Type 0
FloatOptions none = Unit
FloatOptions (some xs) =
    All (λ x. NumberIn (pos 1) (some (pos 10000)) (some x)) xs × NoFloatTwice xs

abbrev pub IntOptions : Option (List ℤ) → Type 0
IntOptions none = Unit
IntOptions (some ns) = All (λ n. IntIn (pos 1) (some (pos 10000)) (some n)) ns × NoIntTwice ns

module _ (lib : Library) (key : Text) where
  read_numbers-FloatOptions :
      (items : Items) (values : List Float) {result : List Float}
      → FloatOptions (some values)
      → read_numbers lib key (of_ℤ (pos 1)) (of_ℤ (pos 10000)) items values ≡ ok result
      → FloatOptions (some result)
  unfolding read_numbers
  read_numbers-FloatOptions nil values {result} h e =
      let q : values ≡ result = cc in subst (λ xs. FloatOptions (some xs)) q h
  read_numbers-FloatOptions (cons item rest) values h e =
      let (x, parsed, e1) = >>=-eq-ok (parse_number lib item key system_asic_operation) _ e in
      let (u, valid, e2) =
        >>=-eq-ok
          (validate_number_range x key system_asic_operation (some (of_ℤ (pos 1)))
            (some (of_ℤ (pos 10000))))
          _ e1 in
      let (v, fresh, e3) =
        >>=-eq-ok
          (raise_if (contains_float x values)
            (invalid_response system_asic_operation (invalid_field key)))
          _ e2 in
      let new = raise_if-eq-ok (contains_float x values) _ fresh in
      let range =
        validate_number_range-NumberIn lib key system_asic_operation x (pos 1) (some (pos 10000))
          (parse_number-finite lib key system_asic_operation item parsed) valid in
      read_numbers-FloatOptions rest (values ++ x ∷ [])
        (
          All-append (λ y. NumberIn (pos 1) (some (pos 10000)) (some y)) values (x ∷ []) h.0
              (range, tt),
          append-NoFloatTwice values x h.1 new,
        )
        e3

  read_ints-IntOptions :
      (items : Items) (values : List ℤ) {result : List ℤ}
      → IntOptions (some values)
      → read_ints lib key (pos 1) (pos 10000) items values ≡ ok result
      → IntOptions (some result)
  unfolding read_ints
  read_ints-IntOptions nil values {result} h e =
      let q : values ≡ result = cc in subst (λ ns. IntOptions (some ns)) q h
  read_ints-IntOptions (cons item rest) values h e =
      let (x, parsed, e1) = >>=-eq-ok (parse_number lib item key system_asic_operation) _ e in
      let (u, whole, e2) =
        >>=-eq-ok
          (raise_if (not (is_integer x))
            (invalid_response system_asic_operation (invalid_field key)))
          _ e1 in
      let test =
        not (leb_ℤ (pos 1) (to_int x) && leb_ℤ (to_int x) (pos 10000))
        || contains_int (to_int x) values in
      let (v, fresh, e3) =
        >>=-eq-ok (raise_if test (invalid_response system_asic_operation (invalid_field key))) _
          e2 in
      let clear = raise_if-eq-ok test _ fresh in
      read_ints-IntOptions rest (values ++ to_int x ∷ [])
        (
          All-append (λ n. IntIn (pos 1) (some (pos 10000)) (some n)) values (to_int x ∷ []) h.0
              ((ground (arith, clear), ground (arith, clear)), tt),
          append-NoIntTwice values (to_int x) h.1 (ground (arith, clear)),
        )
        e3

  number_tuple-FloatOptions :
      (v : Value) {o : Option (List Float)}
      → number_tuple lib key (of_ℤ (pos 1)) (of_ℤ (pos 10000)) v ≡ ok o
      → FloatOptions o
  unfolding number_tuple
  number_tuple-FloatOptions null {o} e = let q : none ≡ o = cc in subst FloatOptions q tt
  number_tuple-FloatOptions (array (cons item rest)) {o} e =
      let (xs, read, e1) =
        >>=-eq-ok (read_numbers lib key (of_ℤ (pos 1)) (of_ℤ (pos 10000)) (cons item rest) []) _
          e in
      let q : some xs ≡ o = cc in
      subst FloatOptions q (read_numbers-FloatOptions (cons item rest) [] (tt, tt) read)
  number_tuple-FloatOptions _ e = cc

  int_tuple-IntOptions :
      (v : Value) {o : Option (List ℤ)}
      → int_tuple lib key (pos 1) (pos 10000) v ≡ ok o
      → IntOptions o
  unfolding int_tuple
  int_tuple-IntOptions null {o} e = let q : none ≡ o = cc in subst IntOptions q tt
  int_tuple-IntOptions (array (cons item rest)) {o} e =
      let (ns, read, e1) =
        >>=-eq-ok (read_ints lib key (pos 1) (pos 10000) (cons item rest) []) _ e in
      let q : some ns ≡ o = cc in
      subst IntOptions q (read_ints-IntOptions (cons item rest) [] (tt, tt) read)
  int_tuple-IntOptions _ e = cc

-- The options are distinct and within the bounds, and so are the defaults, each of which is among its
-- options where both are given.
pub record IsValidCapabilities (c : AsicCapabilities) : Type 0 where
  pub frequency_options : FloatOptions c.frequency_options_mhz
  pub voltage_options : IntOptions c.voltage_options_mv
  pub default_frequency : NumberIn (pos 1) (some (pos 10000)) c.default_frequency_mhz
  pub default_voltage : IntIn (pos 1) (some (pos 10000)) c.default_voltage_mv
  pub own_frequency : foreign_number c.frequency_options_mhz c.default_frequency_mhz ≡ false
  pub own_voltage : foreign_int c.voltage_options_mv c.default_voltage_mv ≡ false
  pub count : IntIn (pos 0) (some (pos 256)) c.asic_count

any : {A : Type 0} (r : Result A) → Ensures (λ _. Unit {0}) r
any r = record { of_ok = λ _ _. tt }

raise_if-Ensures : (b : Bool) (e : Error) → Ensures (λ _. b ≡ false) (raise_if b e)
raise_if-Ensures b e = record { of_ok = λ u h. raise_if-eq-ok b e h }

parsed-IsValidCapabilities :
    (lib : Library) (payload : Value) → Ensures IsValidCapabilities (parse_system_asic lib payload)
unfolding parse_system_asic optional_number_tuple optional_int_tuple
parsed-IsValidCapabilities lib payload =
    let op = system_asic_operation in
    Ensures-bind (any (as_string_keyed_mapping payload op)) λ asic _.
      Ensures-bind (any (required_text lib asic (codes "ASICModel") op)) λ model _.
        Ensures-bind
          (record {
            of_ok = λ o.
                number_tuple-FloatOptions lib (codes "frequencyOptions")
                  (get (codes "frequencyOptions") asic);
          })
          λ frequencies hf.
            Ensures-bind
              (record {
                of_ok = λ o.
                    int_tuple-IntOptions lib (codes "voltageOptions")
                      (get (codes "voltageOptions") asic);
              })
              λ voltages hv.
                Ensures-bind
                  (record {
                    of_ok = λ o.
                        optional_number-NumberIn lib asic (codes "defaultFrequency") op (pos 1)
                          (pos 10000);
                  })
                  λ frequency f.
                    Ensures-bind
                      (record {
                        of_ok = λ o.
                            optional_int-IntIn lib asic (codes "defaultVoltage") op (pos 1)
                              (some (pos 10000));
                      })
                      λ voltage v.
                        Ensures-bind (raise_if-Ensures (foreign_number frequencies frequency) _)
                          λ _ own_f.
                            Ensures-bind (raise_if-Ensures (foreign_int voltages voltage) _)
                              λ _ own_v.
                                Ensures-bind (any (optional_text lib asic (codes "deviceModel") op))
                                  λ device _.
                                    Ensures-bind
                                      (any (optional_text lib asic (codes "swarmColor") op))
                                      λ color _.
                                        Ensures-bind
                                          (record {
                                            of_ok = λ o.
                                                optional_int-IntIn lib asic (codes "asicCount") op
                                                  (pos 0) (some (pos 256));
                                          })
                                          λ count n. Ensures-ok _ (record {
                                            frequency_options = hf;
                                            voltage_options = hv;
                                            default_frequency = f;
                                            default_voltage = v;
                                            own_frequency = own_f;
                                            own_voltage = own_v;
                                            count = n;
                                          })

-- A payload that parses gives capabilities whose options are distinct and from 1 to 10000, whose defaults
-- are within the same bounds and among the options where both are given, and whose count of chips is
-- absent or from 0 to 256.
pub parse_system_asic-IsValidCapabilities :
    (lib : Library) (payload : Value) {c : AsicCapabilities}
    → parse_system_asic lib payload ≡ ok c
    → IsValidCapabilities c
parse_system_asic-IsValidCapabilities lib payload {c} h =
    (parsed-IsValidCapabilities lib payload).of_ok c h
