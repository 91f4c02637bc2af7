-- ===== src/Att/Fuel/Decoders.antt =====
-- What the client decodes raises Python's exceptions only.
use bluek.Prelude.{
  ◌≢◌, ap, ℕ, List, [], ◌∷◌, drop, length, ◌==◌, Bool, true, false, Option, none, some, get_elem?,
  arith, if◌then◌else◌, Text,
}
use bluek.Prelude.Int.{ℤ, pos, negsuc}
use bluek.Prelude.Result
use bluek.Prelude.Result.{
  Result, Error, ok, err, or_raise, index_error, value_error, overflow_error, out_of_fuel,
}
use bluek.Bytes.{Bytes, byte_at, from_bytes}
use bluek.Texts.{int16, format_hex}
use bluek.Uuids.{
  uuid_from_bytes, normalize_uuid_str, normalize_uuid_16, parse_uuid, as_uuid, uuid_text,
}
use bluek.Att.Services.{
  Group, Attribute, decode_descriptor, decode_characteristic, decode_characteristics,
  decode_services,
}
use bluek.Att.Fuel.{err-injective}

pub ok-ne_out_of_fuel : {A : Type 0} (a : A) → ok a ≢ err out_of_fuel
ok-ne_out_of_fuel a h = cc

pub value_error-ne_out_of_fuel :
    {A : Type 0} → Path (Result A) (err value_error) (err out_of_fuel) → ⊥
value_error-ne_out_of_fuel h = cc

pub bind-ne_out_of_fuel :
    {A B : Type 0} (r : Result A) (f : A → Result B)
    → r ≢ err out_of_fuel
    → ((a : A) → f a ≢ err out_of_fuel)
    → Result.◌>>=◌ r f ≢ err out_of_fuel
bind-ne_out_of_fuel (ok a) f h k t = k a t
bind-ne_out_of_fuel (err e) f h k t = h (ap err (err-injective t))

pub if-ne_out_of_fuel :
    {A : Type 0} (b : Bool) (r r' : Result A)
    → r ≢ err out_of_fuel
    → r' ≢ err out_of_fuel
    → (if b then r else r') ≢ err out_of_fuel
if-ne_out_of_fuel true r r' h k = h
if-ne_out_of_fuel false r r' h k = k

or_raise-ne_out_of_fuel :
    {A : Type 0} (o : Option A) (e : Error) → e ≢ out_of_fuel → or_raise o e ≢ err out_of_fuel
or_raise-ne_out_of_fuel none e ne h = ne (err-injective h)
or_raise-ne_out_of_fuel (some x) e ne h = cc

pub byte_at-ne_out_of_fuel : (b : Bytes) (i : ℕ) → byte_at b i ≢ err out_of_fuel
byte_at-ne_out_of_fuel b i = or_raise-ne_out_of_fuel (get_elem? b i) index_error (λ h. cc)

int16-ne_out_of_fuel : (s : Text) → int16 s ≢ err out_of_fuel
unfolding int16
int16-ne_out_of_fuel s = or_raise-ne_out_of_fuel _ value_error (λ h. cc)

as_uuid-ne_out_of_fuel : (z : ℤ) → as_uuid z ≢ err out_of_fuel
as_uuid-ne_out_of_fuel (pos n) h = ground arith
as_uuid-ne_out_of_fuel (negsuc n) h = cc

parse_uuid-ne_out_of_fuel : (s : Text) → parse_uuid s ≢ err out_of_fuel
unfolding parse_uuid
parse_uuid-ne_out_of_fuel s =
    if-ne_out_of_fuel _ _ _
      (bind-ne_out_of_fuel (int16 _) _ (int16-ne_out_of_fuel _) as_uuid-ne_out_of_fuel)
      value_error-ne_out_of_fuel

normalize_uuid_str-ne_out_of_fuel : (s : Text) → normalize_uuid_str s ≢ err out_of_fuel
unfolding normalize_uuid_str
normalize_uuid_str-ne_out_of_fuel s =
    bind-ne_out_of_fuel (parse_uuid _) _ (parse_uuid-ne_out_of_fuel _) (λ n h. cc)

uuid_from_bytes-ne_out_of_fuel : (b : Bytes) → uuid_from_bytes b ≢ err out_of_fuel
unfolding uuid_from_bytes normalize_uuid_16
uuid_from_bytes-ne_out_of_fuel b =
    let n = from_bytes b in
    if-ne_out_of_fuel (length b == 2) _ _ (normalize_uuid_str-ne_out_of_fuel (format_hex 4 n)) (
      if-ne_out_of_fuel (length b == 4) _ _ (normalize_uuid_str-ne_out_of_fuel (format_hex 8 n)) (
        if-ne_out_of_fuel (length b == 16) _ _ (ok-ne_out_of_fuel (uuid_text n))
          value_error-ne_out_of_fuel))

pub decode_descriptor-ne_out_of_fuel : (e : Bytes) → decode_descriptor e ≢ err out_of_fuel
decode_descriptor-ne_out_of_fuel e =
    bind-ne_out_of_fuel _ _ (uuid_from_bytes-ne_out_of_fuel (drop 2 e)) (λ uuid h. cc)

decode_characteristic-ne_out_of_fuel : (a : Attribute) → decode_characteristic a ≢ err out_of_fuel
decode_characteristic-ne_out_of_fuel a =
    bind-ne_out_of_fuel _ _ (byte_at-ne_out_of_fuel a.value 0) (λ properties.
      bind-ne_out_of_fuel _ _ (uuid_from_bytes-ne_out_of_fuel (drop 3 a.value)) (λ uuid h. cc))

pub decode_characteristics-ne_out_of_fuel :
    (as' : List Attribute) → decode_characteristics as' ≢ err out_of_fuel
unfolding decode_characteristics
decode_characteristics-ne_out_of_fuel [] = λ h. cc
decode_characteristics-ne_out_of_fuel (a ∷ rest) =
    bind-ne_out_of_fuel _ _ (decode_characteristic-ne_out_of_fuel a)
      (λ c. bind-ne_out_of_fuel _ _ (decode_characteristics-ne_out_of_fuel rest) (λ cs h. cc))

pub decode_services-ne_out_of_fuel : (gs : List Group) → decode_services gs ≢ err out_of_fuel
unfolding decode_services
decode_services-ne_out_of_fuel [] = λ h. cc
decode_services-ne_out_of_fuel (g ∷ rest) =
    bind-ne_out_of_fuel _ _ (uuid_from_bytes-ne_out_of_fuel g.value)
      (λ uuid. bind-ne_out_of_fuel _ _ (decode_services-ne_out_of_fuel rest) (λ ss h. cc))
