-- ===== src/Tests/Users.antt =====
-- Tests of what is written and read back.
use cpp_client_sdk.Dict.{Dict, find, assign, find-assign}
use cpp_client_sdk.Event.{StatsigEventInternal, RetryableEventPayload}
use cpp_client_sdk.Json.Requests.{payload_to_json, serialize_payloads, deserialize_payloads}
use cpp_client_sdk.Json.Requests.Payloads.{
  Each, AreBatches, KeptBatch, deserialize-serialize_payloads,
}
use cpp_client_sdk.Json.User.{user_to_json, serialize_user, deserialize_user}
use cpp_client_sdk.Json.User.RoundTrip.{deserialize-serialize_user}
use cpp_client_sdk.JsonLib.{JsonLib, ◌>>=◌}
use cpp_client_sdk.JsonLib.Laws.{JsonLaws, IsPrintable, HasMembers, MemberLaws, KindLaws}
use cpp_client_sdk.Prelude.{
  String, ◌≡◌, refl, ap, ◌∙◌, inl, inr, true, Option, none, some, List, [], ◌∷◌, map, arith,
  if◌then◌else◌, has_value, pos,
}
use cpp_client_sdk.Result.{succeed}
use cpp_client_sdk.Tests.Toy.{
  Toy, toy_null, toy_object, toy_array, toy_text, toy_int, toy_bool, toy_member, toy_item,
  toy_members, toy_items, toy_of_map, toy_members-toy_of_map, toy_of_array, toy_find, toy_set,
  toy_json, insertion_order, sample_user,
}
use cpp_client_sdk.Text.{str_eq}
use cpp_client_sdk.User.{StatsigUser, are_users_equal}
use cpp_client_sdk.User.Keys.{SameUser}
use mathlib.Core.List.Permᴰ.{refl as perm_refl}

-- A library that reads every text as the given value.
abbrev pub reader_json : Toy → JsonLib
reader_json v = record toy_json { parse = λ text. some v }

abbrev sample_json : Toy
sample_json = user_to_json ⦃J = toy_json⦄ sample_user

abbrev writer_json : JsonLib
writer_json = reader_json sample_json

toy_find-toy_of_map : (m : Dict Toy) (k : String) → toy_find (toy_of_map m) k ≡ find k m
toy_find-toy_of_map m k = ap (λ o. o >>= find k) (toy_members-toy_of_map m)

set_object :
    (j v : Toy) (k : String) (o : Option (Dict Toy))
    → has_value o ≡ true
    → (m : Dict Toy) × (elim o [ none ↦ j | some n ↦ toy_of_map (assign k v n) ] ≡ toy_of_map m)
      × ((i : String) → find i m ≡ (if str_eq k i then some v else (o >>= find i)))
set_object j v k none h = absurd cc
set_object j v k (some n) h = (assign k v n, refl, λ i. find-assign k i v n)

set_member :
    (j v : Toy) (k : String)
    → HasMembers toy_json j
    → (m : Dict Toy) × (toy_set j k v ≡ toy_of_map m)
      × ((i : String) → find i m ≡ (if str_eq k i then some v else toy_find j i))
unfolding find
set_member toy_null v k h = ((k, v) ∷ [], refl, λ i. refl)
set_member toy_object v k h = set_object toy_object v k (some []) refl
set_member (toy_member i w rest) v k h =
    set_object (toy_member i w rest) v k (toy_members (toy_member i w rest))
      (elim h [ inl e ↦ absurd cc | inr e ↦ e ])
set_member toy_array v k h = absurd (elim h [ inl e ↦ cc | inr e ↦ cc ])
set_member (toy_text s) v k h = absurd (elim h [ inl e ↦ cc | inr e ↦ cc ])
set_member (toy_int n) v k h = absurd (elim h [ inl e ↦ cc | inr e ↦ cc ])
set_member (toy_bool b) v k h = absurd (elim h [ inl e ↦ cc | inr e ↦ cc ])
set_member (toy_item w rest) v k h = absurd (elim h [ inl e ↦ cc | inr e ↦ cc ])

pub writer_laws : (v : Toy) → JsonLaws (reader_json v)
writer_laws v = record {
  get_at-of_map = λ k m d. toy_find-toy_of_map m k;
  get_string-of_string = λ s. refl;
  get_int-of_int = λ n h. refl;
}

pub writer_members : (v : Toy) → MemberLaws (reader_json v)
writer_members v = record {
  is_object-set_key = λ j v k h.
      let (m, e, f) = set_member j v k h in
      ap (λ t. has_value (toy_members t)) e ∙ ap has_value (toy_members-toy_of_map m);
  get_at-set_key = λ j v k i h.
      let (m, e, f) = set_member j v k h in
      ap (λ t. toy_find t i) e ∙ toy_find-toy_of_map m i ∙ f i;
  get_at_null = λ i. refl;
  contains_get_at = λ j k. refl;
  index_get_at = λ j w k h. h;
  get_map-of_map = λ m d. (m, toy_members-toy_of_map m, perm_refl m);
  is_object-of_map = λ m. ap has_value (toy_members-toy_of_map m);
}

written_user-IsPrintable : IsPrintable writer_json (user_to_json ⦃J = writer_json⦄ sample_user)
unfolding user_to_json
written_user-IsPrintable = refl

deserialize-serialize_user_example :
    (text : String) × (v : StatsigUser) × (serialize_user ⦃J = writer_json⦄ sample_user
      ≡ some (succeed text))
    × (deserialize_user ⦃J = writer_json⦄ text ≡ succeed v)
    × SameUser sample_user v
    × (are_users_equal ⦃o = insertion_order⦄ sample_user v ≡ true)
deserialize-serialize_user_example =
    deserialize-serialize_user ⦃J = writer_json⦄ ⦃laws = writer_laws sample_json⦄
      ⦃members = writer_members sample_json⦄ ⦃o = insertion_order⦄ sample_user "a_user"
      (record { user_id = refl; custom_ids = tt; custom = tt; private_attributes = tt })
      written_user-IsPrintable

toy_items-toy_of_array : (vs : List Toy) → toy_items (toy_of_array vs) ≡ some vs
toy_items-toy_of_array [] = refl
toy_items-toy_of_array (v ∷ vs) = rw (toy_items-toy_of_array vs) refl

pub toy_kinds : (v : Toy) → KindLaws (reader_json v)
toy_kinds v = record {
  is_object_null = refl;
  is_array_null = refl;
  is_string_null = refl;
  is_number_null = refl;
  is_string-of_string = λ s. refl;
  is_string-of_double = λ d. refl;
  is_number-of_double = λ d. refl;
  get_double-of_double = λ d. refl;
  get_array-of_array = λ vs. toy_items-toy_of_array vs;
}

abbrev pub exposed_event : (v : Toy) → StatsigEventInternal ⦃J = reader_json v⦄
exposed_event v = record {
  event_name = "an_event";
  time = pos 3;
  user = sample_user;
  string_value = none;
  double_value = some (pos 2);
  metadata = some (("a_key", toy_text "a_text") ∷ []);
  secondary_exposures = some ((("gate", "a_gate") ∷ []) ∷ []);
}

abbrev failed_batches : (v : Toy) → List (RetryableEventPayload ⦃J = reader_json v⦄)
failed_batches v =
    record { attempts = pos 1; events = exposed_event v ∷ [] }
    ∷ record { attempts = pos 2; events = [] }
    ∷ []

abbrev batches_json : Toy
batches_json =
    toy_of_array (map (payload_to_json ⦃J = reader_json toy_null⦄) (failed_batches toy_null))

abbrev batches_reader : JsonLib
batches_reader = reader_json batches_json

failed_batches-AreBatches : AreBatches ⦃J = batches_reader⦄ (failed_batches batches_json)
failed_batches-AreBatches = (
  (
    (omega arith, omega arith),
    (
      (
        "a_user",
        record {
          time = (omega arith, omega arith);
          user = record { user_id = refl; custom_ids = tt; custom = tt; private_attributes = tt };
          metadata = ((tt, tt), perm_refl (("a_key", toy_text "a_text") ∷ []));
        },
      ),
      tt,
    ),
  ),
  (((omega arith, omega arith), tt), tt),
)

failed_batches-IsPrintable :
    IsPrintable batches_reader
      (toy_of_array (map (payload_to_json ⦃J = batches_reader⦄) (failed_batches batches_json)))
unfolding payload_to_json
failed_batches-IsPrintable = refl

deserialize-serialize_payloads_example :
    (text : String) × (rs : List (RetryableEventPayload ⦃J = batches_reader⦄)) × (serialize_payloads
        ⦃J = batches_reader⦄
        (failed_batches batches_json)
      ≡ some (succeed text))
    × (deserialize_payloads ⦃J = batches_reader⦄ text ≡ succeed rs)
    × Each (KeptBatch ⦃J = batches_reader⦄) (failed_batches batches_json) rs
deserialize-serialize_payloads_example =
    deserialize-serialize_payloads ⦃J = batches_reader⦄ ⦃laws = writer_laws batches_json⦄
      ⦃members = writer_members batches_json⦄ (toy_kinds batches_json) (failed_batches batches_json)
      failed_batches-AreBatches failed_batches-IsPrintable
