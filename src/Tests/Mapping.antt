-- ===== src/Tests/Mapping.antt =====
-- Messages and insertions at concrete inputs.
use esp32_berry_lang.Base.{
  ℕ, ◌<◌, str_eq, str_eq_iff, true, false, Bytes, List, [], ◌∷◌, ◌++◌, codes, Option, none, some,
  length, replicate, ◌≡◌, refl, arith, if◌then◌else◌,
}
use esp32_berry_lang.Events.{Value, nil, string, object}
use esp32_berry_lang.Events.Balance.{on}
use esp32_berry_lang.Mapping.Raise.{be_raisef, sizeof_log_data, Shortened, be_raisef-Shortened}
use esp32_berry_lang.Mapping.Insert.{Maps, be_map_insert_list_uint8}
use esp32_berry_lang.Mapping.Inserted.{Reader, Laws, numbers, be_map_insert_list_uint8-find}

abbrev long_text : Bytes
long_text = replicate 125 b'x'

be_raisef-Shortened_example :
    ((be_raisef (codes "value_error") long_text).0 ≡ codes "value_error")
    × Shortened long_text (be_raisef (codes "value_error") long_text).1
    × (length (be_raisef (codes "value_error") long_text).1 < sizeof_log_data)
be_raisef-Shortened_example = be_raisef-Shortened (codes "value_error") long_text (omega arith)

-- The entries of one map and the values of one list, which a new list takes over.
abbrev State : Type 0
State = List (Bytes × Value) × List Value

abbrev find_in : List (Bytes × Value) → Bytes → Option Value
find_in [] key = none
find_in ((k, v) ∷ entries) key =
    let rest = find_in entries key in if str_eq key k then some v else rest

abbrev insert_in : Value → Value → State → State
insert_in (string key) v (entries, items) = ((key, v) ∷ entries, items)
insert_in _ v m = m

abbrev maps : Maps State ℕ
maps = record {
  data_insert = λ table key v m. insert_in key v m;
  new_list = λ m. (object 2, object 1, (m.0, []));
  data_push = λ l v m. (m.0, m.1 ++ (v ∷ []));
  real = λ r. nil;
  isnan = λ r. false;
}

abbrev reader : Reader State
reader = record {
  is_map = λ v. true;
  is_list = λ v. true;
  find = λ table key m. find_in m.0 key;
  backing = λ i m. object 1;
  list_items = λ l m. m.1;
}

find_first :
    (key : Bytes) (v : Value) (m : State) → find_in (insert_in (string key) v m).0 key ≡ some v
find_first key v (entries, items) = rw ((str_eq_iff key key).1 refl) refl

maps-Laws : Laws maps reader
maps-Laws = record {
  new_is_list = λ m. refl;
  new_backing = λ m. refl;
  new_items = λ m. refl;
  new_find = λ table key m. refl;
  push_last = λ l v m h. refl;
  push_backing = λ l v i m. refl;
  push_find = λ l v table key m. refl;
  insert_find = λ table v key m h absent. find_first key v m;
  insert_backing = λ table v i key m. refl;
  insert_items = λ table v l key m h h'. refl;
}

be_map_insert_list_uint8-find_example :
    let (s', m') =
      be_map_insert_list_uint8 maps
        (codes "bssid")
        (10 ∷ 20 ∷ [])
        (on (object 0 ∷ nil ∷ []))
        ([], []) in
    (s' ≡ on (object 0 ∷ nil ∷ []))
    × ((i : Value) × (reader.find (object 0) (codes "bssid") m' ≡ some i)
        × (reader.list_items (reader.backing i m') m' ≡ numbers (10 ∷ 20 ∷ [])))
be_map_insert_list_uint8-find_example =
    be_map_insert_list_uint8-find maps-Laws (codes "bssid") (10 ∷ 20 ∷ []) (object 0) (nil ∷ [])
      ([], []) refl refl
