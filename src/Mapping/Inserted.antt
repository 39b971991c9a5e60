-- ===== src/Mapping/Inserted.antt =====
-- What `be_map_insert_list_uint8` puts into a map.
use esp32_berry_lang.Base.{
  ◌≡◌, refl, sym, ◌∙◌, ap, Bool, true, Bytes, List, [], ◌∷◌, ◌++◌, append_assoc, append-nil, map,
  Option, none, some,
}
use esp32_berry_lang.Base.Int.{pos}
use esp32_berry_lang.Events.{Value, int, string, push, push_on, be_pop, pop_from, value_at}
use esp32_berry_lang.Events.Balance.{on}
use esp32_berry_lang.Mapping.Insert.{Maps, insert_top, push_items, be_map_insert_list_uint8}

-- How the state is read: whether a value is a map or a list, what a map has under a key, the list in
-- an instance, and the values of a list.
pub record Reader (M : Type 0) : Type 0 where
  pub is_map : Value → Bool
  pub is_list : Value → Bool
  pub find : Value → Bytes → M → Option Value
  pub backing : Value → M → Value
  pub list_items : Value → M → List Value

-- What the interpreter's documentation says: a new list is empty, a value is pushed at the end of a
-- list, a key that a map does not have gets the value; and none of it changes anything else.
pub record Laws {M R : Type 0} (maps : Maps M R) (reader : Reader M) : Type 0 where
  pub new_is_list : (m : M) → reader.is_list (maps.new_list m).1 ≡ true
  pub new_backing :
      (m : M) → reader.backing (maps.new_list m).0 (maps.new_list m).2 ≡ (maps.new_list m).1
  pub new_items : (m : M) → reader.list_items (maps.new_list m).1 (maps.new_list m).2 ≡ []
  pub new_find :
      (table : Value) (key : Bytes) (m : M)
      → reader.find table key (maps.new_list m).2 ≡ reader.find table key m
  pub push_last :
      (l v : Value) (m : M)
      → reader.is_list l ≡ true
      → reader.list_items l (maps.data_push l v m) ≡ reader.list_items l m ++ (v ∷ [])
  pub push_backing :
      (l v i : Value) (m : M) → reader.backing i (maps.data_push l v m) ≡ reader.backing i m
  pub push_find :
      (l v table : Value) (key : Bytes) (m : M)
      → reader.find table key (maps.data_push l v m) ≡ reader.find table key m
  pub insert_find :
      (table v : Value) (key : Bytes) (m : M)
      → reader.is_map table ≡ true
      → reader.find table key m ≡ none
      → reader.find table key (maps.data_insert table (string key) v m) ≡ some v
  pub insert_backing :
      (table v i : Value) (key : Bytes) (m : M)
      → reader.backing i (maps.data_insert table (string key) v m) ≡ reader.backing i m
  pub insert_items :
      (table v l : Value) (key : Bytes) (m : M)
      → reader.is_list l ≡ true
      → reader.is_map table ≡ true
      → reader.list_items l (maps.data_insert table (string key) v m) ≡ reader.list_items l m

abbrev pub numbers : Bytes → List Value
numbers value = map (λ b. int (pos b)) value

-- The items pushed, from the state
pushed : {M R : Type 0} → Maps M R → Value → Bytes → M → M
pushed maps l [] m = m
pushed maps l (b ∷ value) m = pushed maps l value (maps.data_push l (int (pos b)) m)

push_items-on :
    {M R : Type 0} (maps : Maps M R) (l : Value) (vs : List Value) (value : Bytes) (m : M)
    → push_items maps value (on (l ∷ vs)) m ≡ (on (l ∷ vs), pushed maps l value m)
unfolding push_items push push_on value_at be_pop pop_from pushed
push_items-on maps l vs [] m = refl
push_items-on maps l vs (b ∷ value) m =
    push_items-on maps l vs value (maps.data_push l (int (pos b)) m)

inserted-on :
    {M R : Type 0} (maps : Maps M R) (key value : Bytes) (table : Value) (vs : List Value) (m : M)
    → be_map_insert_list_uint8 maps key value (on (table ∷ vs)) m ≡ (
      on (table ∷ vs),
      let (i, l, m1) = maps.new_list m in
          maps.data_insert table (string key) i (pushed maps l value m1),
    )
unfolding be_map_insert_list_uint8 insert_top push push_on be_pop pop_from value_at
inserted-on maps key value table vs m =
    let (i, l, m1) = maps.new_list m in
    rw (push_items-on maps l (i ∷ string key ∷ table ∷ vs) value m1) refl

module _ {M R : Type 0} {maps : Maps M R} {reader : Reader M} (laws : Laws maps reader) where
  pushed-items :
      (l : Value) (value : Bytes) (m : M)
      → reader.is_list l ≡ true
      → reader.list_items l (pushed maps l value m) ≡ reader.list_items l m ++ numbers value
  unfolding pushed
  pushed-items l [] m h = sym (append-nil (reader.list_items l m))
  pushed-items l (b ∷ value) m h =
      pushed-items l value (maps.data_push l (int (pos b)) m) h
      ∙ ap (◌++ numbers value) (laws.push_last l (int (pos b)) m h)
      ∙ append_assoc (reader.list_items l m) (int (pos b) ∷ []) (numbers value)

  pushed-backing :
      (l i : Value) (value : Bytes) (m : M)
      → reader.backing i (pushed maps l value m) ≡ reader.backing i m
  unfolding pushed
  pushed-backing l i [] m = refl
  pushed-backing l i (b ∷ value) m =
      pushed-backing l i value (maps.data_push l (int (pos b)) m)
      ∙ laws.push_backing l (int (pos b)) i m

  pushed-find :
      (l table : Value) (key value : Bytes) (m : M)
      → reader.find table key (pushed maps l value m) ≡ reader.find table key m
  unfolding pushed
  pushed-find l table key [] m = refl
  pushed-find l table key (b ∷ value) m =
      pushed-find l table key value (maps.data_push l (int (pos b)) m)
      ∙ laws.push_find l (int (pos b)) table key m

  -- With a map on the top of the stack that does not have the key, `be_map_insert_list_uint8` leaves
  -- the stack as it was, and the map then has under the key an instance of a list that holds the
  -- bytes in their order, as integers.
  pub be_map_insert_list_uint8-find :
      (key value : Bytes) (table : Value) (vs : List Value) (m : M)
      → reader.is_map table ≡ true
      → reader.find table key m ≡ none
      → let (s', m') = be_map_insert_list_uint8 maps key value (on (table ∷ vs)) m in
        (s' ≡ on (table ∷ vs))
        × ((i : Value) × (reader.find table key m' ≡ some i)
            × (reader.list_items (reader.backing i m') m' ≡ numbers value))
  be_map_insert_list_uint8-find key value table vs m h absent =
      let (i, l, m1) = maps.new_list m in
      let m2 = pushed maps l value m1 in
      rw (inserted-on maps key value table vs m) (
        refl,
        (
          i,
          laws.insert_find table i key m2 h
              (pushed-find l table key value m1 ∙ laws.new_find table key m ∙ absent),
          rw
              (
                laws.insert_backing table i i key m2,
                pushed-backing l i value m1,
                laws.new_backing m,
                laws.insert_items table i l key m2 (laws.new_is_list m) h,
                pushed-items l value m1 (laws.new_is_list m),
                laws.new_items m,
              )
              refl,
        ),
      )
